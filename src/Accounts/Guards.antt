-- ===== src/Accounts/Guards.antt =====
-- The private methods of `AuthService` (server/auth.ts): the checks that the operations share, the
-- membership that an invitation grants, and the audit event of an operation.
use collaborative_ai_whitebo.Prelude.{
  ℕ, String, Bool, true, false, not, ◌&&◌, Option, none, some, List, [], ◌∷◌, leb, if◌then◌else◌,
  is_some, ◌==◌,
}
use collaborative_ai_whitebo.Exec.{pure, throw, lift, gets, ensure, ◌>>=◌, ◌>>◌}
use collaborative_ai_whitebo.Accounts.Types.{
  BoardRole, MemberRole, to_board_role, UserRecord, BoardRecord, BoardMemberRecord,
  InvitationRecord, MetaValue, text, auth, account_disabled, board_not_found, user_not_found,
  invalid_invitation,
}
use collaborative_ai_whitebo.Accounts.Database.{
  AuthDatabase, Statement, get_user_by_id, get_board_by_id, get_board_member, upsert_board_member,
}
use collaborative_ai_whitebo.Accounts.Ledger.{insert_account_event, consume_invitation_row}
use collaborative_ai_whitebo.Accounts.Input.{validate_board_id}

-- A text that JavaScript counts as true: present and not empty.
abbrev pub non_empty : Option String → Option String
non_empty none = none
non_empty (some s) = if s == "" then none else some s

unfoldable pub active : Option UserRecord → Statement UserRecord
active none = throw (auth user_not_found 404)
active (some user) =
    if is_some user.disabled_at then throw (auth account_disabled 403) else pure user

unfoldable pub require_active_user : String → Statement UserRecord
unfolding active
require_active_user user_id = do user ← gets (get_user_by_id user_id); active user

-- The board and the membership, where both are there and the board may be seen.
unfoldable pub visible :
    Bool → Option BoardRecord → Option BoardMemberRecord → Option (BoardRecord × BoardMemberRecord)
visible include_deleted none m = none
visible include_deleted (some b) none = none
visible include_deleted (some b) (some m) =
    if not include_deleted && is_some b.deleted_at then none else some (b, m)

unfoldable pub found_board :
    Option (BoardRecord × BoardMemberRecord) → Statement (BoardRecord × BoardMemberRecord)
found_board none = throw (auth board_not_found 404)
found_board (some found) = pure found

unfoldable pub require_board_member :
    String → String → Bool → Statement (BoardRecord × BoardMemberRecord)
unfolding visible found_board
require_board_member user_id board_id include_deleted = do
  require_active_user user_id
  id ← lift (validate_board_id board_id)
  board ← gets (get_board_by_id id)
  membership ← gets (get_board_member id user_id)
  found_board (visible include_deleted board membership)

abbrev pub is_owner : BoardRole → Bool
is_owner BoardRole.owner = true
is_owner BoardRole.editor = false
is_owner BoardRole.viewer = false

-- Whether the invitation names a login other than this one.
abbrev pub for_another_login : Option String → String → Bool
for_another_login none login = false
for_another_login (some invited) login = not (invited == login)

-- The board of an invitation, if it has one, is there and not deleted.
abbrev pub open_board : Option BoardRecord → Bool
open_board none = false
open_board (some b) = not (is_some b.deleted_at)

abbrev pub open_board? : Option String → AuthDatabase → Bool
open_board? none db = true
open_board? (some id) db = open_board (get_board_by_id id db)

abbrev pub usable : InvitationRecord → String → ℕ → Bool
usable i login at =
    not (is_some i.consumed_at)
    && not (is_some i.revoked_at)
    && not (leb i.expires_at at)
    && not (for_another_login (non_empty i.invited_login_normalized) login)

unfoldable pub assert_invitation_usable : InvitationRecord → String → ℕ → Statement Unit
assert_invitation_usable i login at = do
  ensure (usable i login at) (auth invalid_invitation 400)
  opened ← gets (open_board? i.board_id)
  ensure opened (auth invalid_invitation 400)

abbrev pub rank : BoardRole → ℕ
rank BoardRole.viewer = 1
rank BoardRole.editor = 2
rank BoardRole.owner = 3

-- `existing && rank[existing.role] >= rank[role]`
abbrev pub outranks : Option BoardMemberRecord → BoardRole → Bool
outranks none role = false
outranks (some m) role = leb (rank role) (rank m.role)

abbrev pub first_created : Option BoardMemberRecord → ℕ → ℕ
first_created none at = at
first_created (some m) at = m.created_at

unfoldable pub grant_membership : Option String → Option MemberRole → String → ℕ → Statement Unit
grant_membership none role user_id at = pure tt
grant_membership (some board_id) none user_id at = pure tt
grant_membership (some board_id) (some role) user_id at = do
  existing ← gets (get_board_member board_id user_id)
  if outranks existing (to_board_role role)
      then pure tt
      else upsert_board_member (record {
        board_id = board_id;
        user_id = user_id;
        role = to_board_role role;
        created_at = first_created existing at;
        updated_at = at;
      })

unfoldable pub apply_invited_membership : InvitationRecord → String → ℕ → Statement Unit
unfolding grant_membership
apply_invited_membership i user_id at = grant_membership i.board_id i.role user_id at

-- `event(type, actor, subject, board, metadata, at)`; its UUID is the argument `event_id`.
unfoldable pub record_event :
    String
    → String
    → Option String
    → Option String
    → Option String
    → List (String × MetaValue)
    → ℕ
    → Statement Unit
record_event event_id type actor subject board_id metadata at = insert_account_event (record {
  event_id = event_id;
  type = type;
  actor_user_id = actor;
  subject_user_id = subject;
  board_id = board_id;
  metadata = metadata;
  created_at = at;
})

-- What `registerInternal` and `consumeInvitation` both do with a usable invitation: mark the row, give
-- the membership, record the event.
unfoldable pub redeem_row : String → ℕ → String → InvitationRecord → Bool → Statement Unit
redeem_row event_id at user_id i consumed = do
  ensure consumed (auth invalid_invitation 400)
  apply_invited_membership i user_id at
  record_event event_id "invitation.consumed" (some user_id) (some user_id) i.board_id
      (("invitationId", text i.id) ∷ []) at

unfoldable pub redeem : String → ℕ → String → InvitationRecord → Statement Unit
redeem event_id at user_id i = do
  consumed ← consume_invitation_row i.id user_id at
  redeem_row event_id at user_id i consumed
