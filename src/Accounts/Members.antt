-- ===== src/Accounts/Members.antt =====
-- Members and the audit trail of `AuthService` (server/auth.ts).
use collaborative_ai_whitebo.Prelude.{
  ℕ, String, Bool, true, false, not, ◌&&◌, ◌||◌, Option, none, some, List, [], ◌∷◌, if◌then◌else◌,
  ◌==◌, filter, ltb, eqb, text_leb, sort_by,
}
use collaborative_ai_whitebo.Exec.{pure, gets, ensure, transaction, ◌>>=◌, ◌>>◌}
use collaborative_ai_whitebo.Accounts.Types.{
  BoardRole, MemberRole, to_board_role, BoardMemberRecord, AccountEvent, member_role, auth,
  forbidden,
}
use collaborative_ai_whitebo.Accounts.Database.{
  AuthDatabase, Statement, get_board_member, upsert_board_member, remove_board_member,
}
use collaborative_ai_whitebo.Accounts.Ledger.{list_account_events}
use collaborative_ai_whitebo.Accounts.Guards.{
  non_empty, require_active_user, require_board_member, is_owner, first_created, record_event,
}

-- ORDER BY CASE role WHEN 'owner' THEN 0 WHEN 'editor' THEN 1 ELSE 2 END, created_at, user_id
abbrev pub role_order : BoardRole → ℕ
role_order BoardRole.owner = 0
role_order BoardRole.editor = 1
role_order BoardRole.viewer = 2

abbrev pub member_order : BoardMemberRecord → BoardMemberRecord → Bool
member_order a b =
    ltb (role_order a.role) (role_order b.role)
    || (eqb (role_order a.role) (role_order b.role)
        && (ltb a.created_at b.created_at
            || (eqb a.created_at b.created_at && text_leb a.user_id b.user_id)))

unfoldable pub member_rows : String → AuthDatabase → List BoardMemberRecord
member_rows board_id db = sort_by member_order (filter (λ m. m.board_id == board_id) db.members)

unfoldable pub list_board_members : String → String → Statement (List BoardMemberRecord)
unfolding member_rows
list_board_members user_id board_id = do
  require_board_member user_id board_id false
  gets (member_rows board_id)

-- The transaction of `setBoardMemberRole`; no role means removal.
unfoldable pub set_member_rows :
    String → ℕ → String → String → String → Option MemberRole → Statement (Option BoardMemberRecord)
set_member_rows event_id at actor_user_id board_id target_user_id none = do
  remove_board_member board_id target_user_id
  record_event event_id "board.member_removed" (some actor_user_id) (some target_user_id)
      (some board_id) [] at
  pure none
set_member_rows event_id at actor_user_id board_id target_user_id (some role) = do
  existing ← gets (get_board_member board_id target_user_id)
  let member : BoardMemberRecord = record {
    board_id = board_id;
    user_id = target_user_id;
    role = to_board_role role;
    created_at = first_created existing at;
    updated_at = at;
  }
  upsert_board_member member
  record_event event_id "board.member_role_changed" (some actor_user_id) (some target_user_id)
      (some board_id) (("role", member_role role) ∷ []) at
  pure (some member)

unfoldable pub set_board_member_role :
    (ℕ → String)
    → ℕ
    → String
    → String
    → String
    → Option MemberRole
    → Statement (Option BoardMemberRecord)
unfolding set_member_rows
set_board_member_role draw at actor_user_id board_id target_user_id role = do
  (board, membership) ← require_board_member actor_user_id board_id false
  ensure (is_owner membership.role) (auth forbidden 403)
  ensure (not (target_user_id == board.owner_user_id)) (auth forbidden 403)
  require_active_user target_user_id
  transaction (set_member_rows (draw 0) at actor_user_id board.id target_user_id role)

abbrev pub same_user : Option String → String → Bool
same_user none user_id = false
same_user (some id) user_id = id == user_id

unfoldable pub may_audit : String → Option String → Option String → Bool → Statement Unit
may_audit actor_user_id user_id none is_admin =
    ensure (is_admin || same_user user_id actor_user_id) (auth forbidden 403)
may_audit actor_user_id user_id (some board_id) is_admin = if is_admin then pure tt else do
  (board, membership) ← require_board_member actor_user_id board_id true
  ensure (is_owner membership.role) (auth forbidden 403)

unfoldable pub list_audit_events :
    String → Option String → Option String → Option ℕ → Statement (List AccountEvent)
unfolding may_audit
list_audit_events actor_user_id user_id board_id limit = do
  actor ← require_active_user actor_user_id
  may_audit actor_user_id user_id (non_empty board_id) actor.is_admin
  gets (list_account_events user_id board_id limit)
