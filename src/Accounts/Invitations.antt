-- ===== src/Accounts/Invitations.antt =====
-- Invitations of `AuthService` (server/auth.ts). A token is known only as its SHA-256 hash.
use Prim.Native.Nat.{◌+◌}
use collaborative_ai_whitebo.Prelude.{
  ℕ, String, Bool, false, not, ◌||◌, Option, none, some, [], ◌∷◌, if◌then◌else◌, is_some, get_or,
  ◌==◌,
}
use collaborative_ai_whitebo.Exec.{pure, lift, gets, or_throw, ensure, transaction, ◌>>=◌, ◌>>◌}
use collaborative_ai_whitebo.Accounts.Types.{
  BoardRole, MemberRole, InvitationRecord, InvitationSummary, public_invitation, MetaValue, null,
  text, time, member_role, auth, forbidden, invalid_input, invalid_invitation,
}
use collaborative_ai_whitebo.Accounts.Database.{Statement}
use collaborative_ai_whitebo.Accounts.Ledger.{
  insert_invitation, get_invitation_by_token_hash, revoke_invitation_row,
}
use collaborative_ai_whitebo.Accounts.Input.{
  Platform, normalize_login, validate_board_id, valid_opaque_token, checked_ttl,
}
use collaborative_ai_whitebo.Accounts.Guards.{
  non_empty, require_active_user, require_board_member, is_owner, assert_invitation_usable, redeem,
  record_event,
}
use collaborative_ai_whitebo.Accounts.Sessions.{Options, Entropy}

-- `CreateInvitationInput`; the role is any board role, and the code refuses `owner`.
pub record InvitationInput : Type 0 where
  pub board_id : Option String
  pub role : Option BoardRole
  pub invited_login : Option String
  pub expires_in : Option ℕ

-- Five minutes and thirty days, in milliseconds.
abbrev pub min_invitation_ttl : ℕ
min_invitation_ttl = 300000

abbrev pub max_invitation_ttl : ℕ
max_invitation_ttl = 2592000000

abbrev pub is_owner? : Option BoardRole → Bool
is_owner? none = false
is_owner? (some r) = is_owner r

-- `boardId ? (input.role ?? 'viewer') : null`, where the role is not `owner`.
abbrev pub narrow : BoardRole → MemberRole
narrow BoardRole.owner = MemberRole.viewer
narrow BoardRole.editor = MemberRole.editor
narrow BoardRole.viewer = MemberRole.viewer

abbrev pub granted_role : Option String → Option BoardRole → Option MemberRole
granted_role none role = none
granted_role (some board_id) none = some MemberRole.viewer
granted_role (some board_id) (some role) = some (narrow role)

unfoldable pub checked_board : Option String → Statement (Option String)
checked_board none = pure none
checked_board (some board_id) = do id ← lift (validate_board_id board_id); pure (some id)

unfoldable pub may_invite : String → Bool → Option String → Statement Unit
may_invite actor_user_id is_admin none = ensure is_admin (auth forbidden 403)
may_invite actor_user_id is_admin (some board_id) = do
  (board, membership) ← require_board_member actor_user_id board_id false
  ensure (is_owner membership.role) (auth forbidden 403)

abbrev pub role_value : Option MemberRole → MetaValue
role_value none = null
role_value (some r) = member_role r

abbrev pub text_value : Option String → MetaValue
text_value none = null
text_value (some s) = text s

module _ (p : Platform) where
  unfoldable pub normalized_invitee : Option String → Statement (Option String)
  normalized_invitee none = pure none
  normalized_invitee (some login) = do
    normalized ← lift (normalize_login p login)
    pure (some normalized)

  -- The transaction of `createInvitation`.
  unfoldable pub invitation_rows : String → InvitationRecord → Statement Unit
  invitation_rows event_id i = transaction (do
    insert_invitation i
    record_event event_id "invitation.created" (some i.created_by_user_id) none i.board_id
        (("invitationId", text i.id)
          ∷ ("role", role_value i.role)
          ∷ ("invitedLogin", text_value i.invited_login_normalized)
          ∷ ("expiresAt", time i.expires_at)
          ∷ [])
        i.created_at)

  unfoldable pub create_invitation :
      Entropy → Options → ℕ → String → InvitationInput → Statement (InvitationSummary × String)
  unfolding checked_board may_invite normalized_invitee invitation_rows
  create_invitation e o now actor_user_id input = do
    actor ← require_active_user actor_user_id
    board_id ← checked_board input.board_id
    ensure (not (is_owner? input.role)) (auth invalid_input 400)
    ensure (is_some board_id || not (is_some input.role)) (auth invalid_input 400)
    may_invite actor_user_id actor.is_admin board_id
    invited_login ← normalized_invitee (non_empty input.invited_login)
    ttl ← lift (
        checked_ttl (get_or input.expires_in o.invitation_ttl) min_invitation_ttl
          max_invitation_ttl)
    let invitation : InvitationRecord = record {
      id = e.draw 0;
      token_hash = p.sha256 e.token;
      created_by_user_id = actor_user_id;
      board_id = board_id;
      role = granted_role board_id input.role;
      invited_login_normalized = invited_login;
      created_at = now;
      expires_at = now + ttl;
      consumed_at = none;
      consumed_by_user_id = none;
      revoked_at = none;
    }
    invitation_rows (e.draw 1) invitation
    pure (public_invitation invitation, e.token)

  -- The transaction of `consumeInvitation`, once the row has been looked up.
  unfoldable pub consume_rows :
      String → ℕ → String → String → InvitationRecord → Statement InvitationSummary
  consume_rows event_id at user_id login i = do
    assert_invitation_usable i login at
    redeem event_id at user_id i
    pure (public_invitation (record i { consumed_at = some at }))

  unfoldable pub consume_invitation :
      (ℕ → String) → ℕ → String → String → Statement InvitationSummary
  unfolding consume_rows
  consume_invitation draw at user_id token = do
    user ← require_active_user user_id
    ensure (valid_opaque_token token) (auth invalid_invitation 400)
    transaction (do
      found ← gets (get_invitation_by_token_hash (p.sha256 token))
      invitation ← or_throw found (auth invalid_invitation 400)
      consume_rows (draw 0) at user.id user.login_normalized invitation)

  unfoldable pub revoke_rows : String → ℕ → String → Bool → Option InvitationRecord → Statement Bool
  revoke_rows event_id at actor_user_id is_admin none = pure false
  revoke_rows event_id at actor_user_id is_admin (some i) =
      if is_some i.consumed_at || is_some i.revoked_at then pure false else do
        ensure (i.created_by_user_id == actor_user_id || is_admin) (auth forbidden 403)
        revoked ← revoke_invitation_row i.id at
        if revoked
            then record_event event_id "invitation.revoked" (some actor_user_id) none i.board_id
                (("invitationId", text i.id) ∷ []) at
            else pure tt
        pure revoked

  unfoldable pub revoke_invitation : (ℕ → String) → ℕ → String → String → Statement Bool
  unfolding revoke_rows
  revoke_invitation draw at actor_user_id token = do
    actor ← require_active_user actor_user_id
    if not (valid_opaque_token token)
        then pure false
        else transaction (do
          found ← gets (get_invitation_by_token_hash (p.sha256 token))
          revoke_rows (draw 0) at actor_user_id actor.is_admin found)
