-- ===== src/Accounts/Sessions.antt =====
-- Accounts and sessions of `AuthService` (server/auth.ts). `now` is the reading of the service's
-- clock, `draw` the UUIDs of the call, one for each place that draws one, `token` the text of the
-- random bytes. `login` waits for scrypt between its read of the user and its transaction, so it is
-- two functions, and other operations may run between them.
use Prim.Native.Nat.{◌+◌}
use collaborative_ai_whitebo.Prelude.{
  ℕ, String, Bool, true, false, not, ◌&&◌, ◌||◌, Option, none, some, [], ◌∷◌, leb, ltb, eqb,
  if◌then◌else◌, is_some, get_or, ◌==◌,
}
use collaborative_ai_whitebo.Exec.{
  pure, throw, lift, gets, ensure, transaction, rethrow, or_throw, ◌>>=◌, ◌>>◌,
}
use collaborative_ai_whitebo.Accounts.Types.{
  UserRecord, SessionRecord, InvitationRecord, AuthUser, CurrentSession, SessionGrant,
  public_session, text, AuthFailure, auth, bootstrap_complete, login_taken, invalid_invitation,
  invitation_required, invalid_credentials, forbidden, user_not_found, login_unique, sqlite,
}
use collaborative_ai_whitebo.Accounts.Database.{
  AuthDatabase, Statement, count_users, get_user_by_id, get_user_by_normalized_login, insert_user,
  set_last_login, set_user_settings, set_user_disabled, insert_session, get_session_by_token_hash,
  touch_session, revoke_session_by_token_hash, revoke_sessions_for_user,
}
use collaborative_ai_whitebo.Accounts.Ledger.{get_invitation_by_token_hash}
use collaborative_ai_whitebo.Accounts.Input.{
  Platform, public_user, clean_login, normalize_login, clean_name, serialize_object,
  validate_password, valid_opaque_token,
}
use collaborative_ai_whitebo.Accounts.Guards.{
  non_empty, require_active_user, assert_invitation_usable, redeem, record_event,
}

-- `AuthServiceOptions` with the defaults put in.
pub record Options : Type 0 where
  pub allow_open_registration : Bool
  pub session_ttl : ℕ
  pub invitation_ttl : ℕ

pub record RegisterInput : Type 0 where
  pub login : String
  pub display_name : String
  pub password : String
  pub invitation_token : Option String
  pub settings_json : String

-- The random values of a call.
pub record Entropy : Type 0 where
  pub draw : ℕ → String
  pub token : String
  pub salt : String

abbrev pub board_of : Option InvitationRecord → Option String
board_of none = none
board_of (some i) = i.board_id

module _ (p : Platform) where
  abbrev pub new_session : Entropy → String → String → ℕ → ℕ → SessionRecord
  new_session e id user_id ttl now = record {
    id = id;
    token_hash = p.sha256 e.token;
    user_id = user_id;
    created_at = now;
    expires_at = now + ttl;
    last_seen_at = now;
    revoked_at = none;
  }

  -- `input.invitationToken && validOpaqueToken(…) ? hashOpaqueToken(…) : null`, then the row.
  abbrev pub invitation_for : Option String → AuthDatabase → Option InvitationRecord
  invitation_for none db = none
  invitation_for (some token) db =
      if valid_opaque_token token then get_invitation_by_token_hash (p.sha256 token) db else none

  abbrev pub check_usable : Option InvitationRecord → String → ℕ → Statement Unit
  check_usable none login at = pure tt
  check_usable (some i) login at = assert_invitation_usable i login at

  unfoldable pub use_invitation : Option InvitationRecord → String → String → ℕ → Statement Unit
  use_invitation none user_id event_id at = pure tt
  use_invitation (some i) user_id event_id at = redeem event_id at user_id i

  -- The transaction of `registerInternal`, for a user row whose `is_admin` is still to be set.
  unfoldable pub register_row :
      Entropy
      → Options
      → ℕ
      → Option String
      → Bool
      → UserRecord
      → SessionRecord
      → Statement SessionGrant
  unfolding use_invitation
  register_row e o now invitation_token bootstrap_only candidate session = do
    user_count ← gets count_users
    ensure (not (bootstrap_only && not (eqb user_count 0))) (auth bootstrap_complete 409)
    taken ← gets (get_user_by_normalized_login candidate.login_normalized)
    ensure (not (is_some taken)) (auth login_taken 409)
    invitation ← gets (invitation_for (non_empty invitation_token))
    ensure (not (is_some (non_empty invitation_token) && not (is_some invitation)))
        (auth invalid_invitation 400)
    ensure (not (ltb 0 user_count && not o.allow_open_registration && not (is_some invitation)))
        (auth invitation_required 403)
    check_usable invitation candidate.login_normalized now
    let user = record candidate { is_admin = eqb user_count 0 }
    insert_user user
    use_invitation invitation user.id (e.draw 2) now
    insert_session session
    record_event (e.draw 3) (if user.is_admin then "account.bootstrapped" else "account.registered")
        (some user.id) (some user.id) (board_of invitation) [] now
    pure (record { user = public_user p user; session = public_session session; token = e.token })

  abbrev pub name_login_error : AuthFailure → AuthFailure
  name_login_error (sqlite login_unique) = auth login_taken 409
  name_login_error e = e

  unfoldable pub register_internal :
      Entropy → Options → ℕ → RegisterInput → Bool → Statement SessionGrant
  unfolding register_row
  register_internal e o now input bootstrap_only = do
    login ← lift (clean_login p input.login)
    normalized ← lift (normalize_login p login)
    display_name ← lift (clean_name p 100 input.display_name)
    settings_json ← lift (serialize_object p input.settings_json)
    lift (validate_password p input.password)
    rethrow name_login_error (
        transaction (
          register_row e o now input.invitation_token bootstrap_only
            (record {
              id = e.draw 0;
              login = login;
              login_normalized = normalized;
              display_name = display_name;
              password_hash = p.scrypt_encode input.password e.salt;
              settings_json = settings_json;
              is_admin = false;
              created_at = now;
              updated_at = now;
              last_login_at = some now;
              disabled_at = none;
            })
            (new_session e (e.draw 1) (e.draw 0) o.session_ttl now)))

  abbrev pub password_matches : Option UserRecord → String → Bool
  password_matches none password = false
  password_matches (some user) password = p.scrypt_matches password user.password_hash

  unfoldable pub admitted : Option UserRecord → String → Statement UserRecord
  admitted none password = throw (auth invalid_credentials 401)
  admitted (some user) password =
      if not (p.scrypt_matches password user.password_hash) || is_some user.disabled_at
      then throw (auth invalid_credentials 401)
      else pure user

  -- `login` up to the password check, on the user that was read before it.
  unfoldable pub login_check : String → String → Statement UserRecord
  unfolding admitted
  login_check login password = do
    normalized ← lift (normalize_login p login)
    user ← gets (get_user_by_normalized_login normalized)
    admitted user password

  -- The rest of `login`, for the user that the check let in.
  unfoldable pub login_commit : Entropy → Options → ℕ → UserRecord → Statement SessionGrant
  login_commit e o now user = do
    let session = new_session e (e.draw 0) user.id o.session_ttl now
    transaction (do
      set_last_login user.id now
      insert_session session
      record_event (e.draw 1) "session.created" (some user.id) (some user.id) none [] now)
    refreshed ← gets (get_user_by_id user.id)
    pure (record {
      user = public_user p (get_or refreshed user);
      session = public_session session;
      token = e.token;
    })

  unfoldable pub open_session :
      SessionRecord → ℕ → Option UserRecord → Statement (Option CurrentSession)
  open_session session at none = pure none
  open_session session at (some user) = if is_some user.disabled_at then pure none else do
    touch_session session.id at
    pure (
        some (record {
          user = public_user p user;
          session = public_session (record session { last_seen_at = at });
        }))

  unfoldable pub check_session :
      String → ℕ → Option SessionRecord → Statement (Option CurrentSession)
  unfolding open_session
  check_session hash at none = pure none
  check_session hash at (some session) =
      if is_some session.revoked_at
      then pure none
      else if leb session.expires_at at
      then (do revoke_session_by_token_hash hash at; pure none)
      else (do user ← gets (get_user_by_id session.user_id); open_session session at user)

  unfoldable pub get_current_session : String → ℕ → Statement (Option CurrentSession)
  unfolding check_session
  get_current_session token at = if not (valid_opaque_token token) then pure none else do
    session ← gets (get_session_by_token_hash (p.sha256 token))
    check_session (p.sha256 token) at session

  unfoldable pub logged_out : String → ℕ → Option SessionRecord → Statement Bool
  logged_out event_id at none = pure false
  logged_out event_id at (some revoked) = do
    record_event event_id "session.revoked" (some revoked.user_id) (some revoked.user_id) none
        (("sessionId", text revoked.id) ∷ []) at
    pure true

  unfoldable pub logout : (ℕ → String) → String → ℕ → Statement Bool
  unfolding logged_out
  logout draw token at =
      if not (valid_opaque_token token)
      then pure false
      else transaction (do
        revoked ← revoke_session_by_token_hash (p.sha256 token) at
        logged_out (draw 0) at revoked)

  unfoldable pub update_settings : (ℕ → String) → ℕ → String → String → Statement AuthUser
  update_settings draw at user_id settings = do
    user ← require_active_user user_id
    settings_json ← lift (serialize_object p settings)
    transaction (do
      set_user_settings user_id settings_json at
      record_event (draw 0) "account.settings_updated" (some user_id) (some user_id) none [] at)
    pure (public_user p (record user { settings_json = settings_json; updated_at = at }))

-- The transaction of `setUserDisabled`.
unfoldable pub disable_body : (ℕ → String) → ℕ → String → String → Bool → Statement Unit
disable_body draw at actor_user_id target_user_id disabled = do
  set_user_disabled target_user_id (if disabled then some at else none) at
  if disabled then revoke_sessions_for_user target_user_id at else pure tt
  record_event (draw 0) (if disabled then "account.disabled" else "account.enabled")
      (some actor_user_id) (some target_user_id) none [] at

unfoldable pub set_disabled :
    Platform → (ℕ → String) → ℕ → String → String → Bool → Statement AuthUser
unfolding disable_body
set_disabled p draw at actor_user_id target_user_id disabled = do
  actor ← require_active_user actor_user_id
  ensure actor.is_admin (auth forbidden 403)
  ensure (not (actor_user_id == target_user_id && disabled)) (auth forbidden 403)
  found ← gets (get_user_by_id target_user_id)
  target ← or_throw found (auth user_not_found 404)
  transaction (disable_body draw at actor_user_id target_user_id disabled)
  pure (
      public_user p
        (record target { disabled_at = if disabled then some at else none; updated_at = at }))
