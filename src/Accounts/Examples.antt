-- ===== src/Accounts/Examples.antt =====
-- Concrete accounts, a session and an invitation, on which the theorems about the accounts apply.
use Prim.Native.String.{count}
use collaborative_ai_whitebo.Prelude.{
  ℕ, ◌≤◌, arith, String, ◌≡◌, ◌≢◌, refl, Bool, true, false, none, some, [], ◌∷◌, ◌==◌,
}
use collaborative_ai_whitebo.Exec.{
  ok, pure, gets, lift, modify, ensure, or_throw, transaction, ◌>>=◌,
}
use collaborative_ai_whitebo.Exec.Atomic.{IsAtomic}
use collaborative_ai_whitebo.Accounts.Types.{
  UserRecord, SessionRecord, InvitationRecord, public_invitation, json_object,
}
use collaborative_ai_whitebo.Accounts.Database.{
  AuthDatabase, get_user_by_id, get_session_by_token_hash, set_user_disabled,
  revoke_sessions_for_user, revoke_session_by_token_hash, revoke_found,
}
use collaborative_ai_whitebo.Accounts.Ledger.{
  get_invitation_by_token_hash, consume_invitation_row, insert_account_event,
  count_board_assets_with_prefix, register_board_asset_if_under_cap,
}
use collaborative_ai_whitebo.Accounts.Input.{
  Platform, public_user, id_char, id_text, valid_opaque_token,
}
use collaborative_ai_whitebo.Accounts.Guards.{
  active, require_active_user, assert_invitation_usable, grant_membership, apply_invited_membership,
  record_event, redeem_row, redeem,
}
use collaborative_ai_whitebo.Accounts.Sessions.{
  get_current_session, logged_out, logout, disable_body, set_disabled,
}
use collaborative_ai_whitebo.Accounts.Invitations.{consume_rows, consume_invitation}
use collaborative_ai_whitebo.Accounts.Calls.{leave, here, next}
use collaborative_ai_whitebo.Accounts.Evolution.{Evolves}
use collaborative_ai_whitebo.Accounts.Calls.Atomic.{Call-IsAtomic}
use collaborative_ai_whitebo.Accounts.Calls.Evolution.{Reach-Evolves}
use collaborative_ai_whitebo.Accounts.AssetCap.{register_board_asset_if_under_cap_lem}
use collaborative_ai_whitebo.Accounts.SingleUse.{consumed_once}
use collaborative_ai_whitebo.Accounts.Revocation.{logged_out_for_good, disabled_for_good}

-- A platform on texts that are normal already, with the token as its own digest.
abbrev ascii : Platform
ascii = record {
  nfkc = λ s. s;
  trim = λ s. s;
  lower_case = λ s. s;
  units = count;
  login_shape = λ s. true;
  sha256 = λ s. s;
  scrypt_encode = λ password salt. password;
  scrypt_matches = λ password hash. password == hash;
  byte_length = count;
  json_parse = λ s. some (json_object s);
}

abbrev draws : ℕ → String
draws k = "event"

abbrev token : String
token = "0123456789abcdef0123456789abcdef0123456789abcdef0123456789abcdef"

abbrev account : String → Bool → UserRecord
account id is_admin = record {
  id = id;
  login = id;
  login_normalized = id;
  display_name = id;
  password_hash = "password";
  settings_json = "{}";
  is_admin = is_admin;
  created_at = 1;
  updated_at = 1;
  last_login_at = none;
  disabled_at = none;
}

abbrev session : SessionRecord
session = record {
  id = "session";
  token_hash = token;
  user_id = "guest";
  created_at = 1;
  expires_at = 100;
  last_seen_at = 1;
  revoked_at = none;
}

abbrev invitation : InvitationRecord
invitation = record {
  id = "invitation";
  token_hash = token;
  created_by_user_id = "admin";
  board_id = none;
  role = none;
  invited_login_normalized = none;
  created_at = 1;
  expires_at = 100;
  consumed_at = none;
  consumed_by_user_id = none;
  revoked_at = none;
}

abbrev database : AuthDatabase
database = record {
  users = account "admin" true ∷ account "guest" false ∷ [];
  sessions = session ∷ [];
  boards = [];
  members = [];
  invitations = invitation ∷ [];
  events = [];
  assets = [];
}

consumes :
    (consume_invitation ascii draws 5 "guest" token database).0
    ≡ ok (public_invitation (record invitation { consumed_at = some 5 }))
unfolding consume_invitation require_active_user active get_user_by_id valid_opaque_token id_text
    id_char transaction get_invitation_by_token_hash consume_rows assert_invitation_usable redeem
    consume_invitation_row redeem_row apply_invited_membership grant_membership record_event
    insert_account_event gets lift modify pure ensure or_throw ◌>>=◌
consumes = refl

leaves : (logout ascii draws token 5 database).0 ≡ ok true
unfolding logout valid_opaque_token id_text id_char transaction revoke_session_by_token_hash
    revoke_found get_session_by_token_hash logged_out record_event insert_account_event gets modify
    pure ensure ◌>>=◌
leaves = refl

disables :
    (set_disabled ascii draws 5 "admin" "guest" true database).0
    ≡ ok (
        public_user ascii (record (account "guest" false) { disabled_at = some 5; updated_at = 5 }))
unfolding set_disabled require_active_user active get_user_by_id transaction disable_body
    set_user_disabled revoke_sessions_for_user record_event insert_account_event gets modify pure
    ensure or_throw ◌>>=◌
disables = refl

has_session : get_session_by_token_hash token database ≡ some session
unfolding get_session_by_token_hash
has_session = refl

Call-IsAtomic_example : IsAtomic (logout ascii draws token 5)
Call-IsAtomic_example = Call-IsAtomic ascii (leave draws token 5)

Reach-Evolves_example : Evolves database (logout ascii draws token 5 database).1
Reach-Evolves_example =
    Reach-Evolves ascii {s = database} {t = (logout ascii draws token 5 database).1}
      (next here (leave draws token 5))

consumed_once_example :
    (consume_invitation ascii draws 7 "admin" token
      (consume_invitation ascii draws 5 "guest" token database).1).0
    ≢ ok (public_invitation invitation)
consumed_once_example =
    consumed_once ascii draws 5 "guest" token database
      (consume_invitation ascii draws 5 "guest" token database).1 consumes here draws 7 "admin"
      (public_invitation invitation)

logged_out_for_good_example :
    (get_current_session ascii token 9 (logout ascii draws token 5 database).1).0 ≡ ok none
logged_out_for_good_example =
    logged_out_for_good ascii draws token 5 database (logout ascii draws token 5 database).1 leaves
      here 9

register_board_asset_if_under_cap_example :
    count_board_assets_with_prefix "demo" "table-"
      (register_board_asset_if_under_cap "demo" "table-1" "table-" 2 database).1
    ≤ 2
unfolding count_board_assets_with_prefix
register_board_asset_if_under_cap_example =
    register_board_asset_if_under_cap_lem "demo" "table-1" "table-" 2 database (omega arith)

disabled_for_good_example :
    (get_current_session ascii token 9
      (set_disabled ascii draws 5 "admin" "guest" true database).1).0
    ≡ ok none
disabled_for_good_example =
    disabled_for_good ascii draws 5 "admin" "guest" token database
      (set_disabled ascii draws 5 "admin" "guest" true database).1 session has_session refl disables
      here 9
