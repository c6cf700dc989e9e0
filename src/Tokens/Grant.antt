-- ===== src/Tokens/Grant.antt =====
-- `grantNewBoard` of server/token-store.mjs: the board is created first, then granted, and removed
-- again when the grant cannot be kept.
use collaborative_ai_whitebo.Prelude.{
  ℕ, String, Bool, false, not, ◌&&◌, Option, none, some, List, [], ◌∷◌, ◌++◌, if◌then◌else◌, ltb,
  eqb, length, any, filter, update_where, ◌==◌, has,
}
use collaborative_ai_whitebo.Exec.{
  Result, ok, err, pure, throw, lift, ensure, or_throw, handle, finally, ◌>>=◌, ◌>>◌,
}
use collaborative_ai_whitebo.Accounts.Types.{AuthFailure}
use collaborative_ai_whitebo.Accounts.Database.{Statement}
use collaborative_ai_whitebo.Tokens.Types.{
  FileText, TokenFailure, store_error, rollback_failed, type_error, refused, invalid_store,
  invalid_name, duplicate_name, not_found, stale_reference, no_capability, expired, room_limit,
  Value, text, texts, other, Client, StoreData, account_clients_of, all_clients, unusable, includes,
  includes_capability,
}
use collaborative_ai_whitebo.Tokens.Platform.{
  TokenPlatform, Checked, evaluate_expiry, is_valid_client_name, is_valid_room_id,
}
use collaborative_ai_whitebo.Tokens.Files.{
  Faults, FileAction, read_store, back_up_store, write_store_atomically, persist,
  acquire_mutation_lock, release,
}
use collaborative_ai_whitebo.Tokens.Records.{named, edit_accounts, dead, is_target, single}

-- A call of the account service, whose errors are passed on.
abbrev pub passed_on : {A : Type 0} → Result AuthFailure A → Checked A
passed_on (ok a) = ok a
passed_on (err e) = err (refused e)

unfoldable pub on_accounts : {A : Type 0} → Statement A → FileAction A
on_accounts m s =
    let (r, accounts) = m s.accounts in (passed_on r, record s { accounts = accounts })

abbrev pub room_list : Value → Option (List String)
room_list (texts items) = some items
room_list (text s) = none
room_list other = none

-- `client.rooms.push(boardId)`
abbrev pub push_room : String → Value → Value
push_room board_id (texts items) = texts (items ++ board_id ∷ [])
push_room board_id (text s) = text s
push_room board_id other = other

abbrev pub with_room : String → Client → Client
with_room board_id client = record client { rooms = push_room board_id client.rooms }

pub record GrantRequest : Type 0 where
  pub name : String
  pub fingerprint : String
  pub prepare : Client → Statement String
  pub rollback : String → Statement Unit
  pub now : ℕ

pub record Granted : Type 0 where
  pub board_id : String
  pub rooms : List String

module _ (p : TokenPlatform) where
  -- The credential that the request pins, which may create boards, with its rooms.
  unfoldable pub pinned_client : GrantRequest → StoreData → FileAction (Client × List String)
  unfolding account_clients_of all_clients is_target evaluate_expiry
  pinned_client request store = do
    ensure (not (unusable store.account_clients)) (store_error invalid_store)
    let same_name = filter (named request.name) (all_clients store)
    ensure (not (eqb (length same_name) 0)) (store_error not_found)
    let targets =
        filter (is_target p request.name (some request.fingerprint)) (account_clients_of store)
    ensure (not (eqb (length targets) 0)) (store_error stale_reference)
    ensure (eqb (length same_name) 1 && eqb (length targets) 1) (store_error duplicate_name)
    client ← lift (single targets)
    ensure (includes_capability client.account_permissions) (store_error no_capability)
    ensure (not (dead (evaluate_expiry p client.expires_at request.now))) (store_error expired)
    rooms ← or_throw (room_list client.rooms) (store_error invalid_store)
    ensure (ltb (length rooms) 50) (store_error room_limit)
    pure (client, rooms)

  -- What `prepare` returns must be a new board.
  unfoldable pub require_new_board : GrantRequest → List String → String → FileAction Unit
  unfolding on_accounts is_valid_room_id
  require_new_board request rooms board_id =
      if is_valid_room_id board_id && not (has rooms board_id)
      then pure tt
      else (on_accounts (request.rollback board_id) >> throw type_error)

  unfoldable pub granted_store : GrantRequest → String → StoreData → StoreData
  unfolding is_target
  granted_store request board_id store = record store {
    account_clients =
        edit_accounts
          (update_where (is_target p request.name (some request.fingerprint)) (with_room board_id))
          store.account_clients;
  }

  abbrev pub holds_grant : GrantRequest → String → StoreData × FileText → Bool
  unfolding account_clients_of is_target
  holds_grant request board_id (store, source) =
      any
        (λ client.
          is_target p request.name (some request.fingerprint) client
          && includes client.rooms board_id)
        (account_clients_of store)

  abbrev pub reread : Bool → GrantRequest → String → FileAction Bool
  unfolding read_store account_clients_of is_target
  reread fails request board_id = do
    file ← read_store p fails
    pure (holds_grant request board_id file)

  unfoldable pub grant_is_persisted : Faults → GrantRequest → String → FileAction Bool
  unfolding read_store account_clients_of is_target
  grant_is_persisted faults request board_id =
      handle (reread faults.read_again request board_id) (λ e. pure false)

  abbrev pub roll_back : GrantRequest → String → TokenFailure → FileAction Unit
  unfolding on_accounts
  roll_back request board_id e = do
    handle (on_accounts (request.rollback board_id)) (λ d. throw (rollback_failed board_id))
    throw e

  -- The `catch` of the write.
  unfoldable pub compensate : Faults → GrantRequest → String → TokenFailure → FileAction Unit
  unfolding grant_is_persisted on_accounts
  compensate faults request board_id e = do
    persisted ← grant_is_persisted faults request board_id
    if persisted then pure tt else roll_back request board_id e

  -- What follows `prepare`.
  unfoldable pub write_grant :
      Faults → GrantRequest → FileText → StoreData → List String → String → FileAction Granted
  unfolding granted_store back_up_store write_store_atomically compensate
  write_grant faults request source store rooms board_id = do
    handle (persist p faults source (granted_store request board_id store))
        (compensate faults request board_id)
    pure (record { board_id = board_id; rooms = rooms ++ board_id ∷ [] })

  unfoldable pub grant_locked : Faults → GrantRequest → FileAction Granted
  unfolding read_store pinned_client on_accounts require_new_board granted_store back_up_store
      write_store_atomically compensate write_grant
  grant_locked faults request = do
    (store, source) ← read_store p faults.read
    (client, rooms) ← pinned_client request store
    board_id ← on_accounts (request.prepare client)
    require_new_board request rooms board_id
    write_grant faults request source store rooms board_id

  unfoldable pub grant_new_board : Faults → String → GrantRequest → FileAction Granted
  unfolding is_valid_client_name acquire_mutation_lock release read_store pinned_client on_accounts
      require_new_board granted_store back_up_store write_store_atomically compensate write_grant
      grant_locked
  grant_new_board faults pid request = do
    ensure (is_valid_client_name request.name) (store_error invalid_name)
    ensure (not (request.fingerprint == "")) type_error
    acquire_mutation_lock faults pid
    finally (grant_locked faults request) (release faults)
