-- ===== src/Tokens/Clients.antt =====
-- The mutations of server/token-store.mjs: validation first, then the change under the lock.
use collaborative_ai_whitebo.Prelude.{
  ℕ, String, ◌&&◌, Option, none, some, List, [], ◌∷◌, leb, length, all, map,
}
use collaborative_ai_whitebo.Exec.{pure, lift, ensure, or_throw, ◌>>=◌, ◌>>◌}
use collaborative_ai_whitebo.Tokens.Types.{
  store_error, invalid_name, invalid_rooms, invalid_access, invalid_creator, Value, text, texts,
  other, Client, StoreData, all_clients, access_modes, access_mode,
}
use collaborative_ai_whitebo.Tokens.Platform.{
  TokenPlatform, ExpiryRequest, ExpiryStatus, client_fingerprint, evaluate_expiry, normalise_expiry,
  normalise_display_name, normalise_creator, is_valid_client_name, is_valid_room_id,
}
use collaborative_ai_whitebo.Tokens.Files.{Faults, FileAction, read_store, mutate_store}
use collaborative_ai_whitebo.Tokens.Records.{
  add_client, add_account_client, LocateOptions, remove_clients, Rotated, replace_token, text_field,
}

-- The request of `createClient`; `now` is the clock.
pub record CreateRequest : Type 0 where
  pub name : String
  pub rooms : List String
  pub access : String
  pub expires_at : Option ExpiryRequest
  pub display_name : Option Value
  pub created_by_user_id : Option Value
  pub now : ℕ

pub record CreatedClient : Type 0 where
  pub token : String
  pub name : String
  pub rooms : List String
  pub permissions : List String
  pub fingerprint : String
  pub created_at : String
  pub expires_at : Option Value

pub record CreateAccountRequest : Type 0 where
  pub name : String
  pub owner_user_id : Option Value
  pub access : String
  pub expires_at : Option ExpiryRequest
  pub display_name : Option Value
  pub created_by_user_id : Option Value
  pub now : ℕ

pub record CreatedAccountClient : Type 0 where
  pub token : String
  pub name : String
  pub owner_user_id : Value
  pub permissions : List String
  pub fingerprint : String
  pub created_at : String
  pub expires_at : Option Value

pub record RotateRequest : Type 0 where
  pub name : String
  pub expires_at : Option ExpiryRequest
  pub options : LocateOptions
  pub now : ℕ

pub record RotatedClient : Type 0 where
  pub token : String
  pub name : String
  pub fingerprint : String
  pub rotated_at : String
  pub fields : Rotated

-- What `summariseClients` and `describeClients` return of a record.
pub record ClientSummary : Type 0 where
  pub name : String
  pub rooms : Value
  pub permissions : Value

pub record ClientDescription : Type 0 where
  pub summary : ClientSummary
  pub created_at : Option String
  pub expires_at : Option String
  pub display_name : Option String
  pub created_by_user_id : Option String
  pub rotated_at : Option String
  pub account_permissions : Option (List String)
  pub owner_user_id : Option String
  pub fingerprint : String
  pub status : ExpiryStatus

abbrev pub list_field : Option Value → Option (List String)
list_field none = none
list_field (some (texts items)) = some items
list_field (some (text s)) = none
list_field (some other) = none

abbrev pub summarise : Client → ClientSummary
summarise client = record {
  name = client.name;
  rooms = client.rooms;
  permissions = client.permissions;
}

unfoldable pub summarise_clients : StoreData → List ClientSummary
unfolding all_clients
summarise_clients store = map summarise (all_clients store)

-- The operations on the files, with the faults and the process of a call.
module _ (p : TokenPlatform) (faults : Faults) (pid : String) where
  unfoldable pub create_client : String → CreateRequest → FileAction CreatedClient
  unfolding client_fingerprint normalise_expiry normalise_display_name normalise_creator
      is_valid_client_name is_valid_room_id mutate_store add_client access_modes access_mode
  create_client token request = do
    ensure (is_valid_client_name request.name) (store_error invalid_name)
    ensure
        (leb 1 (length request.rooms)
          && leb (length request.rooms) 50
          && all is_valid_room_id request.rooms)
        (store_error invalid_rooms)
    access ← or_throw (access_mode request.access) (store_error invalid_access)
    expires_at ← lift (normalise_expiry p request.expires_at request.now)
    display_name ← lift (normalise_display_name p request.display_name)
    creator ← lift (normalise_creator request.created_by_user_id)
    let token_hash = p.sha256 token
    let client : Client = record {
      name = request.name;
      token_hash = token_hash;
      rooms = texts request.rooms;
      permissions = texts (access_modes access);
      created_at = some (text (p.to_iso request.now));
      expires_at = expires_at;
      display_name = display_name;
      created_by_user_id = creator;
      rotated_at = none;
      owner_user_id = none;
      account_permissions = none;
      metadata = [];
    }
    mutate_store p faults pid (add_client client)
    pure (record {
      token = token;
      name = request.name;
      rooms = request.rooms;
      permissions = access_modes access;
      fingerprint = client_fingerprint p token_hash;
      created_at = p.to_iso request.now;
      expires_at = expires_at;
    })

  unfoldable pub create_account_client :
      String → CreateAccountRequest → FileAction CreatedAccountClient
  unfolding client_fingerprint normalise_expiry normalise_display_name normalise_creator
      is_valid_client_name mutate_store add_account_client access_modes access_mode
  create_account_client token request = do
    ensure (is_valid_client_name request.name) (store_error invalid_name)
    access ← or_throw (access_mode request.access) (store_error invalid_access)
    normalised ← lift (normalise_creator request.owner_user_id)
    owner ← or_throw normalised (store_error invalid_creator)
    expires_at ← lift (normalise_expiry p request.expires_at request.now)
    display_name ← lift (normalise_display_name p request.display_name)
    creator ← lift (normalise_creator request.created_by_user_id)
    let token_hash = p.sha256 token
    let client : Client = record {
      name = request.name;
      token_hash = token_hash;
      rooms = texts [];
      permissions = texts (access_modes access);
      created_at = some (text (p.to_iso request.now));
      expires_at = expires_at;
      display_name = display_name;
      created_by_user_id = creator;
      rotated_at = none;
      owner_user_id = some owner;
      account_permissions = some (texts ("board:create" ∷ []));
      metadata = [];
    }
    mutate_store p faults pid (add_account_client client)
    pure (record {
      token = token;
      name = request.name;
      owner_user_id = owner;
      permissions = access_modes access;
      fingerprint = client_fingerprint p token_hash;
      created_at = p.to_iso request.now;
      expires_at = expires_at;
    })

  unfoldable pub revoke_client : String → LocateOptions → FileAction Unit
  unfolding is_valid_client_name mutate_store remove_clients
  revoke_client name options = do
    ensure (is_valid_client_name name) (store_error invalid_name)
    mutate_store p faults pid (remove_clients p name options)

  unfoldable pub rotate_client : String → RotateRequest → FileAction RotatedClient
  unfolding client_fingerprint normalise_expiry is_valid_client_name mutate_store replace_token
  rotate_client token request = do
    ensure (is_valid_client_name request.name) (store_error invalid_name)
    expires_at ← lift (normalise_expiry p request.expires_at request.now)
    let token_hash = p.sha256 token
    rotated ←
        mutate_store p faults pid
          (replace_token p request.name request.options token_hash expires_at request.now)
    pure (record {
      token = token;
      name = request.name;
      fingerprint = client_fingerprint p token_hash;
      rotated_at = p.to_iso request.now;
      fields = rotated;
    })

  unfoldable pub list_clients : FileAction (List ClientSummary)
  unfolding read_store summarise_clients
  list_clients = do (store, source) ← read_store p faults.read; pure (summarise_clients store)

  unfoldable pub describe_clients : ℕ → FileAction (List ClientDescription)
  unfolding read_store all_clients client_fingerprint evaluate_expiry
  describe_clients now = do
    (store, source) ← read_store p faults.read
    pure (
        map
          (λ client. record {
            summary = summarise client;
            created_at = text_field client.created_at;
            expires_at = text_field client.expires_at;
            display_name = text_field client.display_name;
            created_by_user_id = text_field client.created_by_user_id;
            rotated_at = text_field client.rotated_at;
            account_permissions = list_field client.account_permissions;
            owner_user_id = text_field client.owner_user_id;
            fingerprint = client_fingerprint p client.token_hash;
            status = evaluate_expiry p client.expires_at now;
          })
          (all_clients store))
