-- ===== src/Tokens/Records.antt =====
-- The changes of the parsed object that the mutations of server/token-store.mjs make.
use collaborative_ai_whitebo.Prelude.{
  ℕ, String, Bool, true, false, not, ◌&&◌, ◌||◌, Option, none, some, List, [], ◌∷◌, ◌++◌, ltb, eqb,
  length, filter, any, update_where, is_some, or_else, ◌==◌,
}
use collaborative_ai_whitebo.Exec.{ok, err, pure, lift, gets, modify, ensure, for_each, ◌>>=◌, ◌>>◌}
use collaborative_ai_whitebo.Tokens.Types.{
  store_error, type_error, invalid_store, duplicate_name, store_full, not_found, stale_reference,
  invalid_expiry, Value, text, texts, other, Client, Collection, listed, malformed, StoreData,
  clients_of, account_clients_of, all_clients, unusable,
}
use collaborative_ai_whitebo.Tokens.Platform.{
  TokenPlatform, Checked, ExpiryStatus, no_expiry, active, invalid, client_fingerprint,
  evaluate_expiry,
}
use collaborative_ai_whitebo.Tokens.Files.{Mutator}

abbrev pub named : String → Client → Bool
named name client = client.name == name

unfoldable pub push_client : Client → Mutator Unit
unfolding account_clients_of
push_client client =
    modify (λ store. record store { clients = listed (clients_of store ++ client ∷ []) })

unfoldable pub push_account_client : Client → Mutator Unit
unfolding account_clients_of
push_account_client client = modify (λ store. record store {
  account_clients = some (listed (account_clients_of store ++ client ∷ []));
})

-- The mutator of `createClient`.
unfoldable pub add_client : Client → Mutator Unit
unfolding all_clients push_client
add_client client = do
  store ← gets (λ s. s)
  ensure (not (any (named client.name) (all_clients store))) (store_error duplicate_name)
  ensure (ltb (length (clients_of store)) 100) (store_error store_full)
  push_client client

-- The mutator of `createAccountClient`.
unfoldable pub add_account_client : Client → Mutator Unit
unfolding all_clients account_clients_of push_account_client
add_account_client client = do
  store ← gets (λ s. s)
  ensure (not (unusable store.account_clients)) (store_error invalid_store)
  ensure (not (any (named client.name) (all_clients store))) (store_error duplicate_name)
  ensure (ltb (length (account_clients_of store)) 20) (store_error store_full)
  push_account_client client

-- The fingerprint that pins a credential, and the caller's check: it throws, or says whether it
-- returned nothing.
pub record LocateOptions : Type 0 where
  pub fingerprint : Option String
  pub authorise : Option (Client → Checked Bool)

-- `authorise(client)`, whose outcome must be `undefined`
abbrev pub run_authorise : Option (Client → Checked Bool) → Client → Mutator Unit
run_authorise none client = pure tt
run_authorise (some authorise) client = do
  nothing ← lift (authorise client)
  ensure nothing type_error

-- `[...value]`: a text is spread into its characters.
abbrev pub letters : String → List String
letters String.[] = []
letters (String.◌∷◌ c s) = String.◌∷◌ c String.[] ∷ letters s

abbrev pub spread : Value → Checked (List String)
spread (texts items) = ok items
spread (text s) = ok (letters s)
spread other = err type_error

-- `typeof value === 'string' ? value : undefined`
abbrev pub text_field : Option Value → Option String
text_field none = none
text_field (some (text s)) = some s
text_field (some (texts items)) = none
text_field (some other) = none

pub record Rotated : Type 0 where
  pub rooms : List String
  pub permissions : List String
  pub created_at : Option String
  pub expires_at : Option String

abbrev pub keep_listed : (List Client → List Client) → Collection → Collection
keep_listed f (listed clients) = listed (f clients)
keep_listed f malformed = malformed

abbrev pub edit_accounts : (List Client → List Client) → Option Collection → Option Collection
edit_accounts f none = none
edit_accounts f (some collection) = some (keep_listed f collection)

-- A change of the records of both collections.
abbrev pub edit_records : (List Client → List Client) → StoreData → StoreData
edit_records f store = record store {
  clients = keep_listed f store.clients;
  account_clients = edit_accounts f store.account_clients;
}

abbrev pub dead : ExpiryStatus → Bool
dead ExpiryStatus.expired = true
dead invalid = true
dead active = false
dead no_expiry = false

-- The only target.
abbrev pub single : List Client → Checked Client
single (client ∷ []) = ok client
single [] = err (store_error duplicate_name)
single (client ∷ next ∷ rest) = err (store_error duplicate_name)

-- What `rotateClient` returns of the record.
unfoldable pub rotated_fields : Option Value → Client → Mutator Rotated
rotated_fields expires_at client = do
  rooms ← lift (spread client.rooms)
  permissions ← lift (spread client.permissions)
  pure (record {
    rooms = rooms;
    permissions = permissions;
    created_at = text_field client.created_at;
    expires_at = text_field (or_else expires_at client.expires_at);
  })

module _ (p : TokenPlatform) where
  abbrev pub has_fingerprint : Option String → Client → Bool
  unfolding client_fingerprint
  has_fingerprint none client = true
  has_fingerprint (some fingerprint) client = client_fingerprint p client.token_hash == fingerprint

  -- A record is a target exactly when it passes this test.
  unfoldable pub is_target : String → Option String → Client → Bool
  unfolding client_fingerprint
  is_target name fingerprint client = named name client && has_fingerprint fingerprint client

  unfoldable pub locate_clients : String → LocateOptions → Mutator (List Client)
  unfolding all_clients is_target
  locate_clients name options = do
    store ← gets (λ s. s)
    let targets = filter (is_target name options.fingerprint) (all_clients store)
    ensure (any (named name) (all_clients store)) (store_error not_found)
    ensure (not (eqb (length targets) 0)) (store_error stale_reference)
    for_each targets (run_authorise options.authorise)
    pure targets

  -- `filter((client) => !targets.includes(client))`
  abbrev pub without : String → LocateOptions → List Client → List Client
  unfolding is_target
  without name options clients =
      filter (λ client. not (is_target name options.fingerprint client)) clients

  -- `data.accountClients` is only touched when a target lives there.
  unfoldable pub remove_accounts : String → LocateOptions → Bool → Mutator Unit
  unfolding account_clients_of is_target
  remove_accounts name options false = pure tt
  remove_accounts name options true = modify (λ store. record store {
    account_clients = some (listed (without name options (account_clients_of store)));
  })

  unfoldable pub remove_ordinary : String → LocateOptions → Mutator Unit
  unfolding is_target
  remove_ordinary name options =
      modify (λ store. record store { clients = listed (without name options (clients_of store)) })

  unfoldable pub remove_targets : String → LocateOptions → Mutator Unit
  unfolding account_clients_of is_target remove_accounts remove_ordinary
  remove_targets name options = do
    remove_ordinary name options
    accounts ← gets account_clients_of
    remove_accounts name options (any (is_target name options.fingerprint) accounts)

  -- The mutator of `revokeClient`.
  unfoldable pub remove_clients : String → LocateOptions → Mutator Unit
  unfolding locate_clients remove_targets
  remove_clients name options = do locate_clients name options; remove_targets name options

  unfoldable pub rotated_record : String → Option Value → ℕ → Client → Client
  rotated_record token_hash expires_at now client = record client {
    token_hash = token_hash;
    rotated_at = some (text (p.to_iso now));
    expires_at = or_else expires_at client.expires_at;
  }

  -- The mutator of `rotateClient`.
  unfoldable pub replace_token :
      String → LocateOptions → String → Option Value → ℕ → Mutator Rotated
  unfolding locate_clients evaluate_expiry is_target rotated_record rotated_fields
  replace_token name options token_hash expires_at now = do
    targets ← locate_clients name options
    client ← lift (single targets)
    ensure (is_some expires_at || not (dead (evaluate_expiry p client.expires_at now)))
        (store_error invalid_expiry)
    modify (
        edit_records (
          update_where (is_target name options.fingerprint)
            (rotated_record token_hash expires_at now)))
    rotated_fields expires_at client
