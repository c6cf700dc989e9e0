-- ===== src/Tokens/Types.antt =====
-- What the token file holds (server/token-store.mjs, server/tokens.ts).
use collaborative_ai_whitebo.Prelude.{
  String, Bool, true, false, Option, none, some, List, [], ◌∷◌, ◌++◌, Assoc, ◌==◌, has,
  if◌then◌else◌,
}
use collaborative_ai_whitebo.Accounts.Types.{AuthFailure}

-- The `code` of a `TokenStoreError`.
pub data TokenStoreCode : Type 0 where
  locked : TokenStoreCode
  invalid_store : TokenStoreCode
  invalid_name : TokenStoreCode
  invalid_rooms : TokenStoreCode
  invalid_access : TokenStoreCode
  invalid_expiry : TokenStoreCode
  invalid_display_name : TokenStoreCode
  invalid_creator : TokenStoreCode
  duplicate_name : TokenStoreCode
  store_full : TokenStoreCode
  not_found : TokenStoreCode
  stale_reference : TokenStoreCode
  no_capability : TokenStoreCode
  expired : TokenStoreCode
  room_limit : TokenStoreCode

-- What a call throws: an error of the store, `rollback-failed` with its board, a TypeError, an error
-- of the file system, or what a callback threw.
pub data TokenFailure : Type 0 where
  store_error : TokenStoreCode → TokenFailure
  rollback_failed : String → TokenFailure
  type_error : TokenFailure
  system_error : TokenFailure
  refused : AuthFailure → TokenFailure

-- A JSON value, as far as a field is looked at: a text, a list of texts, or a value that is neither a
-- text nor a list. A list with an entry that is not a text is left out of the model.
pub data Value : Type 0 where
  text : String → Value
  texts : List String → Value
  other : Value

-- One record of the file. A field that is absent is `none`; `metadata` are the fields that this
-- version does not know.
pub record Client : Type 0 where
  pub name : String
  pub token_hash : String
  pub rooms : Value
  pub permissions : Value
  pub created_at : Option Value
  pub expires_at : Option Value
  pub display_name : Option Value
  pub created_by_user_id : Option Value
  pub rotated_at : Option Value
  pub owner_user_id : Option Value
  pub account_permissions : Option Value
  pub metadata : Assoc String

-- A collection of the file: a list of records, or any other value.
pub data Collection : Type 0 where
  listed : List Client → Collection
  malformed : Collection

-- The object of the file. An absent `clients` is `malformed`.
pub record StoreData : Type 0 where
  pub clients : Collection
  pub account_clients : Option Collection
  pub metadata : Assoc String

-- What `JSON.parse` gives.
pub data Json : Type 0 where
  object : StoreData → Json
  not_object : Json

-- The text of a file: one that `serialise` made, kept as the object it was made of, since `JSON.parse`
-- gives that object back; or any other text.
pub data FileText : Type 0 where
  serialise : StoreData → FileText
  raw : String → FileText

abbrev pub clients_of : StoreData → List Client
clients_of store = elim store.clients [ listed clients ↦ clients | malformed ↦ [] ]

abbrev pub listed_or_empty : Option Collection → List Client
listed_or_empty (some (listed clients)) = clients
listed_or_empty (some malformed) = []
listed_or_empty none = []

unfoldable pub account_clients_of : StoreData → List Client
account_clients_of store = listed_or_empty store.account_clients

unfoldable pub all_clients : StoreData → List Client
unfolding account_clients_of
all_clients store = clients_of store ++ account_clients_of store

unfoldable pub empty_store : StoreData
empty_store = record { clients = listed []; account_clients = none; metadata = [] }

-- `Array.isArray(value) && value.includes(item)`
abbrev pub includes : Value → String → Bool
includes (texts items) item = has items item
includes (text s) item = false
includes other item = false

-- `data.accountClients !== undefined && !Array.isArray(data.accountClients)`
abbrev pub unusable : Option Collection → Bool
unusable (some malformed) = true
unusable (some (listed clients)) = false
unusable none = false

pub data Access : Type 0 where
  access_read : Access
  access_write : Access
  read_write : Access
  read_history : Access
  read_write_history : Access
  full : Access

unfoldable pub access_modes : Access → List String
access_modes access_read = "read" ∷ []
access_modes access_write = "write" ∷ []
access_modes read_write = "read" ∷ "write" ∷ []
access_modes read_history = "read" ∷ "history" ∷ []
access_modes read_write_history = "read" ∷ "write" ∷ "history" ∷ []
access_modes full = "read" ∷ "write" ∷ "history" ∷ "restore" ∷ []

-- `isAccessMode`, with the mode that the shorthand names.
unfoldable pub access_mode : String → Option Access
access_mode s =
    if s == "read"
    then some access_read
    else if s == "write"
    then some access_write
    else if s == "read-write"
    then some read_write
    else if s == "read-history"
    then some read_history
    else if s == "read-write-history"
    then some read_write_history
    else if s == "full"
    then some full
    else none

-- `Array.isArray(client.accountPermissions) && client.accountPermissions.includes('board:create')`
abbrev pub includes_capability : Option Value → Bool
includes_capability none = false
includes_capability (some v) = includes v "board:create"
