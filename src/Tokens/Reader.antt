-- ===== src/Tokens/Reader.antt =====
-- The reader of the token file (server/tokens.ts): the schemas, and the two ways to authenticate.
use Prim.Native.Char.{code}
use collaborative_ai_whitebo.Prelude.{
  ℕ, String, Bool, true, false, not, ◌&&◌, ◌||◌, Option, none, some, List, [], ◌++◌, if◌then◌else◌,
  leb, eqb, length, all, filter, find?, ◌==◌,
}
use collaborative_ai_whitebo.Accounts.Input.{codes, id_text, between}
use collaborative_ai_whitebo.Tokens.Types.{
  FileText, Value, text, texts, other, Client, Collection, listed, malformed, StoreData, Json,
  object, not_object, account_clients_of, includes, includes_capability,
}
use collaborative_ai_whitebo.Tokens.Platform.{
  parse_json, TokenPlatform, client_fingerprint, evaluate_expiry, creator_id, is_valid_client_name,
  is_valid_room_id,
}
use collaborative_ai_whitebo.Tokens.Records.{dead}

-- /^[a-f0-9]{64}$/
unfoldable pub hash_text : String → Bool
hash_text s =
    all (λ c. between b'a' b'f' c || between b'0' b'9' c) (codes s) && eqb (length (codes s)) 64

abbrev pub permission : String → Bool
permission s = s == "read" || s == "write" || s == "history" || s == "restore"

-- A list of texts that all pass, with a length in the range.
abbrev pub texts_of : (String → Bool) → ℕ → ℕ → Value → Bool
texts_of ok low high (texts items) = all ok items && between low high (length items)
texts_of ok low high (text s) = false
texts_of ok low high other = false

abbrev pub creator_field : Option Value → Bool
unfolding creator_id
creator_field (some (text s)) = creator_id s
creator_field (some (texts items)) = false
creator_field (some other) = false
creator_field none = false

abbrev pub is_list : Option Value → Bool
is_list (some (texts items)) = true
is_list (some (text s)) = false
is_list (some other) = false
is_list none = false

unfoldable pub client_schema : Client → Bool
unfolding hash_text is_valid_client_name is_valid_room_id
client_schema client =
    is_valid_client_name client.name
    && hash_text client.token_hash
    && texts_of is_valid_room_id 1 50 client.rooms
    && texts_of permission 1 4 client.permissions

unfoldable pub account_client_schema : Client → Bool
unfolding hash_text is_valid_client_name is_valid_room_id creator_id
account_client_schema client =
    is_valid_client_name client.name
    && hash_text client.token_hash
    && creator_field client.owner_user_id
    && is_list client.account_permissions
    && texts_of permission 1 4 client.permissions
    && texts_of is_valid_room_id 0 50 client.rooms

-- Both collections as the reader uses them.
pub record LoadedStore : Type 0 where
  pub clients : List Client
  pub account_clients : List Client

-- `tokenFileSchema`: one record that is not valid refuses the whole file.
unfoldable pub token_file_schema : StoreData → Bool
unfolding client_schema
token_file_schema store = elim store.clients [
  | listed clients ↦ all client_schema clients && leb (length clients) 100
  | malformed ↦ false
]

abbrev pub listed_clients : Collection → List Client
listed_clients (listed clients) = clients
listed_clients malformed = []

unfoldable pub usable_store : Option Json → Option LoadedStore
unfolding token_file_schema account_client_schema account_clients_of
usable_store none = none
usable_store (some not_object) = none
usable_store (some (object store)) =
    if token_file_schema store
    then some (record {
      clients = listed_clients store.clients;
      account_clients = filter account_client_schema (account_clients_of store);
    })
    else none

-- The rest of a text after a prefix.
abbrev pub after : String → String → Option String
after String.[] s = some s
after (String.◌∷◌ c cs) String.[] = none
after (String.◌∷◌ c cs) (String.◌∷◌ d s) =
    let rest = after cs s in if eqb (code c) (code d) then rest else none

abbrev pub long_enough : Option String → Option String
unfolding id_text
long_enough none = none
long_enough (some token) = if id_text 32 128 token then some token else none

-- /^Bearer ([A-Za-z0-9_-]{32,128})$/
unfoldable pub bearer_token : Option String → Option String
unfolding id_text
bearer_token none = none
bearer_token (some header) = long_enough (after "Bearer " header)

pub record BoardCreator : Type 0 where
  pub name : String
  pub owner_user_id : Option Value
  pub permissions : Value
  pub fingerprint : String
  pub room_count : ℕ

pub data BoardCreatorAuth : Type 0 where
  authenticated : BoardCreator → BoardCreatorAuth
  forbidden : BoardCreatorAuth
  unauthenticated : BoardCreatorAuth

abbrev pub count_items : Value → ℕ
count_items (texts items) = length items
count_items (text s) = 0
count_items other = 0

abbrev pub name_of : Option Client → Option String
name_of none = none
name_of (some client) = some client.name

-- `file` is what the token file holds, `none` when there is none or no path is set.
module _ (p : TokenPlatform) where
  abbrev pub parse_file : Option FileText → Option Json
  parse_file none = none
  parse_file (some source) = parse_json p source

  unfoldable pub load_store : Option FileText → Option LoadedStore
  unfolding usable_store
  load_store file = usable_store (parse_file file)

  -- The record that a bearer, a board and a permission are authorised by.
  unfoldable pub authorises : String → String → String → ℕ → Client → Bool
  unfolding evaluate_expiry
  authorises token room_id permission now client =
      (p.sha256 token == client.token_hash)
      && includes client.rooms room_id
      && includes client.permissions permission
      && not (dead (evaluate_expiry p client.expires_at now))

  unfoldable pub first_authorised :
      String → String → ℕ → Option String → Option LoadedStore → Option String
  unfolding authorises
  first_authorised room_id permission now none store = none
  first_authorised room_id permission now (some token) none = none
  first_authorised room_id permission now (some token) (some store) =
      name_of
        (find? (authorises token room_id permission now) (store.clients ++ store.account_clients))

  unfoldable pub authorize_api_token :
      Option FileText → Option String → String → String → ℕ → Option String
  unfolding bearer_token load_store first_authorised
  authorize_api_token file header room_id permission now =
      first_authorised room_id permission now (bearer_token header) (load_store file)

  unfoldable pub creator_of : ℕ → Option Client → BoardCreatorAuth
  unfolding evaluate_expiry client_fingerprint
  creator_of now none = unauthenticated
  creator_of now (some client) =
      if dead (evaluate_expiry p client.expires_at now)
      then unauthenticated
      else if not (includes_capability client.account_permissions)
      then forbidden
      else authenticated (record {
        name = client.name;
        owner_user_id = client.owner_user_id;
        permissions = client.permissions;
        fingerprint = client_fingerprint p client.token_hash;
        room_count = count_items client.rooms;
      })

  -- An ordinary client is never a creator.
  unfoldable pub ordinary_or : ℕ → Option Client → BoardCreatorAuth → BoardCreatorAuth
  unfolding evaluate_expiry
  ordinary_or now none next = next
  ordinary_or now (some client) next =
      if dead (evaluate_expiry p client.expires_at now) then unauthenticated else forbidden

  abbrev pub holder : String → Client → Bool
  holder token client = p.sha256 token == client.token_hash

  unfoldable pub first_creator : ℕ → Option String → Option LoadedStore → BoardCreatorAuth
  unfolding creator_of ordinary_or
  first_creator now none store = unauthenticated
  first_creator now (some token) none = unauthenticated
  first_creator now (some token) (some store) =
      ordinary_or now (find? (holder token) store.clients)
        (creator_of now (find? (holder token) store.account_clients))

  unfoldable pub authenticate_board_creator : Option FileText → Option String → ℕ → BoardCreatorAuth
  unfolding bearer_token load_store first_creator
  authenticate_board_creator file header now =
      first_creator now (bearer_token header) (load_store file)
