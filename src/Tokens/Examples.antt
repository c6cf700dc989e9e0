-- ===== src/Tokens/Examples.antt =====
-- A concrete token file, on which the theorems about the token store apply.
use Prim.Native.String.{count}
use collaborative_ai_whitebo.Prelude.{
  String, ◌≡◌, ◌≢◌, refl, true, false, inl, inr, none, some, [], ◌∷◌, if◌then◌else◌, Bool-cases,
  ◌==◌, arith, any, sym,
}
use mathlib.Core.Path.{subst}
use collaborative_ai_whitebo.Exec.{
  ok, pure, lift, gets, modify, ensure, or_throw, handle, finally, for_each, ◌>>=◌,
}
use collaborative_ai_whitebo.Accounts.Database.{empty}
use collaborative_ai_whitebo.Tokens.Types.{
  StoreData, serialise, empty_store, Client, texts, text, listed, clients_of, all_clients,
}
use collaborative_ai_whitebo.Tokens.Platform.{TokenPlatform, evaluate_expiry}
use collaborative_ai_whitebo.Tokens.Files.{
  Machine, Faults, done, parsed_file, mutate_locked, persist, write_backup, before_rename,
  mutate_store,
}
use collaborative_ai_whitebo.Tokens.Reader.{hash_text, authorize_api_token, bearer_token}
use collaborative_ai_whitebo.Tokens.Clients.{
  CreateRequest, create_client, revoke_client, RotateRequest, rotate_client,
}
use collaborative_ai_whitebo.Tokens.WellFormed.{WellFormed}
use collaborative_ai_whitebo.Tokens.Calls.{IsDocumented, create, revoke, here, next}
use collaborative_ai_whitebo.Tokens.Readable.{IsReadable, IsLoaded, Reach-load_store}
use collaborative_ai_whitebo.Tokens.Backups.{LosesNothing, Reach-LosesNothing}
use collaborative_ai_whitebo.Tokens.Locking.{
  IsRefused, Call-IsRefused, StaysUnlocked, Call-StaysUnlocked,
}
use collaborative_ai_whitebo.Tokens.Refused.{mutate_store-refused}
use collaborative_ai_whitebo.Tokens.Revoked.{revoked_never_authorised}
use collaborative_ai_whitebo.Tokens.Replaced.{other_holder, replaced_never_authorised}
use collaborative_ai_whitebo.Tokens.Created.{holds, create_client-authorize}
use collaborative_ai_whitebo.Tokens.Records.{LocateOptions, add_client, is_target, rotated_fields}
use collaborative_ai_whitebo.Exec.Keeps.{Keeps}
use collaborative_ai_whitebo.Accounts.Input.{id_text}

abbrev token : String
token = "0123456789abcdef0123456789abcdef"

abbrev one_digest : String
one_digest = "aaaaaaaaaaaaaaaaaaaaaaaaaaaaaaaaaaaaaaaaaaaaaaaaaaaaaaaaaaaaaaaa"

abbrev other_digest : String
other_digest = "bbbbbbbbbbbbbbbbbbbbbbbbbbbbbbbbbbbbbbbbbbbbbbbbbbbbbbbbbbbbbbbb"

-- Digests of two values, and no JSON but what was written.
abbrev node : TokenPlatform
node = record {
  json_parse = λ source. none;
  sha256 = λ s. if s == token then one_digest else other_digest;
  date_parse = λ s. none;
  to_iso = λ at. "2026-01-01T00:00:00.000Z";
  trim = λ s. s;
  units = count;
}

node-IsDocumented : IsDocumented node
unfolding hash_text
node-IsDocumented = record {
  digests = λ s. elim (Bool-cases (s == token)) [ inl hit ↦ rw hit refl | inr miss ↦ rw miss refl ];
}

abbrev works : Faults
works = record {
  mkdir = false;
  open_lock = false;
  write_lock = false;
  remove_lock = false;
  read = false;
  write_backup = done;
  chmod_backup = false;
  write_temporary = done;
  chmod_temporary = false;
  failpoint = false;
  rename = false;
  chmod_store = false;
  remove_temporary = false;
  read_again = false;
}

-- No token file yet.
abbrev fresh : Machine
fresh = record {
  disk = record { store = none; lock = none; backups = []; temporaries = [] };
  accounts = empty;
}

abbrev request : CreateRequest
request = record {
  name = "agent";
  rooms = "demo" ∷ [];
  access = "read";
  expires_at = none;
  display_name = none;
  created_by_user_id = none;
  now = 5;
}

fresh-IsReadable : IsReadable node none
unfolding parsed_file empty_store all_clients
fresh-IsReadable = record {
  parsed = λ store source h.
      let e : empty_store ≡ store = cc h in
      subst WellFormed e (record {
        listed = refl;
        unique = tt;
        clients = refl;
        client_count = omega arith;
        accounts = refl;
        account_count = omega arith;
      });
}

abbrev registered : Machine
registered = (create_client node works "1" token request fresh).1

abbrev agent : Client
agent = record {
  name = "agent";
  token_hash = one_digest;
  rooms = texts ("demo" ∷ []);
  permissions = texts ("read" ∷ []);
  created_at = some (text "2026-01-01T00:00:00.000Z");
  expires_at = none;
  display_name = none;
  created_by_user_id = none;
  rotated_at = none;
  owner_user_id = none;
  account_permissions = none;
  metadata = [];
}

abbrev written : StoreData
written = record { clients = listed (agent ∷ []); account_clients = none; metadata = [] }

-- Anyone may act on the name.
abbrev by_name : LocateOptions
by_name = record { fingerprint = none; authorise = none }

-- The mode of the file cannot be set after the rename.
abbrev no_chmod : Faults
no_chmod = record works { chmod_store = true }

Reach-load_store_example : IsLoaded node (serialise written)
unfolding create_client ◌>>=◌ ensure id_text or_throw lift gets modify handle finally mutate_locked
    parsed_file persist write_backup before_rename pure
Reach-load_store_example =
    Reach-load_store node-IsDocumented fresh registered tt
      (next here (create works "1" token request)) (serialise written) refl

Reach-LosesNothing_example :
    LosesNothing registered.disk (revoke_client node no_chmod "2" "agent" by_name registered).1.disk
Reach-LosesNothing_example =
    Reach-LosesNothing node-IsDocumented {s = registered}
      (next here (revoke no_chmod "2" "agent" by_name))

Call-IsRefused_example : IsRefused (revoke_client node works "2" "agent" by_name)
Call-IsRefused_example = Call-IsRefused (revoke works "2" "agent" by_name)

Call-StaysUnlocked_example : Keeps StaysUnlocked (revoke_client node no_chmod "2" "agent" by_name)
Call-StaysUnlocked_example = Call-StaysUnlocked (revoke no_chmod "2" "agent" by_name) refl

-- The name is taken.
mutate_store-refused_example :
    (mutate_store node works "2" (add_client agent) registered).1.disk ≡ registered.disk
unfolding create_client ◌>>=◌ ensure id_text or_throw lift gets modify handle finally mutate_locked
    parsed_file persist write_backup before_rename pure add_client
mutate_store-refused_example =
    mutate_store-refused node works "2" (add_client agent) registered refl refl
      (λ store source a parsed h.
        let e : written ≡ store = cc parsed in
        let k : (add_client agent written).0 ≡ ok a =
          subst (λ d. (add_client agent d).0 ≡ ok a) (sym e) h in
        cc k)

revoked_never_authorised_example :
    authorize_api_token node
      (revoke_client node works "2" "agent" by_name registered).1.disk.store
      (some "Bearer 0123456789abcdef0123456789abcdef")
      "demo"
      "read"
      10
    ≢ some "agent"
unfolding create_client revoke_client ◌>>=◌ ensure id_text or_throw lift gets modify handle finally
    mutate_locked parsed_file persist write_backup before_rename pure for_each
revoked_never_authorised_example =
    revoked_never_authorised node works "2" "agent" none registered refl
      (some "Bearer 0123456789abcdef0123456789abcdef") "demo" "read" 10

abbrev rotation : RotateRequest
rotation = record { name = "agent"; expires_at = none; options = by_name; now = 7 }

replaced_never_authorised_example :
    authorize_api_token node
      (rotate_client node works "2" "fedcba9876543210fedcba9876543210" rotation
        registered).1.disk.store
      (some "Bearer 0123456789abcdef0123456789abcdef")
      "demo"
      "read"
      10
    ≡ none
unfolding create_client rotate_client ◌>>=◌ ensure id_text or_throw lift gets modify handle finally
    mutate_locked parsed_file persist write_backup before_rename pure bearer_token all_clients
    is_target for_each rotated_fields
replaced_never_authorised_example =
    replaced_never_authorised node works "2" "fedcba9876543210fedcba9876543210" rotation registered
      (record {
        token = "fedcba9876543210fedcba9876543210";
        name = "agent";
        fingerprint = "bbbbbbbbbbbbbbbb";
        rotated_at = "2026-01-01T00:00:00.000Z";
        fields = record {
          rooms = "demo" ∷ [];
          permissions = "read" ∷ [];
          created_at = some "2026-01-01T00:00:00.000Z";
          expires_at = none;
        };
      })
      refl (some "Bearer 0123456789abcdef0123456789abcdef") token "demo" "read" 10 refl refl
      (λ store source parsed.
        let e : written ≡ store = cc parsed in
        subst (λ d. any (other_holder node one_digest "agent" none) (all_clients d) ≡ false) e refl)

create_client-authorize_example :
    authorize_api_token node registered.disk.store
      (some "Bearer 0123456789abcdef0123456789abcdef")
      "demo"
      "read"
      10
    ≡ some "agent"
unfolding create_client ◌>>=◌ ensure id_text or_throw lift gets modify handle finally mutate_locked
    parsed_file persist write_backup before_rename pure bearer_token evaluate_expiry
create_client-authorize_example =
    create_client-authorize node node-IsDocumented works "1" token request fresh
      (record {
        token = token;
        name = "agent";
        rooms = "demo" ∷ [];
        permissions = "read" ∷ [];
        fingerprint = "bbbbbbbbbbbbbbbb";
        created_at = "2026-01-01T00:00:00.000Z";
        expires_at = none;
      })
      fresh-IsReadable
      (λ store source parsed.
        let e : empty_store ≡ store = cc parsed in
        subst (λ d. any (holds one_digest) (clients_of d) ≡ false) e refl)
      refl (some "Bearer 0123456789abcdef0123456789abcdef") "demo" "read" 10 refl refl refl refl
