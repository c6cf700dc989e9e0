-- ===== src/Tokens/Created.antt =====
-- A client that `createClient` (server/token-store.mjs) registered, as the reader of server/tokens.ts
-- sees it.
use collaborative_ai_whitebo.Prelude.{
  ℕ, String, ◌≡◌, refl, sym, ◌∙◌, ap, Bool, true, false, inl, inr, Option, some, List, [], ◌∷◌,
  ◌++◌, find?, any, has, Bool-cases, arith, ◌==◌, eq_iff,
}
use collaborative_ai_whitebo.Exec.{ok, pure, modify}
use collaborative_ai_whitebo.Exec.Inversion.{Splits-bind}
use collaborative_ai_whitebo.Exec.Atomic.{
  ReadsOnly-ensure, ReadsOnly-gets, ReadsOnly-lift, ReadsOnly-or_throw,
}
use collaborative_ai_whitebo.Tokens.Types.{
  FileText, serialise, Client, Value, texts, StoreData, clients_of, account_clients_of,
}
use collaborative_ai_whitebo.Tokens.Platform.{TokenPlatform, Checked, evaluate_expiry}
use collaborative_ai_whitebo.Tokens.Files.{Faults, Machine, parsed_file}
use collaborative_ai_whitebo.Tokens.Records.{push_client, add_client, dead}
use collaborative_ai_whitebo.Tokens.Clients.{CreateRequest, CreatedClient, create_client}
use collaborative_ai_whitebo.Tokens.Reader.{
  bearer_token, load_store, authorises, name_of, first_authorised, authorize_api_token,
}
use collaborative_ai_whitebo.Tokens.Calls.{IsDocumented, create, here, next}
use collaborative_ai_whitebo.Tokens.Saved.{mutate_store-IsSaved}
use collaborative_ai_whitebo.Tokens.Readable.{
  IsReadable, IsReadable-Serves, same-store, Reach-load_store, loaded,
}

-- No record of the object has the hash.
abbrev pub holds : String → Client → Bool
holds hash client = client.token_hash == hash

-- Among records of which none other has the hash, the pushed record is the first that passes.
find-pushed :
    (q : Client → Bool) (hash : String) (c : Client) (xs ys : List Client)
    → ((d : Client) → q d ≡ true → holds hash d ≡ true)
    → any (holds hash) xs ≡ false
    → q c ≡ true
    → find? q ((xs ++ c ∷ []) ++ ys) ≡ some c
find-pushed q hash c [] ys only fresh passes = rw passes refl
find-pushed q hash c (x ∷ xs) ys only fresh passes = elim (Bool-cases (q x)) [
  | inl hit ↦ absurd (ground (arith, only x hit, fresh))
  | inr miss ↦ rw miss (find-pushed q hash c xs ys only (ground (arith, fresh)) passes)
]

module _ (p : TokenPlatform) where
  pub authorises-holds :
      (token room permission : String) (now : ℕ) (d : Client)
      → authorises p token room permission now d ≡ true
      → holds (p.sha256 token) d ≡ true
  unfolding authorises
  authorises-holds token room permission now d h =
      ground (arith, h, eq_iff (p.sha256 token) d.token_hash, eq_iff d.token_hash (p.sha256 token))

  pushed-authorised :
      (c : Client) (store : StoreData) (header : Option String) (token room permission : String)
      (now : ℕ)
      → load_store p (some (serialise (push_client c store).1))
        ≡ some (loaded (push_client c store).1)
      → bearer_token header ≡ some token
      → any (holds (p.sha256 token)) (clients_of store) ≡ false
      → authorises p token room permission now c ≡ true
      → authorize_api_token p (some (serialise (push_client c store).1)) header room permission now
        ≡ some c.name
  unfolding authorize_api_token first_authorised push_client modify
  pushed-authorised c store header token room permission now accepted bearer fresh passes =
      rw (bearer, accepted)
        (ap name_of (
          find-pushed (authorises p token room permission now) (p.sha256 token) c (clients_of store)
            (account_clients_of store) (authorises-holds token room permission now) fresh passes))

  pushed-parsed :
      IsDocumented p
      → (c : Client) (store : StoreData)
      → parsed_file p (some (serialise (push_client c store).1))
        ≡ ok ((push_client c store).1, serialise (push_client c store).1)
  unfolding parsed_file push_client modify
  pushed-parsed doc c store = refl

passes :
    (p : TokenPlatform) (token room permission : String) (now : ℕ) (c : Client)
    (rooms permissions : List String) (expires_at : Option Value)
    → c.token_hash ≡ p.sha256 token
    → c.rooms ≡ texts rooms
    → c.permissions ≡ texts permissions
    → c.expires_at ≡ expires_at
    → has rooms room ≡ true
    → has permissions permission ≡ true
    → dead (evaluate_expiry p expires_at now) ≡ false
    → authorises p token room permission now c ≡ true
unfolding authorises
passes p token room permission now c rooms permissions expires_at digest r m e on_board allowed
      live =
    rw (digest, r, m, e)
      (ground (arith, eq_iff (p.sha256 token) (p.sha256 token), on_board, allowed, live))

add_client-pushed :
    (c : Client) (store : StoreData) (u : Unit)
    → (add_client c store).0 ≡ ok u
    → (add_client c store).1 ≡ (push_client c store).1
unfolding add_client
add_client-pushed c store u h =
    let read = Splits-bind _ _ store h in
    let fresh = Splits-bind _ _ _ read.second in
    let room = Splits-bind _ _ _ fresh.second in
    read.final
    ∙ fresh.final
    ∙ room.final
    ∙ ap (λ s. (push_client c s).1)
        ((ReadsOnly-ensure _ _).same _ ∙ (ReadsOnly-ensure _ _).same _ ∙ (ReadsOnly-gets _).same _)

-- What a registration that returned has checked and written.
record IsCreated (p : TokenPlatform) (token : String) (request : CreateRequest) (s t : Machine)
    (r : CreatedClient) : Type 0 where
  client : Client
  store : StoreData
  source : FileText
  read : parsed_file p s.disk.store ≡ ok (store, source)
  written : t.disk.store ≡ some (serialise (push_client client store).1)
  name : client.name ≡ request.name
  digest : client.token_hash ≡ p.sha256 token
  rooms : client.rooms ≡ texts request.rooms
  permissions : client.permissions ≡ texts r.permissions
  expires_at : client.expires_at ≡ r.expires_at

ok-injective : {A : Type 0} (a b : A) → ◌≡◌ {A = Checked A} (ok a) (ok b) → a ≡ b
ok-injective a b h = cc h

create_client-IsCreated :
    (p : TokenPlatform) (faults : Faults) (pid token : String) (request : CreateRequest)
    (s : Machine) (r : CreatedClient)
    → (create_client p faults pid token request s).0 ≡ ok r
    → IsCreated p token request s (create_client p faults pid token request s).1 r
unfolding create_client pure
create_client-IsCreated p faults pid token request s r h =
    let name = Splits-bind _ _ s h in
    let rooms = Splits-bind _ _ _ name.second in
    let access = Splits-bind _ _ _ rooms.second in
    let expires = Splits-bind _ _ _ access.second in
    let label = Splits-bind _ _ _ expires.second in
    let creator = Splits-bind _ _ _ label.second in
    let run = Splits-bind _ _ _ creator.second in
    let saved = mutate_store-IsSaved p faults pid _ _ tt run.first in
    let end = ok-injective _ r run.second in
    record {
      client = _;
      store = saved.store;
      source = saved.source;
      read =
          ap (λ (t : Machine). parsed_file p t.disk.store)
            (sym (
              (ReadsOnly-lift _).same _
              ∙ (ReadsOnly-lift _).same _
              ∙ (ReadsOnly-lift _).same _
              ∙ (ReadsOnly-or_throw _ _).same _
              ∙ (ReadsOnly-ensure _ _).same _
              ∙ (ReadsOnly-ensure _ _).same _))
          ∙ saved.read;
      written =
          ap (λ (t : Machine). t.disk.store)
            (name.final ∙ rooms.final ∙ access.final ∙ expires.final ∙ label.final ∙ creator.final
              ∙ run.final)
          ∙ saved.written
          ∙ ap (λ d. some (serialise d)) (add_client-pushed _ saved.store tt saved.edited);
      name = refl;
      digest = refl;
      rooms = refl;
      permissions = ap (λ x. texts x.permissions) end;
      expires_at = ap (λ x. x.expires_at) end;
    }

-- A client that `createClient` has registered in a readable file that did not hold the digest of its
-- token is authorised at once by its bearer, on each of its boards, for each of its permissions, while
-- its expiry has not passed.
pub create_client-authorize :
    (p : TokenPlatform) (doc : IsDocumented p) (faults : Faults) (pid token : String)
    (request : CreateRequest) (s : Machine) (r : CreatedClient)
    → IsReadable p s.disk.store
    → ((store : StoreData) (source : FileText)
        → parsed_file p s.disk.store ≡ ok (store, source)
        → any (holds (p.sha256 token)) (clients_of store) ≡ false)
    → (create_client p faults pid token request s).0 ≡ ok r
    → (header : Option String) (room permission : String) (now : ℕ)
    → bearer_token header ≡ some token
    → has request.rooms room ≡ true
    → has r.permissions permission ≡ true
    → dead (evaluate_expiry p r.expires_at now) ≡ false
    → authorize_api_token p
        (create_client p faults pid token request s).1.disk.store
        header
        room
        permission
        now
      ≡ some request.name
create_client-authorize p doc faults pid token request s r start fresh h header room permission now
      bearer on_board allowed live =
    let made = create_client-IsCreated p faults pid token request s r h in
    let left = (push_client made.client made.store).1 in
    let served = IsReadable-Serves p s.disk.store made.store made.source start made.read in
    let whole =
      Reach-load_store doc s _ served (next here (create faults pid token request)) (serialise left)
        made.written in
    let same = same-store whole.parsed (pushed-parsed p doc made.client made.store) in
    let accepted = whole.reader ∙ ap (λ d. some (loaded d)) same in
    ap (λ f. authorize_api_token p f header room permission now) made.written
    ∙ pushed-authorised p made.client made.store header token room permission now accepted bearer
        (fresh made.store made.source made.read)
        (passes p token room permission now made.client request.rooms r.permissions r.expires_at
          made.digest made.rooms made.permissions made.expires_at on_board allowed live)
    ∙ ap (λ n. some n) made.name
