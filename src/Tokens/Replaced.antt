-- ===== src/Tokens/Replaced.antt =====
-- What the reader of server/tokens.ts answers to the old token after `rotateClient`
-- (server/token-store.mjs).
use collaborative_ai_whitebo.Prelude.{
  ℕ, String, ◌≡◌, refl, sym, ◌∙◌, ap, Bool, true, false, not, ◌&&◌, inl, inr, Option, none, some,
  List, [], ◌∷◌, ◌++◌, Assoc, filter, if◌then◌else◌, any, find?, update_where, Bool-cases, arith,
  ◌==◌,
}
use collaborative_ai_whitebo.Exec.{ok, pure, modify}
use collaborative_ai_whitebo.Exec.Atomic.{ReadsOnly, ReadsOnly-lift, ReadsOnly-ensure, reads_rules}
use collaborative_ai_whitebo.Exec.Inversion.{Splits-bind}
use collaborative_ai_whitebo.Tokens.Types.{
  FileText, serialise, Client, Value, Collection, listed, malformed, StoreData, object, clients_of,
  account_clients_of, all_clients,
}
use collaborative_ai_whitebo.Tokens.Platform.{TokenPlatform}
use collaborative_ai_whitebo.Tokens.Files.{Faults, Machine, parsed_file}
use collaborative_ai_whitebo.Tokens.Records.{
  LocateOptions, edit_records, is_target, Rotated, rotated_record, rotated_fields, replace_token,
}
use collaborative_ai_whitebo.Tokens.Clients.{RotateRequest, RotatedClient, rotate_client}
use collaborative_ai_whitebo.Tokens.Reader.{
  account_client_schema, LoadedStore, usable_store, load_store, bearer_token, name_of, authorises,
  first_authorised, authorize_api_token,
}
use collaborative_ai_whitebo.Tokens.WellFormed.{any-append}
use collaborative_ai_whitebo.Tokens.WellFormed.Mutators.{clients-edit, edit_accounts-clients}
use collaborative_ai_whitebo.Tokens.Saved.{mutate_store-IsSaved}
use collaborative_ai_whitebo.Tokens.Revoked.{locate_clients-ReadsOnly, any-kept, any-weaker}
use collaborative_ai_whitebo.Tokens.Created.{holds, authorises-holds}

-- A record that has the digest and is not a target.
abbrev pub other_holder : TokenPlatform → String → String → Option String → Client → Bool
unfolding is_target
other_holder p digest name fingerprint c = holds digest c && not (is_target p name fingerprint c)

none-holds :
    (q : Client → Bool) (f : Client → Client) (digest : String) (cs : List Client)
    → ((c : Client) → holds digest (f c) ≡ false)
    → any (λ c. holds digest c && not (q c)) cs ≡ false
    → any (holds digest) (update_where q f cs) ≡ false
none-holds q f digest [] new h = refl
none-holds q f digest (c ∷ cs) new h = elim (Bool-cases (q c)) [
  | inl hit ↦ rw hit (ground (arith, new c, none-holds q f digest cs new, h, hit))
  | inr miss ↦ rw miss (ground (arith, none-holds q f digest cs new, h, miss))
]

rotated_fields-ReadsOnly : (o : Option Value) (c : Client) → ReadsOnly (rotated_fields o c)
unfolding rotated_fields
rotated_fields-ReadsOnly o c = search reads_rules depth 9

module _ (p : TokenPlatform) where
  replaced-state :
      (name : String) (options : LocateOptions) (hash : String) (expiry : Option Value) (now : ℕ)
      (store : StoreData) (a : Rotated)
      → (replace_token p name options hash expiry now store).0 ≡ ok a
      → (replace_token p name options hash expiry now store).1
        ≡ edit_records
            (update_where (is_target p name options.fingerprint) (rotated_record p hash expiry now))
            store
  unfolding replace_token modify
  replaced-state name options hash expiry now store a h =
      let located = Splits-bind _ _ store h in
      let client = Splits-bind _ _ _ located.second in
      let live = Splits-bind _ _ _ client.second in
      let swapped = Splits-bind _ _ _ live.second in
      let edit =
        edit_records (
          update_where (is_target p name options.fingerprint) (rotated_record p hash expiry now)) in
      located.final
      ∙ client.final
      ∙ live.final
      ∙ swapped.final
      ∙ (rotated_fields-ReadsOnly expiry client.value).same _
      ∙ ap edit (
          (ReadsOnly-ensure _ _).same _
          ∙ (ReadsOnly-lift _).same _
          ∙ (locate_clients-ReadsOnly p name options).same store)

  rotated-new :
      (old new : String) (expiry : Option Value) (now : ℕ) (c : Client)
      → (new == old) ≡ false
      → holds old (rotated_record p new expiry now c) ≡ false
  unfolding rotated_record
  rotated-new old new expiry now c h = h

  -- After the edit no record has the old digest.
  edited-clear :
      (q : Client → Bool) (old new : String) (expiry : Option Value) (now : ℕ) (store : StoreData)
      → (new == old) ≡ false
      → any (λ c. holds old c && not (q c)) (all_clients store) ≡ false
      → any
          (holds old)
          (all_clients (edit_records (update_where q (rotated_record p new expiry now)) store))
        ≡ false
  unfolding all_clients account_clients_of
  edited-clear q old new expiry now store fresh h =
      let f = update_where q (rotated_record p new expiry now) in
      let left = edit_records f store in
      let others = λ (c : Client). holds old c && not (q c) in
      let clear = none-holds q (rotated_record p new expiry now) old in
      let ordinary : clients_of left ≡ f (clients_of store) =
        clients-edit f store.clients store refl in
      let accounts : account_clients_of left ≡ f (account_clients_of store) =
        edit_accounts-clients f store.account_clients refl in
      let parts = any-append others (clients_of store) (account_clients_of store) in
      any-append (holds old) (clients_of left) (account_clients_of left)
      ∙ rw (ordinary, accounts)
          (ground (
            arith,
            clear (clients_of store) (λ c. rotated-new old new expiry now c fresh)
                (ground (arith, parts, h)),
            clear (account_clients_of store) (λ c. rotated-new old new expiry now c fresh)
                (ground (arith, parts, h)),
          ))

find-none : (q : Client → Bool) (cs : List Client) → any q cs ≡ false → name_of (find? q cs) ≡ none
find-none q [] h = refl
find-none q (c ∷ cs) h = elim (Bool-cases (q c)) [
  | inl hit ↦ absurd (ground (arith, h, hit))
  | inr miss ↦ rw miss (find-none q cs (ground (arith, h)))
]

none-kept :
    (r q : Client → Bool) (xs ys : List Client)
    → any r (xs ++ ys) ≡ false
    → any r (xs ++ filter q ys) ≡ false
none-kept r q xs ys h = ground (arith, any-kept r q xs ys, h)

module _ (p : TokenPlatform) (room permission : String) (now : ℕ) (token : String) where
  accepted-refused :
      (b : Bool) (store : LoadedStore)
      → any (holds (p.sha256 token)) (store.clients ++ store.account_clients) ≡ false
      → first_authorised p room permission now (some token) (if b then some store else none) ≡ none
  unfolding first_authorised
  accepted-refused true store h =
      let passes = authorises p token room permission now in
      let clients = store.clients ++ store.account_clients in
      find-none passes clients (
        any-weaker (holds (p.sha256 token)) passes clients
          (authorises-holds p token room permission now) h)
  accepted-refused false store h = refl

  loaded-refused :
      (c : Collection) (a : Option Collection) (m : Assoc String)
      → any
          (holds (p.sha256 token))
          (all_clients (record { clients = c; account_clients = a; metadata = m }))
        ≡ false
      → first_authorised p room permission now
          (some token)
          (usable_store (some (object (record { clients = c; account_clients = a; metadata = m }))))
        ≡ none
  unfolding first_authorised usable_store all_clients
  loaded-refused (listed clients) a m h =
      accepted-refused _ _ (none-kept (holds (p.sha256 token)) account_client_schema clients _ h)
  loaded-refused malformed a m h = refl

  -- A file of which no record has the digest of the token authorises nobody by it.
  refused :
      (store : StoreData) (header : Option String)
      → bearer_token header ≡ some token
      → any (holds (p.sha256 token)) (all_clients store) ≡ false
      → authorize_api_token p (some (serialise store)) header room permission now ≡ none
  unfolding authorize_api_token load_store
  refused store header bearer h =
      ap (λ t. first_authorised p room permission now t (usable_store (some (object store)))) bearer
      ∙ loaded-refused store.clients store.account_clients store.metadata h

-- After a rotation that returned, the reader authorises nobody by a token that no other record of the
-- file had the digest of, for any board, permission and time, given that the digest of the new token is
-- another.
pub replaced_never_authorised :
    (p : TokenPlatform) (faults : Faults) (pid token : String) (request : RotateRequest)
    (s : Machine) (r : RotatedClient)
    → (rotate_client p faults pid token request s).0 ≡ ok r
    → (header : Option String) (old room permission : String) (now : ℕ)
    → bearer_token header ≡ some old
    → (p.sha256 token == p.sha256 old) ≡ false
    → ((store : StoreData) (source : FileText)
        → parsed_file p s.disk.store ≡ ok (store, source)
        → any
            (other_holder p (p.sha256 old) request.name request.options.fingerprint)
            (all_clients store)
          ≡ false)
    → authorize_api_token p
        (rotate_client p faults pid token request s).1.disk.store
        header
        room
        permission
        now
      ≡ none
unfolding rotate_client pure
replaced_never_authorised p faults pid token request s r h header old room permission now bearer new
      others =
    let name = Splits-bind _ _ s h in
    let expires = Splits-bind _ _ _ name.second in
    let run = Splits-bind _ _ _ expires.second in
    let saved = mutate_store-IsSaved p faults pid _ _ run.value run.first in
    let start = (ReadsOnly-lift _).same _ ∙ (ReadsOnly-ensure _ _).same s in
    let read = ap (λ (t : Machine). parsed_file p t.disk.store) (sym start) ∙ saved.read in
    let edit =
      replaced-state p request.name request.options (p.sha256 token) expires.value request.now
        saved.store run.value saved.edited in
    let file =
      ap (λ (t : Machine). t.disk.store) (name.final ∙ expires.final ∙ run.final)
      ∙ saved.written
      ∙ ap (λ d. some (serialise d)) edit in
    let clear =
      edited-clear p (is_target p request.name request.options.fingerprint) (p.sha256 old)
        (p.sha256 token) expires.value request.now saved.store new
        (others saved.store saved.source read) in
    ap (λ f. authorize_api_token p f header room permission now) file
    ∙ refused p room permission now old _ header bearer clear
