-- ===== src/Tokens/Revoked.antt =====
-- What the reader of server/tokens.ts answers after `revokeClient` (server/token-store.mjs).
use collaborative_ai_whitebo.Prelude.{
  ℕ, String, ◌≡◌, ◌≢◌, refl, sym, ◌∙◌, ap, Bool, true, false, not, inl, inr, Option, none, some,
  List, [], ◌∷◌, ◌++◌, Assoc, if◌then◌else◌, filter, find?, any, Bool-cases, arith, eq_iff,
}
use collaborative_ai_whitebo.Exec.{ok, pure, gets, modify, for_each, ◌>>=◌}
use collaborative_ai_whitebo.Exec.Atomic.{ReadsOnly, ReadsOnly-pure, ReadsOnly-bind, reads_rules}
use collaborative_ai_whitebo.Exec.Inversion.{Splits-bind}
use collaborative_ai_whitebo.Tokens.Types.{
  serialise, Client, Collection, listed, malformed, StoreData, object, clients_of,
  account_clients_of, all_clients,
}
use collaborative_ai_whitebo.Tokens.Platform.{TokenPlatform, Checked}
use collaborative_ai_whitebo.Tokens.Files.{Faults, Machine}
use collaborative_ai_whitebo.Tokens.Records.{
  named, LocateOptions, run_authorise, is_target, locate_clients, remove_accounts, remove_ordinary,
  remove_targets, remove_clients,
}
use collaborative_ai_whitebo.Tokens.Clients.{revoke_client}
use collaborative_ai_whitebo.Tokens.Reader.{
  account_client_schema, LoadedStore, usable_store, load_store, bearer_token, name_of,
  first_authorised, authorize_api_token,
}
use collaborative_ai_whitebo.Tokens.WellFormed.{any-append}
use collaborative_ai_whitebo.Tokens.WellFormed.Changes.{any-filter}
use collaborative_ai_whitebo.Tokens.Saved.{mutate_store-IsSaved}

run_authorise-ReadsOnly :
    (o : Option (Client → Checked Bool)) (c : Client) → ReadsOnly (run_authorise o c)
run_authorise-ReadsOnly none c = search reads_rules
run_authorise-ReadsOnly (some authorise) c = search reads_rules depth 9

authorise_each-ReadsOnly :
    (o : Option (Client → Checked Bool)) (cs : List Client)
    → ReadsOnly (for_each cs (run_authorise o))
unfolding for_each
authorise_each-ReadsOnly o [] = ReadsOnly-pure _
authorise_each-ReadsOnly o (c ∷ cs) =
    ReadsOnly-bind _ _ (run_authorise-ReadsOnly o c) (λ u. authorise_each-ReadsOnly o cs)

nothing-left : (q : Client → Bool) (cs : List Client) → any q (filter (λ c. not (q c)) cs) ≡ false
nothing-left q [] = refl
nothing-left q (c ∷ cs) = ground (arith, nothing-left q cs)

module _ (p : TokenPlatform) (name : String) (options : LocateOptions) where
  pub locate_clients-ReadsOnly : ReadsOnly (locate_clients p name options)
  unfolding locate_clients
  locate_clients-ReadsOnly = search (authorise_each-ReadsOnly, reads_rules) depth 20

  abbrev target : Client → Bool
  target = is_target p name options.fingerprint

  ordinary-gone :
      (store : StoreData) → any target (clients_of (remove_ordinary p name options store).1) ≡ false
  unfolding remove_ordinary modify
  ordinary-gone store = nothing-left target (clients_of store)

  accounts-gone :
      (b : Bool) (store : StoreData)
      → any target (account_clients_of store) ≡ b
      → any target (account_clients_of (remove_accounts p name options b store).1) ≡ false
  unfolding remove_accounts modify pure account_clients_of
  accounts-gone true store h = nothing-left target (account_clients_of store)
  accounts-gone false store h = h

  ordinary-stays :
      (b : Bool) (store : StoreData)
      → clients_of (remove_accounts p name options b store).1 ≡ clients_of store
  unfolding remove_accounts modify pure
  ordinary-stays true store = refl
  ordinary-stays false store = refl

  targets-gone :
      (store : StoreData) → any target (all_clients (remove_targets p name options store).1) ≡ false
  unfolding remove_targets gets ◌>>=◌ all_clients modify
  targets-gone store =
      let kept = (remove_ordinary p name options store).1 in
      let found = any target (account_clients_of kept) in
      let left = (remove_accounts p name options found kept).1 in
      any-append target (clients_of left) (account_clients_of left)
      ∙ ground (
        arith,
        accounts-gone found kept refl,
        ap (any target) (ordinary-stays found kept) ∙ ordinary-gone store,
      )

  pub remove_clients-gone :
      (store : StoreData) (u : Unit)
      → (remove_clients p name options store).0 ≡ ok u
      → any target (all_clients (remove_clients p name options store).1) ≡ false
  unfolding remove_clients
  remove_clients-gone store u h =
      let located = Splits-bind (locate_clients p name options) _ store h in
      ap (λ s. any target (all_clients s))
        (located.final
          ∙ ap (λ s. (remove_targets p name options s).1) (locate_clients-ReadsOnly.same store))
      ∙ targets-gone store

find-named :
    (q : Client → Bool) (cs : List Client) (n : String)
    → name_of (find? q cs) ≡ some n
    → any (named n) cs ≡ true
find-named q [] n h = cc h
find-named q (c ∷ cs) n h = elim (Bool-cases (q c)) [
  | inl hit ↦
      (let e : name_of (find? q (c ∷ cs)) ≡ some c.name = rw hit refl in
        let same : c.name ≡ n = cc (sym e ∙ h) in ground (arith, (eq_iff c.name n).1 same))
  | inr miss ↦
      (let e : name_of (find? q (c ∷ cs)) ≡ name_of (find? q cs) = rw miss refl in
        ground (arith, find-named q cs n (sym e ∙ h)))
]

pub any-kept :
    (r q : Client → Bool) (xs ys : List Client)
    → any r (xs ++ filter q ys) ≡ true
    → any r (xs ++ ys) ≡ true
any-kept r q xs ys h =
    ground (arith, any-append r xs (filter q ys), any-append r xs ys, any-filter q r ys, h)

module _ (p : TokenPlatform) where
  accepted-named :
      (b : Bool) (store : LoadedStore) (room permission n token : String) (now : ℕ)
      → first_authorised p room permission now (some token) (if b then some store else none)
        ≡ some n
      → any (named n) (store.clients ++ store.account_clients) ≡ true
  unfolding first_authorised
  accepted-named true store room permission n token now h = find-named _ _ n h
  accepted-named false store room permission n token now h = cc h

  loaded-named :
      (c : Collection) (a : Option Collection) (m : Assoc String) (room permission n : String)
      (now : ℕ) (token : Option String)
      → first_authorised p room permission now token
          (usable_store (some (object (record { clients = c; account_clients = a; metadata = m }))))
        ≡ some n
      → any (named n) (all_clients (record { clients = c; account_clients = a; metadata = m }))
        ≡ true
  unfolding first_authorised usable_store all_clients
  loaded-named (listed clients) a m room permission n now none h = cc h
  loaded-named malformed a m room permission n now none h = cc h
  loaded-named malformed a m room permission n now (some token) h = cc h
  loaded-named (listed clients) a m room permission n now (some token) h =
      any-kept (named n) account_client_schema clients
        (account_clients_of
          (record { clients = listed clients; account_clients = a; metadata = m }))
        (accepted-named _ _ room permission n token now h)

  -- Whoever is authorised by a file that was written is a client of it.
  pub authorised-named :
      (store : StoreData) (header : Option String) (room permission n : String) (now : ℕ)
      → authorize_api_token p (some (serialise store)) header room permission now ≡ some n
      → any (named n) (all_clients store) ≡ true
  unfolding authorize_api_token load_store
  authorised-named store header room permission n now h =
      loaded-named store.clients store.account_clients store.metadata room permission n now
        (bearer_token header) h

pub find-any :
    (q : Client → Bool) (cs : List Client) (n : String)
    → name_of (find? q cs) ≡ some n
    → any q cs ≡ true
find-any q [] n h = cc h
find-any q (c ∷ cs) n h = elim (Bool-cases (q c)) [
  | inl hit ↦ ground (arith, hit)
  | inr miss ↦
      (let e : name_of (find? q (c ∷ cs)) ≡ name_of (find? q cs) = rw miss refl in
        ground (arith, find-any q cs n (sym e ∙ h)))
]

pub any-weaker :
    (q r : Client → Bool) (cs : List Client)
    → ((c : Client) → r c ≡ true → q c ≡ true)
    → any q cs ≡ false
    → any r cs ≡ false
any-weaker q r [] h k = refl
any-weaker q r (c ∷ cs) h k = ground (arith, any-weaker q r cs h, h c, k)

named-target :
    (p : TokenPlatform) (name : String) (c : Client)
    → named name c ≡ true
    → is_target p name none c ≡ true
unfolding is_target
named-target p name c h = ground (arith, h)

-- After a revocation by name that returned, the reader never authorises that name by the file it
-- left, for any bearer, board, permission and time.
pub revoked_never_authorised :
    (p : TokenPlatform) (faults : Faults) (pid name : String)
    (authorise : Option (Client → Checked Bool)) (s : Machine)
    → let options : LocateOptions = record { fingerprint = none; authorise = authorise } in
      (revoke_client p faults pid name options s).0 ≡ ok tt
      → (header : Option String) (room permission : String) (now : ℕ)
      → authorize_api_token p
          (revoke_client p faults pid name options s).1.disk.store
          header
          room
          permission
          now
        ≢ some name
unfolding revoke_client
revoked_never_authorised p faults pid name authorise s h header room permission now k =
    let options : LocateOptions = record { fingerprint = none; authorise = authorise } in
    let valid = Splits-bind _ _ s h in
    let saved =
      mutate_store-IsSaved p faults pid (remove_clients p name options) _ tt valid.second in
    let left = (remove_clients p name options saved.store).1 in
    let gone = remove_clients-gone p name options saved.store tt saved.edited in
    let file = ap (λ t. t.disk.store) valid.final ∙ saved.written in
    let found =
      authorised-named p left header room permission name now
        (ap (λ f. authorize_api_token p f header room permission now) (sym file) ∙ k) in
    let clear =
      any-weaker (is_target p name none) (named name) (all_clients left) (named-target p name)
        gone in
    absurd (ground (arith, found, clear))
