-- ===== src/Tokens/Readable.antt =====
-- The token file after any operations (server/token-store.mjs) as its reader sees it (server/tokens.ts).
use collaborative_ai_whitebo.Prelude.{
  String, ◌≡◌, refl, sym, ◌∙◌, ap, Bool, true, Option, none, some, List, [], ◌∷◌, Assoc, inl, inr,
  Bool-cases, all, filter, arith,
}
use mathlib.Core.Path.{subst}
use collaborative_ai_whitebo.Exec.{ok, err}
use collaborative_ai_whitebo.Exec.Keeps.{IsPreorder, Keeps-bind}
use collaborative_ai_whitebo.Tokens.Types.{
  FileText, serialise, Client, Collection, listed, malformed, StoreData, Json, object, not_object,
  clients_of, account_clients_of, all_clients, empty_store,
}
use collaborative_ai_whitebo.Tokens.Platform.{parse_json, TokenPlatform, Checked}
use collaborative_ai_whitebo.Tokens.Files.{
  Disk, Faults, Machine, back_up_store, write_store_atomically, checked_store, with_source,
  parsed_file, persist,
}
use collaborative_ai_whitebo.Tokens.Reader.{
  account_client_schema, token_file_schema, LoadedStore, usable_store, load_store,
}
use collaborative_ai_whitebo.Tokens.Moves.{OnDisk, IsPolicy}
use collaborative_ai_whitebo.Tokens.Moves.Writes.{IsQuiet, back_up_store-Keeps, write_store-Keeps}
use collaborative_ai_whitebo.Tokens.WellFormed.{WellFormed, is_listed}
use collaborative_ai_whitebo.Tokens.WellFormed.Mutators.{Sound}
use collaborative_ai_whitebo.Tokens.Calls.{IsDocumented, Reach, Reach-Keeps}

-- What the file parses to, if it is a token file, is well formed.
pub record IsReadable (p : TokenPlatform) (file : Option FileText) : Type 0 where
  pub parsed :
      (store : StoreData) (source : FileText)
      → parsed_file p file ≡ ok (store, source)
      → WellFormed store

-- A file that parses to a token file that is well formed.
pub record IsServed (p : TokenPlatform) (content : FileText) : Type 0 where
  pub store : StoreData
  pub source : FileText
  pub parsed : parsed_file p (some content) ≡ ok (store, source)
  pub good : WellFormed store

-- There is no file, or one that is served.
abbrev pub Serves : TokenPlatform → Option FileText → Type 0
Serves p none = Unit
Serves p (some content) = IsServed p content

abbrev pub StaysServed : TokenPlatform → Disk → Disk → Type 0
StaysServed p d e = Serves p d.store → Serves p e.store

checked-eq-ok :
    (c : Collection) (a : Option Collection) (m : Assoc String) (store : StoreData)
    (source s : FileText)
    → with_source s
        (checked_store (some (object (record { clients = c; account_clients = a; metadata = m }))))
      ≡ ok (store, source)
    → (record { clients = c; account_clients = a; metadata = m }) ≡ store
checked-eq-ok (listed clients) a m store source s h = cc h
checked-eq-ok malformed a m store source s h = cc h

listed-checked :
    (c : Collection) (a : Option Collection) (m : Assoc String) (s : FileText)
    → is_listed c ≡ true
    → with_source s
        (checked_store (some (object (record { clients = c; account_clients = a; metadata = m }))))
      ≡ ok (record { clients = c; account_clients = a; metadata = m }, s)
listed-checked (listed clients) a m s h = refl
listed-checked malformed a m s h = cc h

-- What was written is read back.
written-IsServed :
    (p : TokenPlatform) (store : StoreData) → WellFormed store → IsServed p (serialise store)
unfolding parsed_file
written-IsServed p store w = record {
  store = store;
  source = serialise store;
  parsed =
      listed-checked store.clients store.account_clients store.metadata (serialise store) w.listed;
  good = w;
}

empty_store-WellFormed : WellFormed empty_store
unfolding empty_store all_clients account_clients_of
empty_store-WellFormed = record {
  listed = refl;
  unique = tt;
  clients = refl;
  client_count = omega arith;
  accounts = refl;
  account_count = omega arith;
}

pub same-store :
    {store other : StoreData} {source text : FileText} {r : Checked (StoreData × FileText)}
    → r ≡ ok (store, source)
    → r ≡ ok (other, text)
    → store ≡ other
same-store {store} {other} {source} {text} h k =
    let e : ◌≡◌ {A = Checked (StoreData × FileText)} (ok (store, source)) (ok (other, text)) =
      sym h ∙ k in
    cc e

module _ (p : TokenPlatform) where
  Serves-WellFormed :
      (file : Option FileText) (store : StoreData) (source : FileText)
      → Serves p file
      → parsed_file p file ≡ ok (store, source)
      → WellFormed store
  unfolding parsed_file
  Serves-WellFormed none store source r h =
      subst WellFormed (same-store refl h) empty_store-WellFormed
  Serves-WellFormed (some content) store source r h =
      subst WellFormed (same-store r.parsed h) r.good

  -- A readable file that was read is served.
  pub IsReadable-Serves :
      (file : Option FileText) (store : StoreData) (source : FileText)
      → IsReadable p file
      → parsed_file p file ≡ ok (store, source)
      → Serves p file
  IsReadable-Serves none store source r h = tt
  IsReadable-Serves (some content) store source r h = record {
    store = store;
    source = source;
    parsed = h;
    good = r.parsed store source h;
  }

module _ (p : TokenPlatform) where
  StaysServed-IsPreorder : IsPreorder (OnDisk (StaysServed p))
  StaysServed-IsPreorder = record { same = λ s r. r; trans = λ s t u g h r. h (g r) }

  StaysServed-IsQuiet : IsQuiet (StaysServed p)
  StaysServed-IsQuiet = record {
    preorder = StaysServed-IsPreorder;
    backups = λ text d r. r;
    added = λ text d r. r;
    dropped = λ d r. r;
  }

  persist-StaysServed :
      (faults : Faults) (source : FileText) (store changed : StoreData) (s : Machine)
      → parsed_file p s.disk.store ≡ ok (store, source)
      → Sound store changed
      → StaysServed p s.disk (persist p faults source changed s).1.disk
  unfolding persist
  persist-StaysServed faults source store changed s parsed sound r =
      let old = Serves-WellFormed p s.disk.store store source r parsed in
      let good = written-IsServed p changed (sound old) in
      (Keeps-bind StaysServed-IsPreorder (back_up_store faults source)
          (λ u. write_store_atomically faults (serialise changed))
          (back_up_store-Keeps StaysServed-IsQuiet faults source)
          (λ u. write_store-Keeps StaysServed-IsQuiet faults (serialise changed) (λ d k. good))).at
        s r

  StaysServed-IsPolicy : IsPolicy p Sound (StaysServed p)
  StaysServed-IsPolicy = record {
    preorder = StaysServed-IsPreorder;
    locks = λ lock d r. r;
    persists = persist-StaysServed;
  }

all-filtered : (q : Client → Bool) (cs : List Client) → all q cs ≡ true → filter q cs ≡ cs
all-filtered q [] h = refl
all-filtered q (c ∷ cs) h = elim (Bool-cases (q c)) [
  | inl hit ↦ rw hit (ap (λ ds. c ∷ ds) (all-filtered q cs (ground (arith, h))))
  | inr miss ↦ (let e : q c ≡ true = ground (arith, h) in absurd (ground (arith, e, miss)))
]

-- The reader's view of the file.
abbrev pub loaded : StoreData → LoadedStore
loaded store = record { clients = clients_of store; account_clients = account_clients_of store }

accepted :
    (c : Collection) (a : Option Collection) (m : Assoc String) (read : StoreData)
    → checked_store (some (object (record { clients = c; account_clients = a; metadata = m })))
      ≡ ok read
    → WellFormed (record { clients = c; account_clients = a; metadata = m })
    → usable_store (some (object (record { clients = c; account_clients = a; metadata = m })))
      ≡ some (loaded (record { clients = c; account_clients = a; metadata = m }))
unfolding usable_store token_file_schema
accepted (listed clients) a m read h w =
    let store : StoreData = record {
      clients = listed clients;
      account_clients = a;
      metadata = m;
    } in
    let valid : token_file_schema store ≡ true = ground (arith, w.clients, w.client_count) in
    rw (valid, all-filtered account_client_schema (account_clients_of store) w.accounts) refl
accepted malformed a m read h w = cc h

with_source-eq-ok :
    (s : FileText) (c : Checked StoreData) (store : StoreData) (source : FileText)
    → with_source s c ≡ ok (store, source)
    → c ≡ ok store
with_source-eq-ok s (ok st) store source h = cc h
with_source-eq-ok s (err e) store source h = cc h

parsed_loaded :
    (j : Option Json) (s : FileText) (store : StoreData) (source : FileText)
    → with_source s (checked_store j) ≡ ok (store, source)
    → WellFormed store
    → usable_store j ≡ some (loaded store)
parsed_loaded none s store source h w = cc h
parsed_loaded (some not_object) s store source h w = cc h
parsed_loaded (some (object st)) s store source h w =
    let same = checked-eq-ok st.clients st.account_clients st.metadata store source s h in
    accepted st.clients st.account_clients st.metadata store
      (with_source-eq-ok s (checked_store (some (object st))) store source h)
      (subst WellFormed (sym same) w)
    ∙ ap (λ e. some (loaded e)) same

-- The reader accepts the file, with every client and every creator that it parses to.
pub record IsLoaded (p : TokenPlatform) (content : FileText) : Type 0 where
  pub store : StoreData
  pub source : FileText
  pub parsed : parsed_file p (some content) ≡ ok (store, source)
  pub reader : load_store p (some content) ≡ some (loaded store)

module _ {p : TokenPlatform} where
  served-IsLoaded : (content : FileText) → IsServed p content → IsLoaded p content
  unfolding load_store parsed_file
  served-IsLoaded content r = record {
    store = r.store;
    source = r.source;
    parsed = r.parsed;
    reader = parsed_loaded (parse_json p content) content r.store r.source r.parsed r.good;
  }

  -- After any operations on a token file that was absent, or was well formed (at most 100 clients and
  -- 20 creators that the reader's schemas accept, with distinct names), whatever calls of the file
  -- system failed in them, the file, if there is one, parses, and `loadStore` accepts it with every
  -- client and every creator in it (given that a SHA-256 digest is 64 lower-case hex digits).
  pub Reach-load_store :
      (doc : IsDocumented p) (s t : Machine)
      → Serves p s.disk.store
      → Reach p s t
      → (content : FileText) → t.disk.store ≡ some content
      → IsLoaded p content
  Reach-load_store doc s t start r content file =
      served-IsLoaded content
        (subst (Serves p) file (Reach-Keeps doc (StaysServed-IsPolicy p) r start))
