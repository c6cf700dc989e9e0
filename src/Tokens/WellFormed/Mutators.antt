-- ===== src/Tokens/WellFormed/Mutators.antt =====
-- The mutators of server/token-store.mjs keep the file one that the reader accepts whole.
use collaborative_ai_whitebo.Prelude.{
  ℕ, String, ◌≡◌, refl, sym, ◌∙◌, ap, Bool, true, false, Option, none, some, List, [], ◌∷◌, ◌++◌,
  length, all, update_where, Unique, arith,
}
use mathlib.Core.Path.{subst}
use collaborative_ai_whitebo.Exec.{modify, for_each}
use collaborative_ai_whitebo.Exec.Keeps.{
  IsPreorder, Keeps, Keeps-bind, Keeps-modify, ensure-at, gets-at, keeps_rules,
}
use collaborative_ai_whitebo.Tokens.Types.{
  Client, Collection, listed, malformed, StoreData, clients_of, account_clients_of, all_clients,
  listed_or_empty, TokenFailure, Value,
}
use collaborative_ai_whitebo.Tokens.Platform.{TokenPlatform, Checked}
use collaborative_ai_whitebo.Tokens.Reader.{client_schema, account_client_schema, hash_text}
use collaborative_ai_whitebo.Tokens.Records.{
  add_client, add_account_client, LocateOptions, run_authorise, keep_listed, edit_accounts,
  edit_records, locate_clients, remove_accounts, remove_ordinary, remove_targets, remove_clients,
  rotated_record, rotated_fields, replace_token,
}
use collaborative_ai_whitebo.Tokens.WellFormed.{
  WellFormed, is_listed, names, push_client-WellFormed, push_account_client-WellFormed,
}
use collaborative_ai_whitebo.Tokens.WellFormed.Changes.{
  all-filter, filter-bound, Unique-filter-left, Unique-filter-right, names-update, length-update,
  all-update,
}

-- A change that keeps a file that the reader accepts whole.
abbrev pub Sound : StoreData → StoreData → Type 0
Sound store changed = WellFormed store → WellFormed changed

pub Sound-IsPreorder : IsPreorder Sound
Sound-IsPreorder = record { same = λ s w. w; trans = λ s t u g h w. h (g w) }

pub add_client-Sound : (c : Client) → client_schema c ≡ true → Keeps Sound (add_client c)
unfolding add_client
add_client-Sound c valid = record {
  at = λ store. gets-at Sound _ _ store (
      ensure-at Sound _ _ _ store (λ w. w)
        (λ fresh.
          ensure-at Sound _ _ _ store (λ w. w)
            (λ room w. push_client-WellFormed c store (ground (arith, fresh)) room valid w)));
}

pub add_account_client-Sound :
    (c : Client) → account_client_schema c ≡ true → Keeps Sound (add_account_client c)
unfolding add_account_client
add_account_client-Sound c valid = record {
  at = λ store. gets-at Sound _ _ store (
      ensure-at Sound _ _ _ store (λ w. w)
        (λ usable.
          ensure-at Sound _ _ _ store (λ w. w)
            (λ fresh.
              ensure-at Sound _ _ _ store (λ w. w)
                (λ room w.
                  push_account_client-WellFormed c store (ground (arith, fresh)) room valid w))));
}

run_authorise-Sound :
    (o : Option (Client → Checked Bool)) (c : Client) → Keeps Sound (run_authorise o c)
run_authorise-Sound none c = search (Sound-IsPreorder, keeps_rules)
run_authorise-Sound (some authorise) c = search (Sound-IsPreorder, keeps_rules)

authorise_each-Sound :
    (o : Option (Client → Checked Bool)) (cs : List Client)
    → Keeps Sound (for_each cs (run_authorise o))
unfolding for_each
authorise_each-Sound o [] = search (Sound-IsPreorder, keeps_rules)
authorise_each-Sound o (c ∷ cs) =
    Keeps-bind Sound-IsPreorder _ _ (run_authorise-Sound o c) (λ u. authorise_each-Sound o cs)

-- `f` rewrites records in place, and keeps what the reader asks of them.
pub record IsFit (f : List Client → List Client) : Type 0 where
  pub empty : f [] ≡ []
  pub same_names : (xs : List Client) → names (f xs) ≡ names xs
  pub clients : (xs : List Client) → all client_schema xs ≡ true → all client_schema (f xs) ≡ true
  pub accounts :
      (xs : List Client)
      → all account_client_schema xs ≡ true
      → all account_client_schema (f xs) ≡ true
  pub count : (xs : List Client) → length (f xs) ≡ length xs

keep_listed-clients :
    (f : List Client → List Client) (c : Collection) (rest : Option Collection)
    → f [] ≡ []
    → listed_or_empty (some (keep_listed f c)) ≡ f (listed_or_empty (some c))
keep_listed-clients f (listed clients) rest h = refl
keep_listed-clients f malformed rest h = sym h

keep_listed-listed :
    (f : List Client → List Client) (c : Collection) → is_listed (keep_listed f c) ≡ is_listed c
keep_listed-listed f (listed clients) = refl
keep_listed-listed f malformed = refl

pub edit_accounts-clients :
    (f : List Client → List Client) (o : Option Collection)
    → f [] ≡ []
    → listed_or_empty (edit_accounts f o) ≡ f (listed_or_empty o)
edit_accounts-clients f none h = sym h
edit_accounts-clients f (some c) h = keep_listed-clients f c none h

pub clients-edit :
    (f : List Client → List Client) (c : Collection) (store : StoreData)
    → f [] ≡ []
    → clients_of (record store { clients = keep_listed f c })
      ≡ f (clients_of (record store { clients = c }))
clients-edit f (listed clients) store h = refl
clients-edit f malformed store h = sym h

names-append : (xs ys : List Client) → names (xs ++ ys) ≡ names xs ++ names ys
names-append [] ys = refl
names-append (x ∷ xs) ys = ap (λ ns. x.name ∷ ns) (names-append xs ys)

pub Unique-renamed :
    (f g : List Client → List Client) (xs ys : List Client)
    → names (f xs) ≡ names xs
    → names (g ys) ≡ names ys
    → Unique (names (xs ++ ys))
    → Unique (names (f xs ++ g ys))
Unique-renamed f g xs ys h k u =
    subst Unique (names-append xs ys ∙ sym (rw (names-append (f xs) (g ys), h, k) refl)) u

pub edit_records-WellFormed :
    (f : List Client → List Client) (store : StoreData)
    → IsFit f
    → Sound store (edit_records f store)
unfolding all_clients account_clients_of
edit_records-WellFormed f store fit w =
    let xs = clients_of store in
    let ys = account_clients_of store in
    let ordinary : clients_of (edit_records f store) ≡ f xs =
      clients-edit f store.clients store fit.empty in
    let accounts : account_clients_of (edit_records f store) ≡ f ys =
      edit_accounts-clients f store.account_clients fit.empty in
    record {
      listed = keep_listed-listed f store.clients ∙ w.listed;
      unique =
          rw (ordinary, accounts)
            (Unique-renamed f f xs ys (fit.same_names xs) (fit.same_names ys) w.unique);
      clients = rw ordinary (fit.clients xs w.clients);
      client_count = rw (ordinary, fit.count xs) w.client_count;
      accounts = rw accounts (fit.accounts ys w.accounts);
      account_count = rw (accounts, fit.count ys) w.account_count;
    }

module _ (p : TokenPlatform) where
  locate_clients-Sound :
      (name : String) (options : LocateOptions) → Keeps Sound (locate_clients p name options)
  unfolding locate_clients
  locate_clients-Sound name options =
      search (Sound-IsPreorder, authorise_each-Sound, keeps_rules) depth 20

  remove_ordinary-Sound :
      (name : String) (options : LocateOptions) → Keeps Sound (remove_ordinary p name options)
  unfolding remove_ordinary all_clients
  remove_ordinary-Sound name options = Keeps-modify _ (λ store w. record {
    listed = refl;
    unique = Unique-filter-left _ (clients_of store) (account_clients_of store) w.unique;
    clients = all-filter _ client_schema (clients_of store) w.clients;
    client_count = filter-bound _ (clients_of store) 100 w.client_count;
    accounts = w.accounts;
    account_count = w.account_count;
  })

  remove_accounts-Sound :
      (name : String) (options : LocateOptions) (b : Bool)
      → Keeps Sound (remove_accounts p name options b)
  unfolding remove_accounts all_clients account_clients_of
  remove_accounts-Sound name options false = search (Sound-IsPreorder, keeps_rules)
  remove_accounts-Sound name options true = Keeps-modify _ (λ store w. record {
    listed = w.listed;
    unique = Unique-filter-right _ (clients_of store) (account_clients_of store) w.unique;
    clients = w.clients;
    client_count = w.client_count;
    accounts = all-filter _ account_client_schema (account_clients_of store) w.accounts;
    account_count = filter-bound _ (account_clients_of store) 20 w.account_count;
  })

  pub remove_clients-Sound :
      (name : String) (options : LocateOptions) → Keeps Sound (remove_clients p name options)
  unfolding remove_clients remove_targets
  remove_clients-Sound name options =
      search
        (
          Sound-IsPreorder, locate_clients-Sound, remove_ordinary-Sound, remove_accounts-Sound,
          keeps_rules,
        )
        depth 20

  rotated-client :
      (hash : String) (expiry : Option Value) (now : ℕ) (c : Client)
      → hash_text hash ≡ true
      → client_schema c ≡ true
      → client_schema (rotated_record p hash expiry now c) ≡ true
  unfolding client_schema rotated_record
  rotated-client hash expiry now c h k = ground (arith, h, k)

  rotated-account :
      (hash : String) (expiry : Option Value) (now : ℕ) (c : Client)
      → hash_text hash ≡ true
      → account_client_schema c ≡ true
      → account_client_schema (rotated_record p hash expiry now c) ≡ true
  unfolding account_client_schema rotated_record
  rotated-account hash expiry now c h k = ground (arith, h, k)

  rotate-IsFit :
      (q : Client → Bool) (hash : String) (expiry : Option Value) (now : ℕ)
      → hash_text hash ≡ true
      → IsFit (update_where q (rotated_record p hash expiry now))
  unfolding rotated_record
  rotate-IsFit q hash expiry now h =
      let f = rotated_record p hash expiry now in
      record {
        empty = refl;
        same_names = names-update f q (λ c. refl);
        clients = all-update f q client_schema (λ c. rotated-client hash expiry now c h);
        accounts = all-update f q account_client_schema (λ c. rotated-account hash expiry now c h);
        count = length-update f q;
      }

  swap-Sound :
      (q : Client → Bool) (hash : String) (expiry : Option Value) (now : ℕ)
      → hash_text hash ≡ true
      → Keeps {E = TokenFailure} Sound
          (modify (edit_records (update_where q (rotated_record p hash expiry now))))
  swap-Sound q hash expiry now h =
      Keeps-modify _ (λ store. edit_records-WellFormed _ store (rotate-IsFit q hash expiry now h))

  pub replace_token-Sound :
      (name : String) (options : LocateOptions) (hash : String) (expiry : Option Value) (now : ℕ)
      → hash_text hash ≡ true
      → Keeps Sound (replace_token p name options hash expiry now)
  unfolding replace_token rotated_fields
  replace_token-Sound name options hash expiry now h =
      search (Sound-IsPreorder, locate_clients-Sound, swap-Sound, keeps_rules) depth 30
