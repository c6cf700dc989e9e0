-- ===== src/Tokens/WellFormed.antt =====
-- The parsed token file that the reader of server/tokens.ts accepts whole, and the mutators of
-- server/token-store.mjs.
pub mod Changes
pub mod Mutators
pub mod Grants
use Prim.Native.Nat.{◌+◌}
use collaborative_ai_whitebo.Prelude.{
  ℕ, ◌≤◌, String, ◌≡◌, refl, sym, ◌∙◌, ap, Bool, true, false, not, ◌&&◌, ◌||◌, inl, inr, Option,
  none, some, List, [], ◌∷◌, ◌++◌, map, if◌then◌else◌, ltb, length, filter, any, all, update_where,
  Bool-cases, has, has-append, Unique, arith, ◌==◌, eq_iff,
}
use mathlib.Core.Path.{subst}
use mathlib.Core.List.{append-nil, append_assoc}
use collaborative_ai_whitebo.Exec.{ok, err, pure, gets, modify, ensure, ◌>>=◌, ◌>>◌}
use collaborative_ai_whitebo.Tokens.Types.{
  Client, Collection, listed, malformed, StoreData, clients_of, account_clients_of, all_clients,
  listed_or_empty, unusable,
}
use collaborative_ai_whitebo.Tokens.Reader.{client_schema, account_client_schema}
use collaborative_ai_whitebo.Tokens.Records.{
  named, push_client, push_account_client, add_client, add_account_client,
}

abbrev pub names : List Client → List String
names clients = map (λ client. client.name) clients

abbrev pub is_listed : Collection → Bool
is_listed (listed clients) = true
is_listed malformed = false

pub record WellFormed (store : StoreData) : Type 0 where
  pub listed : is_listed store.clients ≡ true
  pub unique : Unique (names (all_clients store))
  pub clients : all client_schema (clients_of store) ≡ true
  pub client_count : length (clients_of store) ≤ 100
  pub accounts : all account_client_schema (account_clients_of store) ≡ true
  pub account_count : length (account_clients_of store) ≤ 20

all-append : (q : Client → Bool) (xs ys : List Client) → all q (xs ++ ys) ≡ (all q xs && all q ys)
all-append q [] ys = refl
all-append q (x ∷ xs) ys = ground (arith, all-append q xs ys)

pub length-append : (xs ys : List Client) → length (xs ++ ys) ≡ length xs + length ys
length-append [] ys = omega arith
length-append (x ∷ xs) ys = ground (arith, length-append xs ys)

pub has-names : (name : String) (cs : List Client) → has (names cs) name ≡ any (named name) cs
has-names name [] = refl
has-names name (c ∷ cs) = ground (arith, has-names name cs)

pub any-append :
    (q : Client → Bool) (xs ys : List Client) → any q (xs ++ ys) ≡ (any q xs || any q ys)
any-append q [] ys = refl
any-append q (x ∷ xs) ys = ground (arith, any-append q xs ys)

-- A name that no record has may be put anywhere.
pub Unique-insert :
    (c : Client) (xs ys : List Client)
    → any (named c.name) (xs ++ ys) ≡ false
    → Unique (names (xs ++ ys))
    → Unique (names (xs ++ c ∷ ys))
Unique-insert c [] ys h u = (has-names c.name ys ∙ h, u)
Unique-insert c (x ∷ xs) ys h u = (
  has-names x.name (xs ++ c ∷ ys)
      ∙ ground (
        arith,
        any-append (named x.name) xs (c ∷ ys),
        any-append (named x.name) xs ys,
        has-names x.name (xs ++ ys),
        u.0,
        h,
        eq_iff x.name c.name,
        eq_iff c.name x.name,
      ),
  Unique-insert c xs ys (ground (arith, h)) u.1,
)

Unique-snoc :
    (c : Client) (xs : List Client)
    → any (named c.name) xs ≡ false
    → Unique (names xs)
    → Unique (names (xs ++ c ∷ []))
Unique-snoc c xs h u =
    Unique-insert c xs [] (ap (any (named c.name)) (append-nil xs) ∙ h)
      (subst (λ cs. Unique (names cs)) (sym (append-nil xs)) u)

all-snoc :
    (q : Client → Bool) (xs : List Client) (c : Client)
    → all q xs ≡ true
    → q c ≡ true
    → all q (xs ++ c ∷ []) ≡ true
all-snoc q xs c h k = ground (arith, all-append q xs (c ∷ []), h, k)

-- `createClient` adds a record that passes.
pub push_client-WellFormed :
    (c : Client) (store : StoreData)
    → any (named c.name) (all_clients store) ≡ false
    → ltb (length (clients_of store)) 100 ≡ true
    → client_schema c ≡ true
    → WellFormed store
    → WellFormed (push_client c store).1
unfolding push_client modify all_clients account_clients_of
push_client-WellFormed c store fresh room valid w = record {
  listed = refl;
  unique =
      subst (λ cs. Unique (names cs)) (sym (append_assoc (clients_of store) (c ∷ []) _))
        (Unique-insert c (clients_of store) (account_clients_of store) fresh w.unique);
  clients = all-snoc client_schema (clients_of store) c w.clients valid;
  client_count = ground (arith, length-append (clients_of store) (c ∷ []), room);
  accounts = w.accounts;
  account_count = w.account_count;
}

pub push_account_client-WellFormed :
    (c : Client) (store : StoreData)
    → any (named c.name) (all_clients store) ≡ false
    → ltb (length (account_clients_of store)) 20 ≡ true
    → account_client_schema c ≡ true
    → WellFormed store
    → WellFormed (push_account_client c store).1
unfolding push_account_client modify all_clients account_clients_of
push_account_client-WellFormed c store fresh room valid w = record {
  listed = w.listed;
  unique =
      subst (λ cs. Unique (names cs))
        (append_assoc (clients_of store) (account_clients_of store) (c ∷ []))
        (Unique-snoc c (all_clients store) fresh w.unique);
  clients = w.clients;
  client_count = w.client_count;
  accounts = all-snoc account_client_schema (account_clients_of store) c w.accounts valid;
  account_count = ground (arith, length-append (account_clients_of store) (c ∷ []), room);
}
