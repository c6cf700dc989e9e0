-- ===== src/Prelude/Maps.antt =====
-- JavaScript's `Map` with text keys: entries in insertion order. `set` overwrites in place or
-- appends; `delete` drops the entry.
use Prim.Native.String.{String}
use mathlib.Core.Path.{◌≡◌, refl, subst}
use mathlib.Core.Bool.{true, false}
use mathlib.Core.Logic.{inl, inr}
use mathlib.Core.Option.{Option, none, some}
use mathlib.Core.List.{List, [], ◌∷◌, map}
use native.Mathlib.Omega.{arith}
use text.Mathlib.Text.{◌==◌}
use text.Mathlib.TextEquality.{eq_iff}
use collaborative_ai_whitebo.Prelude.Tests.{if◌then◌else◌, Bool-cases}

abbrev pub Assoc {ℓ} : Type ℓ → Type ℓ
Assoc V = List (String × V)

module _ {ℓ} {V : Type ℓ} where
  unfoldable pub lookup : String → Assoc V → Option V
  lookup k [] = none
  lookup k ((j, v) ∷ m) = let rest = lookup k m in if j == k then some v else rest

  unfoldable pub set : String → V → Assoc V → Assoc V
  set k v [] = (k, v) ∷ []
  set k v ((j, w) ∷ m) = let rest = set k v m in if j == k then (k, v) ∷ m else (j, w) ∷ rest

  unfoldable pub delete : String → Assoc V → Assoc V
  delete k [] = []
  delete k ((j, w) ∷ m) = let rest = delete k m in if j == k then rest else (j, w) ∷ rest

  -- `new Map(entries)`, where a later entry overwrites an earlier one
  unfoldable pub set_all : List (String × V) → Assoc V → Assoc V
  set_all [] m = m
  set_all ((k, v) ∷ es) m = set_all es (set k v m)

  pub lookup-set :
      (k j : String) (v : V) (m : Assoc V)
      → lookup j (set k v m) ≡ (if k == j then some v else lookup j m)
  unfolding lookup set
  lookup-set k j v [] = refl
  lookup-set k j v ((i, w) ∷ m) =
      ground (arith, eq_iff k j, eq_iff i k, eq_iff i j, lookup-set k j v m)

  pub lookup-delete :
      (k j : String) (m : Assoc V) → lookup j (delete k m) ≡ (if k == j then none else lookup j m)
  unfolding lookup delete
  lookup-delete k j [] = ground arith
  lookup-delete k j ((i, w) ∷ m) =
      ground (arith, eq_iff k j, eq_iff i k, eq_iff i j, lookup-delete k j m)

  pub set-here :
      (k j : String) (v : V) (m : Assoc V) → (k == j) ≡ true → lookup j (set k v m) ≡ some v
  set-here k j v m hit = rw (lookup-set k j v m, hit) refl

  pub set-elsewhere :
      (k j : String) (v : V) (m : Assoc V) → (k == j) ≡ false → lookup j (set k v m) ≡ lookup j m
  set-elsewhere k j v m miss = rw (lookup-set k j v m, miss) refl

  pub delete-here : (k j : String) (m : Assoc V) → (k == j) ≡ true → lookup j (delete k m) ≡ none
  delete-here k j m hit = rw (lookup-delete k j m, hit) refl

  pub delete-elsewhere :
      (k j : String) (m : Assoc V) → (k == j) ≡ false → lookup j (delete k m) ≡ lookup j m
  delete-elsewhere k j m miss = rw (lookup-delete k j m, miss) refl

  pub lookup-empty : (k : String) → lookup k [] ≡ none
  unfolding lookup
  lookup-empty k = refl

-- Each key once.
module _ {ℓ} {V : Type ℓ} where
  abbrev pub Distinct : Assoc V → Type ℓ
  Distinct [] = Unit
  Distinct ((k, v) ∷ m) = (lookup k m ≡ none) × Distinct m

  pub lookup-cons :
      (k j : String) (v : V) (m : Assoc V)
      → lookup k ((j, v) ∷ m) ≡ (if j == k then some v else lookup k m)
  unfolding lookup
  lookup-cons k j v m = refl

  pub lookup-first : (j : String) (v : V) (m : Assoc V) → lookup j ((j, v) ∷ m) ≡ some v
  unfolding lookup
  lookup-first j v m = ground (arith, eq_iff j j)

  pub lookup-later :
      (k j : String) (v : V) (m : Assoc V) → (j == k) ≡ false → lookup k ((j, v) ∷ m) ≡ lookup k m
  unfolding lookup
  lookup-later k j v m miss = rw miss refl

  pub Distinct-set : (k : String) (v : V) (m : Assoc V) → Distinct m → Distinct (set k v m)
  unfolding set
  Distinct-set k v [] d = (lookup-empty k, tt)
  Distinct-set k v ((j, w) ∷ m) d = elim (Bool-cases (j == k)) [
    | inl hit ↦ rw hit (subst (λ i. lookup i m ≡ none) ((eq_iff j k).0 hit) d.0, d.1)
    | inr miss ↦ rw miss (
      ground (arith, lookup-set k j v m, eq_iff j k, eq_iff k j, d.0, miss),
      Distinct-set k v m d.1,
    )
  ]

  pub Distinct-delete : (k : String) (m : Assoc V) → Distinct m → Distinct (delete k m)
  unfolding delete
  Distinct-delete k [] d = tt
  Distinct-delete k ((j, w) ∷ m) d = elim (Bool-cases (j == k)) [
    | inl hit ↦ rw hit (Distinct-delete k m d.1)
    | inr miss ↦ rw miss (
      ground (arith, lookup-delete k j m, eq_iff j k, eq_iff k j, d.0, miss),
      Distinct-delete k m d.1,
    )
  ]

abbrev pub values {ℓ} : {V : Type ℓ} → Assoc V → List V
values = map (λ e. e.1)

abbrev pub keys {ℓ} : {V : Type ℓ} → Assoc V → List String
keys = map (λ e. e.0)

pub ruleset map_laws = (lookup-set, lookup-delete, lookup-empty)
