-- ===== src/Prelude/Sets.antt =====
-- Lists of texts without repetition: JavaScript's `Set`, in insertion order.
use Prim.Native.String.{String}
use mathlib.Core.Path.{◌≡◌, refl, subst}
use mathlib.Core.Bool.{Bool, false, ◌||◌}
use mathlib.Core.Option.{none}
use mathlib.Core.Logic.{inl, inr}
use mathlib.Core.List.{List, [], ◌∷◌, ◌++◌}
use native.Mathlib.Omega.{arith}
use text.Mathlib.Text.{◌==◌}
use text.Mathlib.TextEquality.{eq_iff}
use collaborative_ai_whitebo.Prelude.Tests.{if◌then◌else◌, Bool-cases}
use collaborative_ai_whitebo.Prelude.Lists.{any}
use collaborative_ai_whitebo.Prelude.Maps.{Assoc, lookup, keys}

abbrev pub has : List String → String → Bool
has ids k = any (λ j. j == k) ids

abbrev pub Unique : List String → Type 0
Unique [] = Unit
Unique (id ∷ ids) = (has ids id ≡ false) × Unique ids

-- `set.add(id)`
unfoldable pub add_id : List String → String → List String
add_id ids id = if has ids id then ids else ids ++ id ∷ []

unfoldable pub add_ids : List String → List String → List String
unfolding add_id
add_ids ids [] = ids
add_ids ids (id ∷ rest) = add_ids (add_id ids id) rest

pub has-append :
    (ids jds : List String) (k : String) → has (ids ++ jds) k ≡ (has ids k || has jds k)
has-append [] jds k = refl
has-append (id ∷ ids) jds k = ground (arith, has-append ids jds k)

Unique-snoc :
    (ids : List String) (id : String) → Unique ids → has ids id ≡ false → Unique (ids ++ id ∷ [])
Unique-snoc [] id u h = (refl, tt)
Unique-snoc (j ∷ ids) id u h = (
  ground (arith, has-append ids (id ∷ []) j, eq_iff j id, eq_iff id j, u.0, h),
  Unique-snoc ids id u.1 (ground (arith, h)),
)

add_id-Unique : (ids : List String) (id : String) → Unique ids → Unique (add_id ids id)
unfolding add_id
add_id-Unique ids id u = elim (Bool-cases (has ids id)) [
  | inl hit ↦ rw hit u
  | inr miss ↦ rw miss (Unique-snoc ids id u miss)
]

pub add_ids-Unique : (ids jds : List String) → Unique ids → Unique (add_ids ids jds)
unfolding add_ids
add_ids-Unique ids [] u = u
add_ids-Unique ids (j ∷ jds) u = add_ids-Unique (add_id ids j) jds (add_id-Unique ids j u)

add_id-has : (ids : List String) (id k : String) → has (add_id ids id) k ≡ (has ids k || (id == k))
unfolding add_id
add_id-has ids id k = elim (Bool-cases (id == k)) [
  | inl hit ↦ ground (
    arith,
    has-append ids (id ∷ []) k,
    subst (λ j. has ids id ≡ has ids j) ((eq_iff id k).0 hit) refl,
    hit,
  )
  | inr miss ↦ ground (arith, has-append ids (id ∷ []) k, miss)
]

pub add_ids-has :
    (ids jds : List String) (k : String) → has (add_ids ids jds) k ≡ (has ids k || has jds k)
unfolding add_ids
add_ids-has ids [] k = ground arith
add_ids-has ids (j ∷ jds) k = ground (arith, add_ids-has (add_id ids j) jds k, add_id-has ids j k)

pub lookup-absent {ℓ} :
    {V : Type ℓ} (k : String) (m : Assoc V) → has (keys m) k ≡ false → lookup k m ≡ none
unfolding lookup
lookup-absent k [] h = refl
lookup-absent k ((j, v) ∷ m) h = ground (arith, lookup-absent k m, h)
