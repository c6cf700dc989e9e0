-- ===== src/Prelude/Growth.antt =====
-- Tables whose rows change in place by a relation and whose new rows come last.
use mathlib.Core.Path.{◌≡◌, refl, ◌∙◌, sym, subst}
use mathlib.Core.Bool.{Bool, true, false}
use mathlib.Core.Option.{Option, none, some}
use mathlib.Core.Logic.{inl, inr}
use mathlib.Core.List.{List, [], ◌∷◌, ◌++◌}
use native.Mathlib.Omega.{arith}
use collaborative_ai_whitebo.Prelude.Tests.{if◌then◌else◌, Bool-cases, or_else}
use collaborative_ai_whitebo.Prelude.Lists.{find?, update_where}

module _ {ℓ} {A : Type ℓ} (R : A → A → Type ℓ) where
  abbrev pub Grows : List A → List A → Type ℓ
  Grows [] ys = Unit
  Grows (x ∷ xs) [] = Unit → ⊥
  Grows (x ∷ xs) (y ∷ ys) = R x y × Grows xs ys

  pub Grows-refl : ((x : A) → R x x) → (xs : List A) → Grows xs xs
  Grows-refl r [] = tt
  Grows-refl r (x ∷ xs) = (r x, Grows-refl r xs)

  pub Grows-trans :
      ((x y z : A) → R x y → R y z → R x z)
      → (xs ys zs : List A) → Grows xs ys
      → Grows ys zs
      → Grows xs zs
  Grows-trans t [] ys zs g h = tt
  Grows-trans t (x ∷ xs) [] zs g h = absurd (g tt)
  Grows-trans t (x ∷ xs) (y ∷ ys) [] g h = absurd (h tt)
  Grows-trans t (x ∷ xs) (y ∷ ys) (z ∷ zs) g h = (t x y z g.0 h.0, Grows-trans t xs ys zs g.1 h.1)

  pub Grows-append : ((x : A) → R x x) → (xs ys : List A) → Grows xs (xs ++ ys)
  Grows-append r [] ys = tt
  Grows-append r (x ∷ xs) ys = (r x, Grows-append r xs ys)

  updated :
      (p : A → Bool) (f : A → A) (x : A) (b : Bool)
      → R x x
      → (b ≡ true → R x (f x))
      → R x (if b then f x else x)
  updated p f x true r u = u refl
  updated p f x false r u = r

  pub Grows-update :
      ((x : A) → R x x)
      → (p : A → Bool) (f : A → A) → ((x : A) → p x ≡ true → R x (f x))
      → (xs : List A) → Grows xs (update_where p f xs)
  Grows-update r p f u [] = tt
  Grows-update r p f u (x ∷ xs) = (updated p f x (p x) (r x) (u x), Grows-update r p f u xs)

  -- What is found by a key that `R` keeps is still found, as a successor.
  pub find?-Grows :
      (key : A → Bool)
      → ((x y : A) → R x y → key x ≡ key y)
      → (xs ys : List A) (x : A) → Grows xs ys
      → find? key xs ≡ some x
      → (y : A) × (find? key ys ≡ some y) × R x y
  find?-Grows key k [] ys x g h = cc
  find?-Grows key k (a ∷ xs) [] x g h = absurd (g tt)
  find?-Grows key k (a ∷ xs) (b ∷ ys) x g h = elim (Bool-cases (key a)) [
    | inl hit ↦
        let e : a ≡ x = cc (rw hit at h) in
        (b, rw (sym (k a b g.0) ∙ hit), subst (λ z. R z b) e g.0)
    | inr miss ↦
        let found = find?-Grows key k xs ys x g.1 (rw miss at h) in
        (found.0, rw (sym (k a b g.0) ∙ miss) found.1, found.2)
  ]

module _ {ℓ} {A : Type ℓ} where
  -- a row after UPDATE … SET f WHERE p
  abbrev pub changed : (A → Bool) → (A → A) → A → A
  changed p f x = if p x then f x else x

  abbrev pub changed? : (A → Bool) → (A → A) → Option A → Option A
  changed? p f none = none
  changed? p f (some x) = some (changed p f x)

  -- An UPDATE that keeps the key changes what a lookup finds, and nothing else of it.
  pub find?-update :
      (key p : A → Bool) (f : A → A)
      → ((x : A) → key (f x) ≡ key x)
      → (xs : List A) → find? key (update_where p f xs) ≡ changed? p f (find? key xs)
  find?-update key p f k [] = refl
  find?-update key p f k (x ∷ xs) = ground (arith, k x, find?-update key p f k xs)

  -- A new row at the end is found if no other row has the key.
  pub find?-append :
      (key : A → Bool) (x : A) (xs : List A)
      → find? key (xs ++ x ∷ []) ≡ or_else (find? key xs) (if key x then some x else none)
  find?-append key x [] = refl
  find?-append key x (y ∷ ys) = ground (arith, find?-append key x ys)
