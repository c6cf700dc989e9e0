-- ===== src/Tokens/WellFormed/Changes.antt =====
-- Records that are dropped or rewritten (server/token-store.mjs, `revokeClient`, `rotateClient`,
-- `grantNewBoard`), and the lists that the reader accepts.
use collaborative_ai_whitebo.Prelude.{
  ℕ, ◌≤◌, ◌≡◌, refl, sym, ◌∙◌, ap, Bool, true, false, inl, inr, List, [], ◌∷◌, ◌++◌, length, filter,
  any, all, update_where, Bool-cases, Unique, arith,
}
use collaborative_ai_whitebo.Tokens.Types.{Client}
use collaborative_ai_whitebo.Tokens.Records.{named}
use collaborative_ai_whitebo.Tokens.WellFormed.{names, has-names, any-append}

pub filter-append :
    (q : Client → Bool) (xs ys : List Client) → filter q (xs ++ ys) ≡ filter q xs ++ filter q ys
filter-append q [] ys = refl
filter-append q (x ∷ xs) ys = elim (Bool-cases (q x)) [
  | inl hit ↦ rw hit (ap (λ zs. x ∷ zs) (filter-append q xs ys))
  | inr miss ↦ rw miss (filter-append q xs ys)
]

pub any-filter :
    (q r : Client → Bool) (xs : List Client) → any r xs ≡ false → any r (filter q xs) ≡ false
any-filter q r [] h = h
any-filter q r (x ∷ xs) h = ground (arith, any-filter q r xs)

pub all-filter :
    (q r : Client → Bool) (xs : List Client) → all r xs ≡ true → all r (filter q xs) ≡ true
all-filter q r [] h = h
all-filter q r (x ∷ xs) h = ground (arith, all-filter q r xs)

pub length-filter : (q : Client → Bool) (xs : List Client) → length (filter q xs) ≤ length xs
length-filter q [] = omega arith
length-filter q (x ∷ xs) = ground (arith, length-filter q xs)

pub filter-bound :
    (q : Client → Bool) (xs : List Client) (n : ℕ) → length xs ≤ n → length (filter q xs) ≤ n
filter-bound q xs n h = ground (arith, length-filter q xs, h)

pub Unique-filter :
    (q : Client → Bool) (xs : List Client) → Unique (names xs) → Unique (names (filter q xs))
Unique-filter q [] u = u
Unique-filter q (x ∷ xs) u = elim (Bool-cases (q x)) [
  | inl hit ↦ rw hit (
    has-names x.name (filter q xs)
        ∙ any-filter q (named x.name) xs (sym (has-names x.name xs) ∙ u.0),
    Unique-filter q xs u.1,
  )
  | inr miss ↦ rw miss (Unique-filter q xs u.1)
]

pub Unique-filter-left :
    (q : Client → Bool) (xs ys : List Client)
    → Unique (names (xs ++ ys))
    → Unique (names (filter q xs ++ ys))
Unique-filter-left q [] ys u = u
Unique-filter-left q (x ∷ xs) ys u = elim (Bool-cases (q x)) [
  | inl hit ↦ rw hit (
    has-names x.name (filter q xs ++ ys)
        ∙ ground (
          arith,
          any-append (named x.name) (filter q xs) ys,
          any-append (named x.name) xs ys,
          any-filter q (named x.name) xs,
          has-names x.name (xs ++ ys),
          u.0,
        ),
    Unique-filter-left q xs ys u.1,
  )
  | inr miss ↦ rw miss (Unique-filter-left q xs ys u.1)
]

pub Unique-filter-right :
    (q : Client → Bool) (xs ys : List Client)
    → Unique (names (xs ++ ys))
    → Unique (names (xs ++ filter q ys))
Unique-filter-right q [] ys u = Unique-filter q ys u
Unique-filter-right q (x ∷ xs) ys u = (
  has-names x.name (xs ++ filter q ys)
      ∙ ground (
        arith,
        any-append (named x.name) xs (filter q ys),
        any-append (named x.name) xs ys,
        any-filter q (named x.name) ys,
        has-names x.name (xs ++ ys),
        u.0,
      ),
  Unique-filter-right q xs ys u.1,
)

module _ (q : Client → Bool) where
  filter-pass : (x : Client) (xs : List Client) → q x ≡ true → filter q (x ∷ xs) ≡ x ∷ filter q xs
  filter-pass x xs h = rw h refl

  filter-drop : (x : Client) (xs : List Client) → q x ≡ false → filter q (x ∷ xs) ≡ filter q xs
  filter-drop x xs h = rw h refl

module _ (f : Client → Client) (q : Client → Bool) where
  pub names-update :
      ((c : Client) → (f c).name ≡ c.name)
      → (xs : List Client) → names (update_where q f xs) ≡ names xs
  names-update same [] = refl
  names-update same (x ∷ xs) = elim (Bool-cases (q x)) [
    | inl hit ↦ rw hit (rw (same x) (ap (λ ns. x.name ∷ ns) (names-update same xs)))
    | inr miss ↦ rw miss (ap (λ ns. x.name ∷ ns) (names-update same xs))
  ]

  pub length-update : (xs : List Client) → length (update_where q f xs) ≡ length xs
  length-update [] = refl
  length-update (x ∷ xs) = ground (arith, length-update xs)

  pub all-update :
      (r : Client → Bool)
      → ((c : Client) → r c ≡ true → r (f c) ≡ true)
      → (xs : List Client) → all r xs ≡ true
      → all r (update_where q f xs) ≡ true
  all-update r keep [] h = h
  all-update r keep (x ∷ xs) h = ground (arith, all-update r keep xs, keep x)

  none_pass : (xs : List Client) → filter q xs ≡ [] → update_where q f xs ≡ xs
  none_pass [] h = refl
  none_pass (x ∷ xs) h = elim (Bool-cases (q x)) [
    | inl hit ↦ (let e : x ∷ filter q xs ≡ [] = sym (filter-pass q x xs hit) ∙ h in cc)
    | inr miss ↦ rw miss (ap (λ ys. x ∷ ys) (none_pass xs (sym (filter-drop q x xs miss) ∙ h)))
  ]

  -- Only the one record that passes changes.
  pub all-update-one :
      (r : Client → Bool) (c : Client)
      → r (f c) ≡ true
      → (xs : List Client) → filter q xs ≡ c ∷ []
      → all r xs ≡ true
      → all r (update_where q f xs) ≡ true
  all-update-one r c new [] one h = h
  all-update-one r c new (x ∷ xs) one h = elim (Bool-cases (q x)) [
    | inl hit ↦
        (let e : x ∷ filter q xs ≡ c ∷ [] = sym (filter-pass q x xs hit) ∙ one in
          let same : x ≡ c = cc e in
          let none : filter q xs ≡ [] = cc e in
          rw hit (rw (none_pass xs none) (ground (arith, h, ap (λ y. r (f y)) same ∙ new))))
    | inr miss ↦
        rw miss (ground (arith, h, all-update-one r c new xs (sym (filter-drop q x xs miss) ∙ one)))
  ]
