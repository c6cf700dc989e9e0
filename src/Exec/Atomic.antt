-- ===== src/Exec/Atomic.antt =====
-- Actions that read only, and actions that change nothing when they throw.
use collaborative_ai_whitebo.Prelude.{
  ◌≡◌, ◌≢◌, ◌∙◌, refl, Bool, true, false, Option, none, some, if◌then◌else◌,
}
use collaborative_ai_whitebo.Exec.{
  Result, ok, err, Exec, pure, throw, lift, gets, or_throw, transaction, or_rollback, rethrow,
  or_rethrow, modify, ensure, ◌>>=◌,
}

-- `m` never changes the state.
pub record ReadsOnly {ℓ} {S E A : Type ℓ} (m : Exec S E A) : Type ℓ where
  pub same : (s : S) → (m s).1 ≡ s

-- If `m` throws, the state is what it was.
pub record IsAtomic {ℓ} {S E A : Type ℓ} (m : Exec S E A) : Type ℓ where
  pub unchanged : (s : S) (e : E) → (m s).0 ≡ err e → (m s).1 ≡ s

module _ {ℓ} {S E A : Type ℓ} where
  pub ReadsOnly-pure : (a : A) → ReadsOnly (pure {S = S} {E = E} a)
  unfolding pure
  ReadsOnly-pure a = record { same = λ s. refl }

  pub ReadsOnly-throw : (e : E) → ReadsOnly (throw {S = S} {A = A} e)
  unfolding throw
  ReadsOnly-throw e = record { same = λ s. refl }

  pub ReadsOnly-lift : (r : Result E A) → ReadsOnly (lift {S = S} r)
  unfolding lift
  ReadsOnly-lift r = record { same = λ s. refl }

  pub ReadsOnly-gets : (f : S → A) → ReadsOnly (gets {E = E} f)
  unfolding gets
  ReadsOnly-gets f = record { same = λ s. refl }

  pub ReadsOnly-or_throw : (o : Option A) (e : E) → ReadsOnly (or_throw {S = S} o e)
  unfolding or_throw
  ReadsOnly-or_throw none e = record { same = λ s. refl }
  ReadsOnly-or_throw (some a) e = record { same = λ s. refl }

  pub ReadsOnly-if :
      (b : Bool) (m n : Exec S E A) → ReadsOnly m → ReadsOnly n → ReadsOnly (if b then m else n)
  ReadsOnly-if true m n rm rn = rm
  ReadsOnly-if false m n rm rn = rn

  -- What only reads is atomic.
  pub IsAtomic-of_ReadsOnly : (m : Exec S E A) → ReadsOnly m → IsAtomic m
  IsAtomic-of_ReadsOnly m r = record { unchanged = λ s e h. r.same s }

  pub IsAtomic-if :
      (b : Bool) (m n : Exec S E A) → IsAtomic m → IsAtomic n → IsAtomic (if b then m else n)
  IsAtomic-if true m n rm rn = rm
  IsAtomic-if false m n rm rn = rn

  rolled_back :
      (s t : S) (r : Result E A) (e : E)
      → (or_rollback s (r, t)).0 ≡ err e
      → (or_rollback s (r, t)).1 ≡ s
  rolled_back s t (ok a) e h = cc
  rolled_back s t (err f) e h = refl

  pub IsAtomic-transaction : (m : Exec S E A) → IsAtomic (transaction m)
  unfolding transaction
  IsAtomic-transaction m = record { unchanged = λ s e h. rolled_back s (m s).1 (m s).0 e h }

  rethrown :
      (f : E → E) (r : Result E A) (s t : S) (e : E)
      → ((d : E) → r ≡ err d → t ≡ s)
      → (or_rethrow f (r, t)).0 ≡ err e
      → (or_rethrow f (r, t)).1 ≡ s
  rethrown f (ok a) s t e k h = cc
  rethrown f (err d) s t e k h = k d refl

  pub IsAtomic-rethrow : (f : E → E) (m : Exec S E A) → IsAtomic m → IsAtomic (rethrow f m)
  unfolding rethrow
  IsAtomic-rethrow f m a = record {
    unchanged = λ s e h. rethrown f (m s).0 s (m s).1 e (a.unchanged s) h;
  }

module _ {ℓ} {S E : Type ℓ} where
  pub ReadsOnly-ensure : (b : Bool) (e : E) → ReadsOnly (ensure {S = S} b e)
  unfolding ensure
  ReadsOnly-ensure true e = record { same = λ s. refl }
  ReadsOnly-ensure false e = record { same = λ s. refl }

module _ {ℓ} {S E A B : Type ℓ} where
  then_same :
      (r : Result E A) (f : A → Exec S E B) (s t : S)
      → ((a : A) → ReadsOnly (f a))
      → t ≡ s
      → ((lift r >>= f) t).1 ≡ s
  unfolding ◌>>=◌ lift
  then_same (ok a) f s t k h = (k a).same t ∙ h
  then_same (err e) f s t k h = h

  pub ReadsOnly-bind :
      (m : Exec S E A) (f : A → Exec S E B)
      → ReadsOnly m
      → ((a : A) → ReadsOnly (f a))
      → ReadsOnly (m >>= f)
  unfolding ◌>>=◌ lift
  ReadsOnly-bind m f rm rf = record { same = λ s. then_same (m s).0 f s (m s).1 rf (rm.same s) }

  read_then :
      (r : Result E A) (f : A → Exec S E B) (s t : S) (e : E)
      → t ≡ s
      → ((a : A) → IsAtomic (f a))
      → ((lift r >>= f) t).0 ≡ err e
      → ((lift r >>= f) t).1 ≡ s
  unfolding ◌>>=◌ lift
  read_then (ok a) f s t e p k h = (k a).unchanged t e h ∙ p
  read_then (err d) f s t e p k h = p

  -- What reads first is atomic if the rest is.
  pub IsAtomic-read-bind :
      (m : Exec S E A) (f : A → Exec S E B)
      → ReadsOnly m
      → ((a : A) → IsAtomic (f a))
      → IsAtomic (m >>= f)
  unfolding ◌>>=◌ lift
  IsAtomic-read-bind m f r k = record {
    unchanged = λ s e h. read_then (m s).0 f s (m s).1 e (r.same s) k h;
  }

-- `m` always returns.
pub record NeverThrows {ℓ} {S E A : Type ℓ} (m : Exec S E A) : Type ℓ where
  pub returns : (s : S) (e : E) → (m s).0 ≢ err e

module _ {ℓ} {S E A : Type ℓ} where
  pub NeverThrows-pure : (a : A) → NeverThrows (pure {S = S} {E = E} a)
  unfolding pure
  NeverThrows-pure a = record { returns = λ s e h. cc }

  pub NeverThrows-gets : (f : S → A) → NeverThrows (gets {E = E} f)
  unfolding gets
  NeverThrows-gets f = record { returns = λ s e h. cc }

  pub NeverThrows-if :
      (b : Bool) (m n : Exec S E A)
      → NeverThrows m
      → NeverThrows n
      → NeverThrows (if b then m else n)
  NeverThrows-if true m n rm rn = rm
  NeverThrows-if false m n rm rn = rn

  pub IsAtomic-of_NeverThrows : (m : Exec S E A) → NeverThrows m → IsAtomic m
  IsAtomic-of_NeverThrows m r = record { unchanged = λ s e h. absurd (r.returns s e h) }

module _ {ℓ} {S E : Type ℓ} where
  pub NeverThrows-modify : (f : S → S) → NeverThrows (modify {E = E} f)
  unfolding modify
  NeverThrows-modify f = record { returns = λ s e h. cc }

module _ {ℓ} {S E A B : Type ℓ} where
  then_returns :
      (r : Result E A) (f : A → Exec S E B) (s : S) (e : E)
      → ((d : E) → r ≢ err d)
      → ((a : A) → NeverThrows (f a))
      → ((lift r >>= f) s).0 ≢ err e
  unfolding ◌>>=◌ lift
  then_returns (ok a) f s e p k = (k a).returns s e
  then_returns (err d) f s e p k = λ h. p d refl

  pub NeverThrows-bind :
      (m : Exec S E A) (f : A → Exec S E B)
      → NeverThrows m
      → ((a : A) → NeverThrows (f a))
      → NeverThrows (m >>= f)
  unfolding ◌>>=◌ lift
  NeverThrows-bind m f rm rf = record {
    returns = λ s e. then_returns (m s).0 f (m s).1 e (rm.returns s) rf;
  }

  atomic_then :
      (r : Result E A) (f : A → Exec S E B) (s t : S) (e : E)
      → ((d : E) → r ≡ err d → t ≡ s)
      → ((a : A) → NeverThrows (f a))
      → ((lift r >>= f) t).0 ≡ err e
      → ((lift r >>= f) t).1 ≡ s
  unfolding ◌>>=◌ lift
  atomic_then (ok a) f s t e p k h = absurd ((k a).returns t e h)
  atomic_then (err d) f s t e p k h = p d refl

  -- What is atomic may be followed by what always returns.
  pub IsAtomic-then-bind :
      (m : Exec S E A) (f : A → Exec S E B)
      → IsAtomic m
      → ((a : A) → NeverThrows (f a))
      → IsAtomic (m >>= f)
  unfolding ◌>>=◌ lift
  IsAtomic-then-bind m f am k = record {
    unchanged = λ s e h. atomic_then (m s).0 f s (m s).1 e (am.unchanged s) k h;
  }

pub ruleset reads_rules = (
  ReadsOnly-pure, ReadsOnly-throw, ReadsOnly-lift, ReadsOnly-gets, ReadsOnly-or_throw, ReadsOnly-if,
  ReadsOnly-ensure, ReadsOnly-bind,
)

pub ruleset returns_rules =
    (NeverThrows-pure, NeverThrows-gets, NeverThrows-if, NeverThrows-modify, NeverThrows-bind)
