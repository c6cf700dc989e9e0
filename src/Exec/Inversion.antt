-- ===== src/Exec/Inversion.antt =====
-- What a normal return of an action says of its steps.
use collaborative_ai_whitebo.Prelude.{
  ◌≡◌, ◌≢◌, refl, ◌∙◌, ap, Bool, true, false, Option, none, some, if◌then◌else◌,
}
use mathlib.Core.Path.{subst}
use collaborative_ai_whitebo.Exec.{
  Result, ok, err, Exec, pure, throw, lift, gets, or_throw, transaction, or_rollback, rethrow,
  or_rethrow, ◌>>◌, ensure, ◌>>=◌,
}
use collaborative_ai_whitebo.Exec.Atomic.{ReadsOnly}

module _ {ℓ} {S E A B : Type ℓ} where
  -- The run of `m`, and the run of the rest from the state that it left.
  pub record Splits (m : Exec S E A) (f : A → Exec S E B) (s : S) (b : B) : Type ℓ where
    pub value : A
    pub first : (m s).0 ≡ ok value
    pub second : (f value (m s).1).0 ≡ ok b
    pub final : ((m >>= f) s).1 ≡ (f value (m s).1).1

  split :
      (r : Result E A) (f : A → Exec S E B) (t : S) {b : B}
      → ((lift r >>= f) t).0 ≡ ok b
      → (a : A) × (r ≡ ok a) × ((f a t).0 ≡ ok b) × (((lift r >>= f) t).1 ≡ (f a t).1)
  unfolding ◌>>=◌ lift
  split (ok a) f t h = (a, refl, h, refl)
  split (err e) f t h = cc

  pub Splits-bind :
      (m : Exec S E A) (f : A → Exec S E B) (s : S) {b : B}
      → ((m >>= f) s).0 ≡ ok b
      → Splits m f s b
  unfolding ◌>>=◌ lift
  Splits-bind m f s h =
      let (a, one, two, end) = split (m s).0 f (m s).1 h in
      record { value = a; first = one; second = two; final = end }

module _ {ℓ} {S E A : Type ℓ} where
  committed :
      (s t : S) (r : Result E A) {a : A}
      → (or_rollback s (r, t)).0 ≡ ok a
      → (r ≡ ok a) × ((or_rollback s (r, t)).1 ≡ t)
  committed s t (ok b) h = (h, refl)
  committed s t (err e) h = cc

  -- A transaction that returns has kept the writes of its operation.
  pub transaction-eq-ok :
      (m : Exec S E A) (s : S) {a : A}
      → (transaction m s).0 ≡ ok a
      → ((m s).0 ≡ ok a) × ((transaction m s).1 ≡ (m s).1)
  unfolding transaction
  transaction-eq-ok m s h = committed s (m s).1 (m s).0 h

  kept :
      (f : E → E) (r : Result E A) (t : S) {a : A}
      → (or_rethrow f (r, t)).0 ≡ ok a
      → (r ≡ ok a) × ((or_rethrow f (r, t)).1 ≡ t)
  kept f (ok b) t h = (h, refl)
  kept f (err e) t h = cc

  pub rethrow-eq-ok :
      (f : E → E) (m : Exec S E A) (s : S) {a : A}
      → (rethrow f m s).0 ≡ ok a
      → ((m s).0 ≡ ok a) × ((rethrow f m s).1 ≡ (m s).1)
  unfolding rethrow
  rethrow-eq-ok f m s h = kept f (m s).0 (m s).1 h

  pub or_throw-eq-ok :
      (o : Option A) (e : E) (s : S) {a : A} → (or_throw o e s).0 ≡ ok a → o ≡ some a
  unfolding or_throw
  or_throw-eq-ok none e s h = cc
  or_throw-eq-ok (some b) e s h = cc

  pub lift-eq-ok : (r : Result E A) (s : S) {a : A} → (lift r s).0 ≡ ok a → r ≡ ok a
  unfolding lift
  lift-eq-ok r s h = h

  pub gets-eq-ok : (f : S → A) (s : S) {a : A} → (gets {E = E} f s).0 ≡ ok a → f s ≡ a
  unfolding gets
  gets-eq-ok f s h = cc

module _ {ℓ} {S E : Type ℓ} where
  pub ensure-eq-ok : (b : Bool) (e : E) (s : S) {u : Unit} → (ensure b e s).0 ≡ ok u → b ≡ true
  unfolding ensure
  ensure-eq-ok true e s h = refl
  ensure-eq-ok false e s h = cc

-- The first step of an action that returned, where that step only reads: the rest ran from the same
-- state, and left the final one.
module _ {ℓ} {S E A B : Type ℓ} where
  pub record Reads (m : Exec S E A) (f : A → Exec S E B) (s : S) (b : B) : Type ℓ where
    pub value : A
    pub first : (m s).0 ≡ ok value
    pub second : (f value s).0 ≡ ok b
    pub final : ((m >>= f) s).1 ≡ (f value s).1

  pub read-bind :
      (m : Exec S E A) (f : A → Exec S E B) (s : S) {b : B}
      → ReadsOnly m
      → ((m >>= f) s).0 ≡ ok b
      → Reads m f s b
  read-bind m f s {b} r h =
      let c = Splits-bind m f s h in
      let same = r.same s in
      record {
        value = c.value;
        first = c.first;
        second = subst (λ t. (f c.value t).0 ≡ ok b) same c.second;
        final = c.final ∙ ap (λ t. (f c.value t).1) same;
      }

module _ {ℓ} {S E A : Type ℓ} where
  thrown : (e : E) (s : S) {a : A} → (throw e s).0 ≢ ok a
  unfolding throw
  thrown e s h = cc

module _ {ℓ} {S E A B : Type ℓ} where
  -- `if (!test) { cleanup; throw e }`
  pub if-throw-eq-ok :
      (test : Bool) (cleanup : Exec S E B) (a : A) (e : E) (s : S) {b : A}
      → ((if test then pure a else (cleanup >> throw e)) s).0 ≡ ok b
      → test ≡ true
  if-throw-eq-ok true cleanup a e s h = refl
  if-throw-eq-ok false cleanup a e s h =
      absurd (thrown e _ (Splits-bind cleanup (λ u. throw e) s h).second)
