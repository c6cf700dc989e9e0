-- ===== src/Exec/Keeps.antt =====
-- What an action does to the state, as a relation between the states before and after: one rule for
-- each way to build an action, for a relation that is reflexive and transitive.
use collaborative_ai_whitebo.Prelude.{
  ◌≡◌, refl, sym, Bool, true, false, Option, none, some, if◌then◌else◌,
}
use mathlib.Core.Path.{subst}
use collaborative_ai_whitebo.Exec.Atomic.{ReadsOnly}
use collaborative_ai_whitebo.Exec.{
  Result, ok, err, Exec, pure, throw, lift, gets, or_throw, transaction, or_rollback, rethrow,
  or_rethrow, handle, or_handle, finally, concluded, modify, ensure, ◌>>=◌,
}

pub record IsPreorder {ℓ} {S : Type ℓ} (R : S → S → Type ℓ) : Type ℓ where
  pub same : (s : S) → R s s
  pub trans : (s t u : S) → R s t → R t u → R s u

-- `m` moves along `R`, whether it returns or throws.
pub record Keeps {ℓ} {S E A : Type ℓ} (R : S → S → Type ℓ) (m : Exec S E A) : Type ℓ where
  pub at : (s : S) → R s (m s).1

module _ {ℓ} {S E A : Type ℓ} (R : S → S → Type ℓ) where
  rolled_back : (s t : S) (r : Result E A) → R s s → R s t → R s (or_rollback s (r, t)).1
  rolled_back s t (ok a) hs ht = ht
  rolled_back s t (err e) hs ht = hs

  rethrown : (f : E → E) (r : Result E A) (s t : S) → R s t → R s (or_rethrow f (r, t)).1
  rethrown f (ok a) s t h = h
  rethrown f (err e) s t h = h

  at_end : (r : Result E A) (q : Result E Unit) (s t : S) → R s t → R s (concluded r (q, t)).1
  at_end r (ok u) s t h = h
  at_end r (err e) s t h = h

module _ {ℓ} {S E A : Type ℓ} {R : S → S → Type ℓ} where
  pub Keeps-pure : IsPreorder R → (a : A) → Keeps R (pure {E = E} a)
  unfolding pure
  Keeps-pure o a = record { at = o.same }

  pub Keeps-throw : IsPreorder R → (e : E) → Keeps R (throw {A = A} e)
  unfolding throw
  Keeps-throw o e = record { at = o.same }

  pub Keeps-lift : IsPreorder R → (r : Result E A) → Keeps R (lift r)
  unfolding lift
  Keeps-lift o r = record { at = o.same }

  pub Keeps-gets : IsPreorder R → (f : S → A) → Keeps R (gets {E = E} f)
  unfolding gets
  Keeps-gets o f = record { at = o.same }

  pub Keeps-or_throw : IsPreorder R → (a : Option A) (e : E) → Keeps R (or_throw a e)
  unfolding or_throw
  Keeps-or_throw o none e = record { at = o.same }
  Keeps-or_throw o (some a) e = record { at = o.same }

  pub Keeps-if :
      (b : Bool) (m n : Exec S E A) → Keeps R m → Keeps R n → Keeps R (if b then m else n)
  Keeps-if true m n km kn = km
  Keeps-if false m n km kn = kn

  pub Keeps-transaction : IsPreorder R → (m : Exec S E A) → Keeps R m → Keeps R (transaction m)
  unfolding transaction
  Keeps-transaction o m k = record { at = λ s. rolled_back R s (m s).1 (m s).0 (o.same s) (k.at s) }

  pub Keeps-rethrow : (f : E → E) (m : Exec S E A) → Keeps R m → Keeps R (rethrow f m)
  unfolding rethrow
  Keeps-rethrow f m k = record { at = λ s. rethrown R f (m s).0 s (m s).1 (k.at s) }

  handled :
      IsPreorder R
      → (r : Result E A) (f : E → Exec S E A) (s t : S) → ((e : E) → Keeps R (f e))
      → R s t
      → R s (or_handle (r, t) f).1
  handled o (ok a) f s t k h = h
  handled o (err e) f s t k h = o.trans s t (f e t).1 h ((k e).at t)

  pub Keeps-handle :
      IsPreorder R
      → (m : Exec S E A) (f : E → Exec S E A) → Keeps R m
      → ((e : E) → Keeps R (f e))
      → Keeps R (handle m f)
  unfolding handle
  Keeps-handle o m f km kf = record { at = λ s. handled o (m s).0 f s (m s).1 kf (km.at s) }

  pub Keeps-finally :
      IsPreorder R
      → (m : Exec S E A) (cleanup : Exec S E Unit) → Keeps R m
      → Keeps R cleanup
      → Keeps R (finally m cleanup)
  unfolding finally
  Keeps-finally o m cleanup km kc = record {
    at = λ s.
        at_end R (m s).0 (cleanup (m s).1).0 s (cleanup (m s).1).1
          (o.trans s (m s).1 (cleanup (m s).1).1 (km.at s) (kc.at (m s).1));
  }

module _ {ℓ} {S E : Type ℓ} {R : S → S → Type ℓ} where
  pub Keeps-ensure : IsPreorder R → (b : Bool) (e : E) → Keeps R (ensure b e)
  unfolding ensure
  Keeps-ensure o true e = record { at = o.same }
  Keeps-ensure o false e = record { at = o.same }

  pub Keeps-modify : (f : S → S) → ((s : S) → R s (f s)) → Keeps R (modify {E = E} f)
  unfolding modify
  Keeps-modify f k = record { at = k }

module _ {ℓ} {S E A B : Type ℓ} {R : S → S → Type ℓ} where
  continued :
      IsPreorder R
      → (r : Result E A) (f : A → Exec S E B) (s t : S) → ((a : A) → Keeps R (f a))
      → R s t
      → R s ((lift r >>= f) t).1
  unfolding ◌>>=◌ lift
  continued o (ok a) f s t k h = o.trans s t (f a t).1 h ((k a).at t)
  continued o (err e) f s t k h = h

  -- The same from one state.
  pub bind-at :
      IsPreorder R
      → (m : Exec S E A) (f : A → Exec S E B) (s : S) → R s (m s).1
      → ((a : A) → Keeps R (f a))
      → R s ((m >>= f) s).1
  unfolding ◌>>=◌ lift
  bind-at o m f s h kf = continued o (m s).0 f s (m s).1 kf h

  pub Keeps-bind :
      IsPreorder R
      → (m : Exec S E A) (f : A → Exec S E B) → Keeps R m
      → ((a : A) → Keeps R (f a))
      → Keeps R (m >>= f)
  unfolding ◌>>=◌ lift
  Keeps-bind o m f km kf = record { at = λ s. continued o (m s).0 f s (m s).1 kf (km.at s) }

-- The rest of an action may use what its first step has checked.
module _ {ℓ} {S E A B : Type ℓ} {R : S → S → Type ℓ} where
  lifted :
      IsPreorder R
      → (r : Result E A) (f : A → Exec S E B) (s : S) → ((a : A) → r ≡ ok a → Keeps R (f a))
      → R s ((lift r >>= f) s).1
  unfolding ◌>>=◌ lift
  lifted o (ok a) f s k = (k a refl).at s
  lifted o (err e) f s k = o.same s

  pub Keeps-lift-bind :
      IsPreorder R
      → (r : Result E A) (f : A → Exec S E B) → ((a : A) → r ≡ ok a → Keeps R (f a))
      → Keeps R (lift r >>= f)
  Keeps-lift-bind o r f k = record { at = λ s. lifted o r f s k }

  present :
      IsPreorder R
      → (a : Option A) (e : E) (f : A → Exec S E B) (s : S) → ((x : A) → a ≡ some x → Keeps R (f x))
      → R s ((or_throw a e >>= f) s).1
  unfolding ◌>>=◌ or_throw
  present o none e f s k = o.same s
  present o (some x) e f s k = (k x refl).at s

  pub Keeps-or_throw-bind :
      IsPreorder R
      → (a : Option A) (e : E) (f : A → Exec S E B) → ((x : A) → a ≡ some x → Keeps R (f x))
      → Keeps R (or_throw a e >>= f)
  Keeps-or_throw-bind o a e f k = record { at = λ s. present o a e f s k }

module _ {ℓ} {S E B : Type ℓ} where
  pub ensure-at :
      (R : S → S → Type ℓ) (b : Bool) (e : E) (f : Unit → Exec S E B) (s : S)
      → R s s
      → (b ≡ true → R s (f tt s).1)
      → R s ((ensure b e >>= f) s).1
  unfolding ◌>>=◌ ensure
  ensure-at R true e f s o k = k refl
  ensure-at R false e f s o k = o

module _ {ℓ} {S E A B : Type ℓ} where
  pub gets-at :
      (R : S → S → Type ℓ) (g : S → A) (f : A → Exec S E B) (s : S)
      → R s (f (g s) s).1
      → R s ((gets g >>= f) s).1
  unfolding ◌>>=◌ gets
  gets-at R g f s h = h

module _ {ℓ} {S E B : Type ℓ} {R : S → S → Type ℓ} where
  pub Keeps-ensure-bind :
      IsPreorder R
      → (b : Bool) (e : E) (f : Unit → Exec S E B) → (b ≡ true → Keeps R (f tt))
      → Keeps R (ensure b e >>= f)
  Keeps-ensure-bind o b e f k = record {
    at = λ s. ensure-at R b e f s (o.same s) (λ h. (k h).at s);
  }

pub ruleset keeps_rules = (
  Keeps-pure, Keeps-throw, Keeps-lift, Keeps-gets, Keeps-or_throw, Keeps-if, Keeps-transaction,
  Keeps-rethrow, Keeps-handle, Keeps-finally, Keeps-ensure, Keeps-modify, Keeps-bind,
)

-- What only reads moves along every reflexive relation.
module _ {ℓ} {S E A : Type ℓ} {R : S → S → Type ℓ} where
  pub Keeps-of_ReadsOnly : IsPreorder R → (m : Exec S E A) → ReadsOnly m → Keeps R m
  Keeps-of_ReadsOnly o m r = record { at = λ s. subst (R s) (sym (r.same s)) (o.same s) }
