-- ===== src/Exec.antt =====
-- Methods that change an object and may throw: the state comes back beside the error too, since
-- what was written before a throw stays written unless a transaction rolls it back.
pub mod Keeps
pub mod Atomic
pub mod Inversion
use collaborative_ai_whitebo.Prelude.{Bool, true, false, Option, none, some, List, [], ◌∷◌}

pub data Result {ℓ} (E A : Type ℓ) : Type ℓ where
  ok : A → Result E A
  err : E → Result E A

abbrev pub Exec {ℓ} : Type ℓ → Type ℓ → Type ℓ → Type ℓ
Exec S E A = S → Result E A × S

module _ {ℓ} {S E A : Type ℓ} where
  unfoldable pub pure : A → Exec S E A
  pure a s = (ok a, s)

  unfoldable pub throw : E → Exec S E A
  throw e s = (err e, s)

  unfoldable pub lift : Result E A → Exec S E A
  lift r s = (r, s)

  unfoldable pub gets : (S → A) → Exec S E A
  gets f s = (ok (f s), s)

  -- A value that must be present.
  unfoldable pub or_throw : Option A → E → Exec S E A
  or_throw none e s = (err e, s)
  or_throw (some a) e s = (ok a, s)

  abbrev pub or_rollback : S → Result E A × S → Result E A × S
  or_rollback s (ok a, s') = (ok a, s')
  or_rollback s (err e, s') = (err e, s)

  -- `database.transaction(operation)()`: a throw undoes every write of the operation.
  unfoldable pub transaction : Exec S E A → Exec S E A
  transaction m s = or_rollback s (m s)

  abbrev pub or_handle : Result E A × S → (E → Exec S E A) → Result E A × S
  or_handle (ok a, s) f = (ok a, s)
  or_handle (err e, s) f = f e s

  -- `try { m } catch (error) { f(error) }`
  unfoldable pub handle : Exec S E A → (E → Exec S E A) → Exec S E A
  handle m f s = or_handle (m s) f

  abbrev pub concluded : Result E A → Result E Unit × S → Result E A × S
  concluded r (ok u, s) = (r, s)
  concluded r (err e, s) = (err e, s)

  -- `try { m } finally { cleanup }`
  unfoldable pub finally : Exec S E A → Exec S E Unit → Exec S E A
  finally m cleanup s = let (r, t) = m s in concluded r (cleanup t)

  abbrev pub or_rethrow : (E → E) → Result E A × S → Result E A × S
  or_rethrow f (ok a, s) = (ok a, s)
  or_rethrow f (err e, s) = (err (f e), s)

  -- `try { m } catch (error) { throw f(error) }`
  unfoldable pub rethrow : (E → E) → Exec S E A → Exec S E A
  rethrow f m s = or_rethrow f (m s)

module _ {ℓ} {S E : Type ℓ} where
  unfoldable pub modify : (S → S) → Exec S E Unit
  modify f s = (ok tt, f s)

  -- `if (!test) throw e`
  unfoldable pub ensure : Bool → E → Exec S E Unit
  ensure true e s = (ok tt, s)
  ensure false e s = (err e, s)

module _ {ℓ} {S E A B : Type ℓ} where
  abbrev pub continue : Result E A → (A → Exec S E B) → Exec S E B
  continue (ok a) f s = f a s
  continue (err e) f s = (err e, s)

  infixl 10 ◌>>=◌ ◌>>◌
  unfoldable pub ◌>>=◌ : Exec S E A → (A → Exec S E B) → Exec S E B
  ◌>>=◌ m f s = let (r, s') = m s in continue r f s'

  abbrev pub ◌>>◌ : Exec S E A → Exec S E B → Exec S E B
  m >> n = m >>= λ _. n

module _ {ℓ} {S E A : Type ℓ} where
  -- `for (const a of list) body(a)`
  unfoldable pub for_each : List A → (A → Exec S E Unit) → Exec S E Unit
  for_each [] body = pure tt
  for_each (a ∷ rest) body = do body a; for_each rest body
