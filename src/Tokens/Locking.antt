-- ===== src/Tokens/Locking.antt =====
-- The exclusive lock of the token file (server/token-store.mjs, `acquireMutationLock`).
use collaborative_ai_whitebo.Prelude.{
  String, ◌≡◌, ◌≢◌, refl, sym, ◌∙◌, ap, true, false, not, none, some, is_some, arith,
}
use mathlib.Core.Path.{subst}
use collaborative_ai_whitebo.Exec.{
  Result, ok, err, pure, throw, lift, gets, modify, ensure, handle, or_handle, finally, concluded,
  ◌>>=◌, ◌>>◌,
}
use collaborative_ai_whitebo.Exec.Atomic.{
  ReadsOnly, ReadsOnly-ensure, ReadsOnly-lift, ReadsOnly-gets, ReadsOnly-or_throw,
}
use collaborative_ai_whitebo.Exec.Keeps.{IsPreorder, Keeps, Keeps-bind, Keeps-ensure, keeps_rules}
use collaborative_ai_whitebo.Tokens.Types.{TokenFailure, system_error}
use collaborative_ai_whitebo.Tokens.Platform.{TokenPlatform}
use collaborative_ai_whitebo.Tokens.Files.{
  Faults, Machine, FileAction, Mutator, on_disk, put_lock, remove_quietly, release, initialise_lock,
  acquire_mutation_lock, mutate_store,
}
use collaborative_ai_whitebo.Tokens.Clients.{
  create_client, create_account_client, revoke_client, rotate_client,
}
use collaborative_ai_whitebo.Tokens.Grant.{grant_new_board}
use collaborative_ai_whitebo.Tokens.Calls.{Call, create, create_account, revoke, rotate, grant}

-- While another operation holds the lock, `m` throws and changes nothing.
pub record IsRefused {A : Type 0} (m : FileAction A) : Type 0 where
  pub unchanged : (s : Machine) → is_some s.disk.lock ≡ true → (m s).1 ≡ s
  pub throws : (s : Machine) (a : A) → is_some s.disk.lock ≡ true → (m s).0 ≢ ok a

acquire-IsRefused : (faults : Faults) (pid : String) → IsRefused (acquire_mutation_lock faults pid)
unfolding acquire_mutation_lock ◌>>=◌ gets ensure
acquire-IsRefused faults pid = record {
  unchanged = λ s h. ground (arith, h);
  throws = λ s a h. ground (arith, h);
}

module _ {A B : Type 0} where
  stops_at :
      (r : Result TokenFailure A) (f : A → FileAction B) (s : Machine)
      → ((a : A) → r ≢ ok a)
      → (((lift r >>= f) s).1 ≡ s) × ((b : B) → ((lift r >>= f) s).0 ≢ ok b)
  unfolding ◌>>=◌ lift
  stops_at (ok a) f s h = absurd (h a refl)
  stops_at (err e) f s h = (refl, λ b k. cc k)

  IsRefused-bind : (m : FileAction A) (f : A → FileAction B) → IsRefused m → IsRefused (m >>= f)
  unfolding ◌>>=◌ lift
  IsRefused-bind m f r = record {
    unchanged = λ s h. (stops_at (m s).0 f (m s).1 (λ a. r.throws s a h)).0 ∙ r.unchanged s h;
    throws = λ s b h. (stops_at (m s).0 f (m s).1 (λ a. r.throws s a h)).1 b;
  }

  goes_on :
      (r : Result TokenFailure A) (f : A → FileAction B) (s t : Machine)
      → t ≡ s
      → is_some s.disk.lock ≡ true
      → ((a : A) → IsRefused (f a))
      → (((lift r >>= f) t).1 ≡ s) × ((b : B) → ((lift r >>= f) t).0 ≢ ok b)
  unfolding ◌>>=◌ lift
  goes_on (ok a) f s t same h k =
      let held = subst (λ u. is_some u.disk.lock ≡ true) (sym same) h in
      ((k a).unchanged t held ∙ same, λ b. (k a).throws t b held)
  goes_on (err e) f s t same h k = (same, λ b e. cc e)

  IsRefused-read-bind :
      (m : FileAction A) (f : A → FileAction B)
      → ReadsOnly m
      → ((a : A) → IsRefused (f a))
      → IsRefused (m >>= f)
  unfolding ◌>>=◌ lift
  IsRefused-read-bind m f r k = record {
    unchanged = λ s h. (goes_on (m s).0 f s (m s).1 (r.same s) h k).0;
    throws = λ s b h. (goes_on (m s).0 f s (m s).1 (r.same s) h k).1 b;
  }

mutate_store-IsRefused :
    (p : TokenPlatform) (faults : Faults) (pid : String) {A : Type 0} (mutate : Mutator A)
    → IsRefused (mutate_store p faults pid mutate)
unfolding mutate_store
mutate_store-IsRefused p faults pid mutate = IsRefused-bind _ _ (acquire-IsRefused faults pid)

ruleset refused_rules = (
  IsRefused-bind, IsRefused-read-bind, mutate_store-IsRefused, acquire-IsRefused, ReadsOnly-ensure,
  ReadsOnly-lift, ReadsOnly-or_throw,
)

-- While another operation holds the lock, every operation throws, and neither the files nor the
-- accounts change; the lock stays.
pub Call-IsRefused : {p : TokenPlatform} {A : Type 0} {m : FileAction A} → Call p A m → IsRefused m
unfolding create_client create_account_client revoke_client rotate_client grant_new_board
Call-IsRefused (create faults pid token request) = search refused_rules depth 20
Call-IsRefused (create_account faults pid token request) = search refused_rules depth 20
Call-IsRefused (revoke faults pid name options) = search refused_rules depth 20
Call-IsRefused (rotate faults pid token request) = search refused_rules depth 20
Call-IsRefused (grant faults pid request) = search refused_rules depth 20

-- An operation that starts without a lock leaves none.
abbrev pub StaysUnlocked : Machine → Machine → Type 0
StaysUnlocked s t = s.disk.lock ≡ none → t.disk.lock ≡ none

StaysUnlocked-IsPreorder : IsPreorder StaysUnlocked
StaysUnlocked-IsPreorder = record { same = λ s h. h; trans = λ s t u g h k. h (g k) }

module _ (faults : Faults) (works : faults.remove_lock ≡ false) where
  removed : (s : Machine) → (remove_quietly faults.remove_lock (put_lock none) s).1.disk.lock ≡ none
  unfolding remove_quietly on_disk modify
  removed s = rw works refl

  released : (s : Machine) → (release faults s).1.disk.lock ≡ none
  unfolding release on_disk modify ensure ◌>>=◌
  released s = rw works refl

  concluded-unlocked :
      {A : Type 0} (r : Result TokenFailure A) (q : Result TokenFailure Unit × Machine)
      → q.1.disk.lock ≡ none
      → (concluded r q).1.disk.lock ≡ none
  concluded-unlocked r (ok u, s) h = h
  concluded-unlocked r (err e, s) h = h

  finally-unlocked :
      {A : Type 0} (m : FileAction A) (s : Machine)
      → (finally m (release faults) s).1.disk.lock ≡ none
  unfolding finally
  finally-unlocked m s = concluded-unlocked (m s).0 (release faults (m s).1) (released (m s).1)

  cleaned :
      (r : Result TokenFailure Unit) (s : Machine) (e : TokenFailure)
      → (or_handle (r, s) (λ d. remove_quietly faults.remove_lock (put_lock none) >> throw d)).0
        ≡ err e
      → (or_handle
          (r, s)
          (λ d. remove_quietly faults.remove_lock (put_lock none) >> throw d)).1.disk.lock
        ≡ none
  unfolding remove_quietly on_disk modify throw ◌>>=◌ pure
  cleaned (ok u) s e h = cc h
  cleaned (err d) s e h = rw works refl

  initialise_lock-unlocked :
      (pid : String) (s : Machine) (e : TokenFailure)
      → (initialise_lock faults pid s).0 ≡ err e
      → (initialise_lock faults pid s).1.disk.lock ≡ none
  unfolding initialise_lock handle
  initialise_lock-unlocked pid s e h =
      cleaned ((ensure (not faults.write_lock) system_error >> on_disk (put_lock (some pid))) s).0 _
        e h

  -- A throw leaves no lock.
  record ThrowsUnlocked {A : Type 0} (m : FileAction A) : Type 0 where
    at :
        (s : Machine) (e : TokenFailure)
        → s.disk.lock ≡ none
        → (m s).0 ≡ err e
        → (m s).1.disk.lock ≡ none

  read_then :
      {A B : Type 0} (r : Result TokenFailure A) (f : A → FileAction B) (t : Machine)
      (e : TokenFailure)
      → ((a : A) → ThrowsUnlocked (f a))
      → t.disk.lock ≡ none
      → ((lift r >>= f) t).0 ≡ err e
      → ((lift r >>= f) t).1.disk.lock ≡ none
  unfolding ◌>>=◌ lift
  read_then (ok a) f t e k free h = (k a).at t e free h
  read_then (err d) f t e k free h = free

  ThrowsUnlocked-read-bind :
      {A B : Type 0} (m : FileAction A) (f : A → FileAction B)
      → ReadsOnly m
      → ((a : A) → ThrowsUnlocked (f a))
      → ThrowsUnlocked (m >>= f)
  unfolding ◌>>=◌ lift
  ThrowsUnlocked-read-bind m f r k = record {
    at = λ s e free h. read_then (m s).0 f (m s).1 e k (ap (λ t. t.disk.lock) (r.same s) ∙ free) h;
  }

  taken-ThrowsUnlocked :
      (pid : String) → ThrowsUnlocked (on_disk (put_lock (some "")) >> initialise_lock faults pid)
  unfolding ◌>>=◌ on_disk modify
  taken-ThrowsUnlocked pid = record { at = λ s e free h. initialise_lock-unlocked pid _ e h }

  acquire-ThrowsUnlocked : (pid : String) → ThrowsUnlocked (acquire_mutation_lock faults pid)
  unfolding acquire_mutation_lock
  acquire-ThrowsUnlocked pid =
      search (ThrowsUnlocked-read-bind, taken-ThrowsUnlocked, ReadsOnly-ensure, ReadsOnly-gets)
        depth 12

  run-unlocked :
      {A : Type 0} (r : Result TokenFailure Unit) (m : FileAction A) (t : Machine)
      → ((e : TokenFailure) → r ≡ err e → t.disk.lock ≡ none)
      → ((lift r >>= λ u. finally m (release faults)) t).1.disk.lock ≡ none
  unfolding ◌>>=◌ lift
  run-unlocked (ok u) m t h = finally-unlocked m t
  run-unlocked (err e) m t h = h e refl

  locked-StaysUnlocked :
      {A : Type 0} (pid : String) (m : FileAction A)
      → Keeps StaysUnlocked (acquire_mutation_lock faults pid >> finally m (release faults))
  unfolding ◌>>=◌ lift
  locked-StaysUnlocked pid m = record {
    at = λ s free.
        run-unlocked (acquire_mutation_lock faults pid s).0 m (acquire_mutation_lock faults pid s).1
          (λ e h. (acquire-ThrowsUnlocked pid).at s e free h);
  }

  pub mutate_store-StaysUnlocked :
      (p : TokenPlatform) (pid : String) {A : Type 0} (mutate : Mutator A)
      → Keeps StaysUnlocked (mutate_store p faults pid mutate)
  unfolding mutate_store
  mutate_store-StaysUnlocked p pid mutate = locked-StaysUnlocked pid _

-- The faults of a call.
abbrev pub faults_of : {p : TokenPlatform} {A : Type 0} {m : FileAction A} → Call p A m → Faults
faults_of (create faults pid token request) = faults
faults_of (create_account faults pid token request) = faults
faults_of (revoke faults pid name options) = faults
faults_of (rotate faults pid token request) = faults
faults_of (grant faults pid request) = faults

-- An operation that finds no lock leaves none, whether it returns or throws and whatever else fails,
-- if the file system removes files.
pub Call-StaysUnlocked :
    {p : TokenPlatform} {A : Type 0} {m : FileAction A} (c : Call p A m)
    → (faults_of c).remove_lock ≡ false
    → Keeps StaysUnlocked m
unfolding create_client create_account_client revoke_client rotate_client grant_new_board
Call-StaysUnlocked {p = p} (create faults pid token request) works =
    search (StaysUnlocked-IsPreorder, mutate_store-StaysUnlocked faults works p, keeps_rules) depth
      20
Call-StaysUnlocked {p = p} (create_account faults pid token request) works =
    search (StaysUnlocked-IsPreorder, mutate_store-StaysUnlocked faults works p, keeps_rules) depth
      20
Call-StaysUnlocked {p = p} (revoke faults pid name options) works =
    search (StaysUnlocked-IsPreorder, mutate_store-StaysUnlocked faults works p, keeps_rules) depth
      20
Call-StaysUnlocked {p = p} (rotate faults pid token request) works =
    search (StaysUnlocked-IsPreorder, mutate_store-StaysUnlocked faults works p, keeps_rules) depth
      20
Call-StaysUnlocked (grant faults pid request) works =
    Keeps-bind StaysUnlocked-IsPreorder _ _ (Keeps-ensure StaysUnlocked-IsPreorder _ _) (λ u.
      Keeps-bind StaysUnlocked-IsPreorder _ _ (Keeps-ensure StaysUnlocked-IsPreorder _ _)
        (λ v. locked-StaysUnlocked faults works pid _))
