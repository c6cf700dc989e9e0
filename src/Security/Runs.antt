-- ===== src/Security/Runs.antt =====
-- Sequences of calls of one rate limiter (server/security.ts), at times that do not go back.
use Prim.Native.Nat.{◌+◌}
use mathlib.Core.Path.{subst}
use mathlib.Core.List.{append-nil}
use collaborative_ai_whitebo.Prelude.{
  ℕ, suc, ◌≤◌, String, ◌≡◌, refl, ◌∙◌, sym, ap, Bool, true, false, List, [], ◌∷◌, ◌++◌, inl, inr,
  arith, leb, Bool-cases, length, ◌==◌, lookup-empty, eq_iff,
}
use collaborative_ai_whitebo.Security.RateLimiter.{Attempts, recent, recorded, allow}
use collaborative_ai_whitebo.Security.Window.{
  times_of, permitted, logged, Tracks, recent-append, times_of-append, allow-Faithful,
}

-- The answers of a new limiter's calls, in order.
unfoldable pub answers : ℕ → ℕ → List (String × ℕ) → Attempts → List Bool
answers limit window_ms [] attempts = []
answers limit window_ms ((key, now) ∷ calls) attempts =
    let (allowed, next) = allow limit window_ms key now attempts in
    allowed ∷ answers limit window_ms calls next

-- The answers that the log of the calls allowed so far calls for.
unfoldable pub promised : ℕ → ℕ → List (String × ℕ) → List (String × ℕ) → List Bool
promised limit window_ms [] log = []
promised limit window_ms ((key, now) ∷ calls) log =
    let allowed = permitted limit window_ms key now log in
    allowed ∷ promised limit window_ms calls (logged allowed key now log)

-- The log after the calls.
unfoldable pub log_after : ℕ → ℕ → List (String × ℕ) → List (String × ℕ) → List (String × ℕ)
log_after limit window_ms [] log = log
log_after limit window_ms ((key, now) ∷ calls) log =
    log_after limit window_ms calls (logged (permitted limit window_ms key now log) key now log)

-- The log of the calls that the limiter itself allowed.
unfoldable pub allowed_calls :
    ℕ → ℕ → List (String × ℕ) → Attempts → List (String × ℕ) → List (String × ℕ)
allowed_calls limit window_ms [] attempts log = log
allowed_calls limit window_ms ((key, now) ∷ calls) attempts log =
    let (allowed, next) = allow limit window_ms key now attempts in
    allowed_calls limit window_ms calls next (logged allowed key now log)

abbrev pub Ordered : ℕ → List (String × ℕ) → Type 0
Ordered last [] = Unit
Ordered last ((key, now) ∷ calls) = (last ≤ now) × Ordered now calls

answers_track :
    (limit window_ms last : ℕ) (calls : List (String × ℕ)) (attempts : Attempts)
    (log : List (String × ℕ))
    → Tracks window_ms last attempts log
    → Ordered last calls
    → answers limit window_ms calls attempts ≡ promised limit window_ms calls log
unfolding answers promised
answers_track limit w last [] attempts log t o = refl
answers_track limit w last ((key, now) ∷ calls) attempts log t o =
    let f = allow-Faithful limit w last now key attempts log t o.0 in
    let rest =
      answers_track limit w now calls (allow limit w key now attempts).1
        (logged (permitted limit w key now log) key now log) f.tracks o.1 in
    λ i. f.answer i ∷ rest i

allowed_track :
    (limit window_ms last : ℕ) (calls : List (String × ℕ)) (attempts : Attempts)
    (log : List (String × ℕ))
    → Tracks window_ms last attempts log
    → Ordered last calls
    → allowed_calls limit window_ms calls attempts log ≡ log_after limit window_ms calls log
unfolding allowed_calls log_after
allowed_track limit w last [] attempts log t o = refl
allowed_track limit w last ((key, now) ∷ calls) attempts log t o =
    let f = allow-Faithful limit w last now key attempts log t o.0 in
    let next = (allow limit w key now attempts).1 in
    ap (λ a. allowed_calls limit w calls next (logged a key now log)) f.answer
    ∙ allowed_track limit w now calls next (logged (permitted limit w key now log) key now log)
        f.tracks o.1

pub nothing_tracked : (w : ℕ) → Tracks w 0 [] []
unfolding recorded
nothing_tracked w = record {
  distinct = tt;
  same = λ key now h. rw (lookup-empty {V = List ℕ} key) refl;
}

-- A new limiter answers any calls, at times that do not go back, as the log of the calls it allowed
-- says: each is allowed exactly when fewer than the limit of allowed calls with its key are in the
-- window that ends with it, whatever the limiter has forgotten or pruned in between.
pub answers-promised :
    (limit window_ms : ℕ) (calls : List (String × ℕ))
    → Ordered 0 calls
    → answers limit window_ms calls [] ≡ promised limit window_ms calls []
answers-promised limit w calls o = answers_track limit w 0 calls [] [] (nothing_tracked w) o

-- No key has more than `limit` times in a window that ends at `last` or later.
pub record Bounded (limit window_ms last : ℕ) (log : List (String × ℕ)) : Type 0 where
  pub bound :
      (key : String) (now : ℕ)
      → last ≤ now
      → length (recent window_ms now (times_of key log)) ≤ limit

pub fewer_later :
    (w now later : ℕ) (xs : List ℕ)
    → now ≤ later
    → length (recent w later xs) ≤ length (recent w now xs)
unfolding recent
fewer_later w now later [] h = omega arith
fewer_later w now later (x ∷ xs) h = ground (arith, fewer_later w now later xs h)

length-append : (xs ys : List ℕ) → length (xs ++ ys) ≡ length xs + length ys
length-append [] ys = ground arith
length-append (x ∷ xs) ys = ground (arith, length-append xs ys)

at_most_one : (w now time : ℕ) → length (recent w now (time ∷ [])) ≤ 1
unfolding recent
at_most_one w now time = ground arith

-- A time added to the log is one more in a window of its key, and none in those of the others.
same_key :
    (w now later : ℕ) (k key : String) (log : List (String × ℕ))
    → (k == key) ≡ true
    → length (recent w later (times_of key (log ++ (k, now) ∷ [])))
      ≤ suc (length (recent w later (times_of key log)))
same_key w now later k key log hit =
    rw
      (
        times_of-append key k now log,
        hit,
        recent-append w later (times_of key log) (now ∷ []),
        length-append (recent w later (times_of key log)) (recent w later (now ∷ [])),
      )
      (omega (arith, at_most_one w later now))

other_key :
    (w now later : ℕ) (k key : String) (log : List (String × ℕ))
    → (k == key) ≡ false
    → recent w later (times_of key (log ++ (k, now) ∷ [])) ≡ recent w later (times_of key log)
other_key w now later k key log miss =
    rw (times_of-append key k now log, miss, append-nil (times_of key log)) refl

pub logged-Bounded :
    (limit w last now : ℕ) (k : String) (log : List (String × ℕ))
    → Bounded limit w last log
    → last ≤ now
    → Bounded limit w now (logged (permitted limit w k now log) k now log)
unfolding permitted
logged-Bounded limit w last now k log b order =
    elim (Bool-cases (leb limit (length (recent w now (times_of k log))))) [
      | inl full ↦
          rw full (record { bound = λ key later h. b.bound key later (omega (arith, order, h)) })
      | inr room ↦ rw room (record {
        bound = λ key later h. elim (Bool-cases (k == key)) [
          | inl hit ↦
              let below =
                subst (λ j. leb limit (length (recent w now (times_of j log))) ≡ false)
                  ((eq_iff k key).0 hit) room in
              ground (
                arith,
                below,
                fewer_later w now later (times_of key log) h,
                same_key w now later k key log hit,
              )
          | inr miss ↦
              rw (other_key w now later k key log miss)
                (b.bound key later (omega (arith, order, h)))
        ];
      })
    ]

-- The time of the last call, or the time before the calls if there is none.
abbrev pub last_time : ℕ → List (String × ℕ) → ℕ
last_time last [] = last
last_time last ((key, now) ∷ calls) = last_time now calls

stays_Bounded :
    (limit w last : ℕ) (calls log : List (String × ℕ))
    → Bounded limit w last log
    → Ordered last calls
    → Bounded limit w (last_time last calls) (log_after limit w calls log)
unfolding log_after
stays_Bounded limit w last [] log b o = b
stays_Bounded limit w last ((k, now) ∷ calls) log b o =
    stays_Bounded limit w now calls _ (logged-Bounded limit w last now k log b o.0) o.1

pub nothing-Bounded : (limit w : ℕ) → Bounded limit w 0 []
unfolding recent
nothing-Bounded limit w = record { bound = λ key now h. omega arith }

-- Of the calls that a new limiter allows, at times that do not go back, no window that ends with the
-- last call or later has more than the limit with one key.
pub allowed_calls-Bounded :
    (limit window_ms : ℕ) (calls : List (String × ℕ))
    → Ordered 0 calls
    → Bounded limit window_ms (last_time 0 calls) (allowed_calls limit window_ms calls [] [])
allowed_calls-Bounded limit w calls o =
    subst (Bounded limit w (last_time 0 calls))
      (sym (allowed_track limit w 0 calls [] [] (nothing_tracked w) o))
      (stays_Bounded limit w 0 calls [] (nothing-Bounded limit w) o)
