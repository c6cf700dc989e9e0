-- ===== src/Security/RateLimiter.antt =====
-- `SlidingWindowRateLimiter` of server/security.ts. `time > now - windowMs` is `now < time + windowMs`
-- on natural numbers.
use Prim.Native.Nat.{◌+◌}
use collaborative_ai_whitebo.Prelude.{
  ℕ, String, Bool, true, false, List, [], ◌∷◌, ◌++◌, ltb, leb, if◌then◌else◌, get_or, length,
  filter, any, Assoc, lookup, set,
}

-- The recorded times of each key.
abbrev pub Attempts : Type 0
Attempts = Assoc (List ℕ)

abbrev pub in_window : ℕ → ℕ → ℕ → Bool
in_window window_ms now time = ltb now (time + window_ms)

unfoldable pub recent : ℕ → ℕ → List ℕ → List ℕ
recent window_ms now times = filter (in_window window_ms now) times

unfoldable pub recorded : String → Attempts → List ℕ
recorded key attempts = get_or (lookup key attempts) []

unfoldable pub prune : ℕ → ℕ → Attempts → Attempts
prune window_ms now [] = []
prune window_ms now ((key, times) ∷ attempts) =
    let rest = prune window_ms now attempts in
    if any (in_window window_ms now) times then (key, times) ∷ rest else rest

-- `if (this.attempts.size > 5_000) this.prune(now)`
unfoldable pub prune_large : ℕ → ℕ → Attempts → Attempts
unfolding prune
prune_large window_ms now attempts =
    if ltb 5000 (length attempts) then prune window_ms now attempts else attempts

unfoldable pub allow : ℕ → ℕ → String → ℕ → Attempts → Bool × Attempts
unfolding recent recorded prune_large
allow limit window_ms key now attempts =
    let times = recent window_ms now (recorded key attempts) in
    if leb limit (length times)
    then (false, set key times attempts)
    else (true, prune_large window_ms now (set key (times ++ now ∷ []) attempts))

unfoldable pub would_allow : ℕ → ℕ → String → ℕ → Attempts → Bool
unfolding recent recorded
would_allow limit window_ms key now attempts =
    ltb (length (recent window_ms now (recorded key attempts))) limit
