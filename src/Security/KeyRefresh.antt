-- ===== src/Security/KeyRefresh.antt =====
-- How often signing keys are fetched, and how long they are used (server/access-jwt.ts, `keyFor`).
use Prim.Native.Nat.{◌+◌, ◌-◌}
use collaborative_ai_whitebo.Prelude.{
  ℕ, ◌≤◌, ◌<◌, String, ◌≡◌, refl, Bool, true, false, inl, inr, Option, none, List, [], ◌∷◌,
  if◌then◌else◌, leb, Assoc, lookup, Bool-cases, arith,
}
use mathlib.Core.Path.{subst}
use collaborative_ai_whitebo.Security.AccessJwt.{
  JwtPlatform, KeyCache, Moment, fresh, stored_keys, refresh, refreshes, graced, after_refresh,
  key_for,
}

module _ {Key : Type 0} (p : JwtPlatform Key) where
  -- The times at which a sequence of calls fetches.
  unfoldable pub fetches : List (Moment × String) → KeyCache Key → List ℕ
  unfolding key_for refreshes
  fetches [] cache = []
  fetches ((m, kid) ∷ rest) cache =
      let later = fetches rest (key_for p m kid cache).1 in
      if refreshes m kid cache then m.attempted ∷ later else later

  stored-attempt :
      (keys : Assoc Key) (at : ℕ) (cache : KeyCache Key)
      → (stored_keys keys at cache).last_attempt_at ≡ cache.last_attempt_at
  stored-attempt [] at cache = refl
  stored-attempt (entry ∷ rest) at cache = refl

  -- A call that fetches notes when.
  attempt-after :
      (m : Moment) (kid : String) (cache : KeyCache Key)
      → (key_for p m kid cache).1.last_attempt_at
        ≡ (if refreshes m kid cache then m.attempted else cache.last_attempt_at)
  unfolding key_for refreshes refresh
  attempt-after m kid cache = elim (Bool-cases (fresh m kid cache)) [
    | inl known ↦ rw known refl
    | inr unknown ↦ rw unknown (elim (Bool-cases (leb 60000 (m.gate - cache.last_attempt_at))) [
      | inl due ↦ rw due (stored-attempt _ _ _)
      | inr early ↦ rw early refl
    ])
  ]

-- Each time is at least a minute after the one before, the first after `last`.
abbrev pub Spaced : ℕ → List ℕ → Type 0
Spaced last [] = Unit
Spaced last (time ∷ times) = (last + 60000 ≤ time) × Spaced time times

-- In no call the clock goes back between the interval test and the note of the attempt.
abbrev pub Forward : List (Moment × String) → Type 0
Forward [] = Unit
Forward ((m, kid) ∷ calls) = (m.gate ≤ m.attempted) × Forward calls

refreshes-due :
    {Key : Type 0} (m : Moment) (kid : String) (cache : KeyCache Key)
    → refreshes m kid cache ≡ true
    → cache.last_attempt_at + 60000 ≤ m.gate
unfolding refreshes
refreshes-due m kid cache h = ground (arith, h)

Spaced-if :
    (b : Bool) (time last : ℕ) (later : List ℕ)
    → (b ≡ true → last + 60000 ≤ time)
    → Spaced (if b then time else last) later
    → Spaced last (if b then time ∷ later else later)
Spaced-if true time last later due h = (due refl, h)
Spaced-if false time last later due h = h

fresh-recent :
    {Key : Type 0} (m : Moment) (kid : String) (cache : KeyCache Key)
    → fresh m kid cache ≡ true
    → m.started < cache.loaded_at + 3600000
fresh-recent m kid cache h = ground (arith, h)

module _ {Key : Type 0} (p : JwtPlatform Key) where
  -- Whatever key ids are asked for, and however the clock runs outside of a call's interval test and the
  -- note of its attempt, between which it does not go back: two fetches of the signing keys are at least
  -- a minute apart, and the first is at least a minute after the last attempt that is noted.
  pub fetches-Spaced :
      (calls : List (Moment × String)) (cache : KeyCache Key)
      → Forward calls
      → Spaced cache.last_attempt_at (fetches p calls cache)
  unfolding fetches
  fetches-Spaced [] cache h = tt
  fetches-Spaced ((m, kid) ∷ rest) cache h =
      let after = (key_for p m kid cache).1 in
      Spaced-if (refreshes m kid cache) m.attempted cache.last_attempt_at (fetches p rest after)
        (λ due. let ready = refreshes-due m kid cache due in omega (arith, ready, h.0))
        (subst (λ t. Spaced t (fetches p rest after)) (attempt-after p m kid cache)
          (fetches-Spaced rest after h.1))

  graced-stale :
      (m : Moment) (kid : String) (cache : KeyCache Key)
      → cache.loaded_at + 90000000 ≤ m.ended
      → graced m kid cache ≡ none
  graced-stale m kid cache h = ground (arith, h)

  abbrev answer : Bool → Moment → String → KeyCache Key → KeyCache Key → Option Key × KeyCache Key
  answer b m kid cache after =
      if b then (lookup kid cache.keys, cache) else (graced m kid after, after)

  stale_if :
      (b : Bool) (m : Moment) (kid : String) (cache after : KeyCache Key)
      → fresh m kid cache ≡ b
      → m.started ≤ m.ended
      → (answer b m kid cache after).1.loaded_at + 90000000 ≤ m.started
      → (answer b m kid cache after).0 ≡ none
  stale_if true m kid cache after known ordered h =
      absurd (omega (arith, fresh-recent m kid cache known, h))
  stale_if false m kid cache after unknown ordered h =
      graced-stale m kid after (omega (arith, ordered, h))

  -- No key is answered from keys that were stored twenty-five hours or more before the call, whether
  -- they could not be fetched again or the id is unknown.
  pub key_for-stale :
      (m : Moment) (kid : String) (cache : KeyCache Key)
      → m.started ≤ m.ended
      → (key_for p m kid cache).1.loaded_at + 90000000 ≤ m.started
      → (key_for p m kid cache).0 ≡ none
  unfolding key_for
  key_for-stale m kid cache ordered h =
      stale_if (fresh m kid cache) m kid cache (after_refresh p m kid cache) refl ordered h
