-- ===== src/Security/Spending.antt =====
-- Sequences of calls of `spend` (server/app.ts), under a clock that does not go back.
use collaborative_ai_whitebo.Prelude.{
  ℕ, ◌≤◌, String, ◌≡◌, refl, ◌∙◌, sym, ap, true, false, inl, inr, List, [], ◌∷◌, ◌++◌, arith, leb,
  length, Bool-cases,
}
use mathlib.Core.Path.{subst}
use collaborative_ai_whitebo.Security.RateLimiter.{Attempts, recent, recorded, allow, would_allow}
use collaborative_ai_whitebo.Security.Window.{logged, Tracks, allow-Faithful}
use collaborative_ai_whitebo.Security.Runs.{
  Bounded, fewer_later, logged-Bounded, nothing_tracked, nothing-Bounded,
}
use collaborative_ai_whitebo.Security.Budgets.{
  Limiter, Budgets, Spent, ok, credential_limit, owner_limit, Spend, credential_key, owner_key,
  charge, spare_credential, spare_owner, spend,
}

-- The creations that each budget was spent on: the key and the time.
pub record Spendings : Type 0 where
  pub credential : List (String × ℕ)
  pub owner : List (String × ℕ)

abbrev pub noted : Spent → Spend → Spendings → Spendings
noted ok s log = record {
  credential = log.credential ++ (credential_key s, s.credential_charge) ∷ [];
  owner = log.owner ++ (owner_key s, s.owner_charge) ∷ [];
}
noted credential_limit s log = log
noted owner_limit s log = log

-- The creations that were let through in a sequence of calls.
unfoldable pub spendings : Limiter → Limiter → List Spend → Budgets → Spendings → Spendings
unfolding spend
spendings c o [] b log = log
spendings c o (s ∷ rest) b log =
    let (spent, next) = spend c o s b in spendings c o rest next (noted spent s log)

-- The clock does not go back, in a call and from call to call.
abbrev pub InOrder : ℕ → List Spend → Type 0
InOrder last [] = Unit
InOrder last (s ∷ rest) =
    (last ≤ s.credential_check)
    × (s.credential_check ≤ s.owner_check)
    × (s.owner_check ≤ s.credential_charge)
    × (s.credential_charge ≤ s.owner_charge)
    × InOrder s.owner_charge rest

abbrev pub end_time : ℕ → List Spend → ℕ
end_time last [] = last
end_time last (s ∷ rest) = end_time s.owner_charge rest

-- A limiter that has recorded a log, which is within its limit.
record Within (l : Limiter) (last : ℕ) (attempts : Attempts) (log : List (String × ℕ))
    : Type 0 where
  tracks : Tracks l.window_ms last attempts log
  bounded : Bounded l.limit l.window_ms last log

module _ (l : Limiter) where
  later-Within :
      (last later : ℕ) (attempts : Attempts) (log : List (String × ℕ))
      → last ≤ later
      → Within l last attempts log
      → Within l later attempts log
  later-Within last later attempts log h w = record {
    tracks = record {
      distinct = w.tracks.distinct;
      same = λ key now k. w.tracks.same key now (omega (arith, h, k));
    };
    bounded = record { bound = λ key now k. w.bounded.bound key now (omega (arith, h, k)) };
  }

  -- What `wouldAllow` answered still holds at a later time.
  still_allowed :
      (check time : ℕ) (key : String) (attempts : Attempts)
      → check ≤ time
      → would_allow l.limit l.window_ms key check attempts ≡ true
      → (allow l.limit l.window_ms key time attempts).0 ≡ true
  unfolding would_allow allow
  still_allowed check time key attempts h k =
      let fewer = fewer_later l.window_ms check time (recorded key attempts) h in
      let room : leb l.limit (length (recent l.window_ms time (recorded key attempts))) ≡ false =
        ground (arith, fewer, k) in
      rw room refl

  charge-Within :
      (last check time : ℕ) (key : String) (attempts : Attempts) (log : List (String × ℕ))
      → last ≤ time
      → check ≤ time
      → would_allow l.limit l.window_ms key check attempts ≡ true
      → Within l last attempts log
      → Within l time (allow l.limit l.window_ms key time attempts).1 (log ++ (key, time) ∷ [])
  charge-Within last check time key attempts log h k spare w =
      let f = allow-Faithful l.limit l.window_ms last time key attempts log w.tracks h in
      let permit = sym f.answer ∙ still_allowed check time key attempts k spare in
      let entry = ap (λ b. logged b key time log) permit in
      record {
        tracks =
            subst (Tracks l.window_ms time (allow l.limit l.window_ms key time attempts).1) entry
              f.tracks;
        bounded =
            subst (Bounded l.limit l.window_ms time) entry
              (logged-Bounded l.limit l.window_ms last time key log w.bounded h);
      }

module _ (c o : Limiter) where
  record BothWithin (last : ℕ) (b : Budgets) (log : Spendings) : Type 0 where
    credential : Within c last b.credential log.credential
    owner : Within o last b.owner log.owner

  later-BothWithin :
      (last later : ℕ) (b : Budgets) (log : Spendings)
      → last ≤ later
      → BothWithin last b log
      → BothWithin later b log
  later-BothWithin last later b log h w = record {
    credential = later-Within c last later b.credential log.credential h w.credential;
    owner = later-Within o last later b.owner log.owner h w.owner;
  }

  spend-BothWithin :
      (last : ℕ) (s : Spend) (rest : List Spend) (b : Budgets) (log : Spendings)
      → InOrder last (s ∷ rest)
      → BothWithin last b log
      → BothWithin s.owner_charge (spend c o s b).1 (noted (spend c o s b).0 s log)
  unfolding spend charge
  spend-BothWithin last s rest b log (start, check, first, second, more) w =
      let late =
        later-BothWithin last s.owner_charge b log (omega (arith, start, check, first, second)) w in
      elim (Bool-cases (spare_credential c o s b)) [
        | inl spare ↦ elim (Bool-cases (spare_owner c o s b)) [
          | inl left ↦
              rw (spare, left)
                (record {
                  credential = later-Within c s.credential_charge s.owner_charge _ _ second (
                      charge-Within c last s.credential_check s.credential_charge (credential_key s)
                        b.credential log.credential (omega (arith, start, check, first))
                        (omega (arith, check, first)) spare w.credential);
                  owner =
                      charge-Within o last s.owner_check s.owner_charge (owner_key s) b.owner
                        log.owner (omega (arith, start, check, first, second))
                        (omega (arith, first, second)) left w.owner;
                })
          | inr none ↦ rw (spare, none) late
        ]
        | inr none ↦ rw none late
      ]

  spendings-BothBounded :
      (last : ℕ) (calls : List Spend) (b : Budgets) (log : Spendings)
      → InOrder last calls
      → BothWithin last b log
      → let all = spendings c o calls b log in
        Bounded c.limit c.window_ms (end_time last calls) all.credential
        × Bounded o.limit o.window_ms (end_time last calls) all.owner
  unfolding spendings
  spendings-BothBounded last [] b log h w = (w.credential.bounded, w.owner.bounded)
  spendings-BothBounded last (s ∷ rest) b log (start, check, first, second, more) w =
      spendings-BothBounded s.owner_charge rest (spend c o s b).1 _ more
        (spend-BothWithin last s rest b log (start, check, first, second, more) w)

-- Of the creations that `spend` lets through from new limiters, under a clock that does not go back, no
-- window that ends with the last call or later has more than the limit of one credential, nor more
-- than the limit of one owner.
pub spendings-Bounded :
    (c o : Limiter) (calls : List Spend)
    → InOrder 0 calls
    → let all =
        spendings c o calls
          (record { credential = []; owner = [] })
          (record { credential = []; owner = [] }) in
      Bounded c.limit c.window_ms (end_time 0 calls) all.credential
      × Bounded o.limit o.window_ms (end_time 0 calls) all.owner
spendings-Bounded c o calls h = spendings-BothBounded c o 0 calls _ _ h (record {
  credential = record {
    tracks = nothing_tracked c.window_ms;
    bounded = nothing-Bounded c.limit c.window_ms;
  };
  owner = record {
    tracks = nothing_tracked o.window_ms;
    bounded = nothing-Bounded o.limit o.window_ms;
  };
})
