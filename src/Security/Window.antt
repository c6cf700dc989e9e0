-- ===== src/Security/Window.antt =====
-- The rate limiter (server/security.ts) against the log of all that it allowed.
use mathlib.Core.List.{append-nil}
use mathlib.Core.Path.{subst}
use collaborative_ai_whitebo.Prelude.{
  ℕ, ◌≤◌, String, ◌≡◌, refl, ◌∙◌, sym, ap, Bool, true, false, not, none, List, [], ◌∷◌, ◌++◌, inl,
  inr, arith, ltb, leb, if◌then◌else◌, Bool-cases, length, any, ◌==◌, eq_iff, lookup, set, set-here,
  set-elsewhere, Distinct, Distinct-set,
}
use collaborative_ai_whitebo.Security.RateLimiter.{
  Attempts, in_window, recent, recorded, prune, prune_large, allow,
}

-- The times of a key in the log of the calls that were allowed.
abbrev pub times_of : String → List (String × ℕ) → List ℕ
times_of key [] = []
times_of key ((k, time) ∷ log) =
    let rest = times_of key log in if k == key then time ∷ rest else rest

-- What the limiter promises: a call is allowed when fewer than `limit` calls with its key have been in
-- the window that ends now.
unfoldable pub permitted : ℕ → ℕ → String → ℕ → List (String × ℕ) → Bool
permitted limit window_ms key now log =
    not (leb limit (length (recent window_ms now (times_of key log))))

abbrev pub logged : Bool → String → ℕ → List (String × ℕ) → List (String × ℕ)
logged true key now log = log ++ (key, now) ∷ []
logged false key now log = log

-- From `last` on, the record of each key has the times of the log that are still in the window.
pub record Tracks (window_ms last : ℕ) (attempts : Attempts) (log : List (String × ℕ))
    : Type 0 where
  pub distinct : Distinct attempts
  pub same :
      (key : String) (now : ℕ)
      → last ≤ now
      → recent window_ms now (recorded key attempts) ≡ recent window_ms now (times_of key log)

pub recent-append :
    (w now : ℕ) (xs ys : List ℕ) → recent w now (xs ++ ys) ≡ recent w now xs ++ recent w now ys
unfolding recent
recent-append w now [] ys = refl
recent-append w now (x ∷ xs) ys = ground (arith, recent-append w now xs ys)

recent-recent :
    (w now later : ℕ) (xs : List ℕ)
    → now ≤ later
    → recent w later (recent w now xs) ≡ recent w later xs
unfolding recent
recent-recent w now later [] h = refl
recent-recent w now later (x ∷ xs) h = ground (arith, recent-recent w now later xs h)

none_recent :
    (w now later : ℕ) (xs : List ℕ)
    → now ≤ later
    → any (in_window w now) xs ≡ false
    → recent w later xs ≡ []
unfolding recent
none_recent w now later [] h e = refl
none_recent w now later (x ∷ xs) h e = ground (arith, none_recent w now later xs h)

pub times_of-append :
    (key k : String) (time : ℕ) (log : List (String × ℕ))
    → times_of key (log ++ (k, time) ∷ [])
      ≡ times_of key log ++ (if k == key then time ∷ [] else [])
times_of-append key k time [] = ground arith
times_of-append key k time ((j, t) ∷ log) = ground (arith, times_of-append key k time log)

lookup-prune :
    (w now : ℕ) (key : String) (m : Attempts)
    → lookup key m ≡ none
    → lookup key (prune w now m) ≡ none
unfolding prune lookup
lookup-prune w now key [] h = refl
lookup-prune w now key ((k, ts) ∷ m) h = ground (arith, h, lookup-prune w now key m)

prune-Distinct : (w now : ℕ) (m : Attempts) → Distinct m → Distinct (prune w now m)
unfolding prune
prune-Distinct w now [] d = tt
prune-Distinct w now ((k, ts) ∷ m) d = elim (Bool-cases (any (in_window w now) ts)) [
  | inl keep ↦ rw keep (lookup-prune w now k m d.0, prune-Distinct w now m d.1)
  | inr drop ↦ rw drop (prune-Distinct w now m d.1)
]

recorded-first :
    (key k : String) (ts : List ℕ) (m : Attempts)
    → (k == key) ≡ true
    → recorded key ((k, ts) ∷ m) ≡ ts
unfolding recorded lookup
recorded-first key k ts m hit = rw hit refl

recorded-later :
    (key k : String) (ts : List ℕ) (m : Attempts)
    → (k == key) ≡ false
    → recorded key ((k, ts) ∷ m) ≡ recorded key m
unfolding recorded lookup
recorded-later key k ts m miss = rw miss refl

recorded-absent : (key : String) (m : Attempts) → lookup key m ≡ none → recorded key m ≡ []
unfolding recorded
recorded-absent key m gone = rw gone refl

recent-nothing : (w now : ℕ) → recent w now [] ≡ []
unfolding recent
recent-nothing w now = refl

recent-prune :
    (w now later : ℕ) (key : String) (m : Attempts)
    → now ≤ later
    → Distinct m
    → recent w later (recorded key (prune w now m)) ≡ recent w later (recorded key m)
unfolding prune
recent-prune w now later key [] h d = refl
recent-prune w now later key ((k, ts) ∷ m) h d = elim (Bool-cases (any (in_window w now) ts)) [
  | inl keep ↦ elim (Bool-cases (k == key)) [
    | inl hit ↦ rw keep (
        ap (recent w later)
          (recorded-first key k ts (prune w now m) hit ∙ sym (recorded-first key k ts m hit)))
    | inr miss ↦
        rw (keep, recorded-later key k ts (prune w now m) miss, recorded-later key k ts m miss)
          (recent-prune w now later key m h d.1)
  ]
  | inr drop ↦ elim (Bool-cases (k == key)) [
    | inl hit ↦
        let gone =
          recorded-absent key (prune w now m) (
            lookup-prune w now key m (subst (λ j. lookup j m ≡ none) ((eq_iff k key).0 hit) d.0)) in
        rw (drop, gone, recorded-first key k ts m hit)
          (recent-nothing w later ∙ sym (none_recent w now later ts h drop))
    | inr miss ↦ rw (drop, recorded-later key k ts m miss) (recent-prune w now later key m h d.1)
  ]
]

Tracks-prune :
    (w now : ℕ) (attempts : Attempts) (log : List (String × ℕ))
    → Tracks w now attempts log
    → Tracks w now (prune_large w now attempts) log
unfolding prune_large
Tracks-prune w now attempts log t = elim (Bool-cases (ltb 5000 (length attempts))) [
  | inl large ↦ rw large (record {
    distinct = prune-Distinct w now attempts t.distinct;
    same = λ key later h. recent-prune w now later key attempts h t.distinct ∙ t.same key later h;
  })
  | inr small ↦ rw small t
]

recorded-set-here :
    (key k : String) (ts : List ℕ) (m : Attempts)
    → (k == key) ≡ true
    → recorded key (set k ts m) ≡ ts
unfolding recorded
recorded-set-here key k ts m hit = rw (set-here k key ts m hit) refl

recorded-set-elsewhere :
    (key k : String) (ts : List ℕ) (m : Attempts)
    → (k == key) ≡ false
    → recorded key (set k ts m) ≡ recorded key m
unfolding recorded
recorded-set-elsewhere key k ts m miss = rw (set-elsewhere k key ts m miss) refl

-- A refused call only forgets times that have left the window.
Tracks-refused :
    (w last now : ℕ) (k : String) (attempts : Attempts) (log : List (String × ℕ))
    → last ≤ now
    → Tracks w last attempts log
    → Tracks w now (set k (recent w now (recorded k attempts)) attempts) log
Tracks-refused w last now k attempts log order t = record {
  distinct = Distinct-set k _ attempts t.distinct;
  same = λ key later h. elim (Bool-cases (k == key)) [
    | inl hit ↦ rw (recorded-set-here key k (recent w now (recorded k attempts)) attempts hit) (
        recent-recent w now later (recorded k attempts) h
        ∙ ap (λ j. recent w later (recorded j attempts)) ((eq_iff k key).0 hit)
        ∙ t.same key later (omega (arith, order, h)))
    | inr miss ↦
        rw (recorded-set-elsewhere key k (recent w now (recorded k attempts)) attempts miss)
          (t.same key later (omega (arith, order, h)))
  ];
}

Tracks-allowed :
    (w last now : ℕ) (k : String) (attempts : Attempts) (log : List (String × ℕ))
    → last ≤ now
    → Tracks w last attempts log
    → Tracks w now
        (set k (recent w now (recorded k attempts) ++ now ∷ []) attempts)
        (log ++ (k, now) ∷ [])
Tracks-allowed w last now k attempts log order t = record {
  distinct = Distinct-set k _ attempts t.distinct;
  same = λ key later h. elim (Bool-cases (k == key)) [
    | inl hit ↦
        let e = (eq_iff k key).0 hit in
        rw
          (
            recorded-set-here key k (recent w now (recorded k attempts) ++ now ∷ []) attempts hit,
            times_of-append key k now log,
            hit,
            recent-append w later (recent w now (recorded k attempts)) (now ∷ []),
            recent-append w later (times_of key log) (now ∷ []),
          )
          (ap (λ l. l ++ recent w later (now ∷ []))
            (recent-recent w now later (recorded k attempts) h
              ∙ ap (λ j. recent w later (recorded j attempts)) e
              ∙ t.same key later (omega (arith, order, h))))
    | inr miss ↦
        rw
          (
            recorded-set-elsewhere key k (recent w now (recorded k attempts) ++ now ∷ []) attempts
                miss,
            times_of-append key k now log,
            miss,
            append-nil (times_of key log),
          )
          (t.same key later (omega (arith, order, h)))
  ];
}

-- One call of the limiter keeps to what it promises: it answers as the log of all that it allowed
-- says, and goes on tracking the log with this call in it, at no earlier a time than the last.
pub record Faithful (limit window_ms : ℕ) (key : String) (now : ℕ) (attempts : Attempts)
    (log : List (String × ℕ)) : Type 0 where
  pub answer : (allow limit window_ms key now attempts).0 ≡ permitted limit window_ms key now log
  pub tracks :
      Tracks window_ms now
        (allow limit window_ms key now attempts).1
        (logged (permitted limit window_ms key now log) key now log)

-- A limiter that tracks the log of the calls it allowed answers a call, at no earlier a time than the
-- last, as the log says: it allows the call exactly when fewer than the limit of calls with its key
-- were allowed in the window that ends now; and it goes on tracking the log, with the call added if it
-- was allowed.
pub allow-Faithful :
    (limit window_ms last now : ℕ) (key : String) (attempts : Attempts) (log : List (String × ℕ))
    → Tracks window_ms last attempts log
    → last ≤ now
    → Faithful limit window_ms key now attempts log
unfolding allow permitted
allow-Faithful limit window_ms last now key attempts log t order =
    let same = t.same key now order in
    let refuses : (b : Bool)
        → leb limit (length (recent window_ms now (times_of key log))) ≡ b
        → leb limit (length (recent window_ms now (recorded key attempts))) ≡ b =
      λ b h. rw same h in
    elim (Bool-cases (leb limit (length (recent window_ms now (times_of key log))))) [
      | inl full ↦ record {
        answer = rw (same, full) refl;
        tracks =
            rw (refuses true full, full)
              (Tracks-refused window_ms last now key attempts log order t);
      }
      | inr room ↦ record {
        answer = rw (same, room) refl;
        tracks =
            rw (refuses false room, room)
              (Tracks-prune window_ms now _ _
                (Tracks-allowed window_ms last now key attempts log order t));
      }
    ]
