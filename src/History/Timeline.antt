-- ===== src/History/Timeline.antt =====
-- The replay of a timeline (server/history.ts, `applyHistoryEvents`) and what its changes mean.
use mathlib.Core.Path.{subst}
use collaborative_ai_whitebo.Prelude.{
  ℕ, suc, ◌≡◌, refl, sym, ap, Option, none, some, List, [], ◌∷◌, ◌++◌, ◌+◌, ◌↔◌, arith, ltb, max,
  get_or, if◌then◌else◌,
}
use collaborative_ai_whitebo.Exec.{Result, ok, err}
use collaborative_ai_whitebo.History.Types.{
  Schema, Decides, HistoryEvent, HistoryError, HistoryRecordChange,
}
use collaborative_ai_whitebo.History.Changes.{and_then}
use collaborative_ai_whitebo.History.Replay.{Replayed, change_clock, apply_changes, apply_events}
use collaborative_ai_whitebo.History.States.{
  States, state_of, Runs, Runs-append, Runs-Replays, Runs-of_replay,
}

-- The clock of the document once an event was replayed: an event without a clock of its own takes the
-- next, and a clock that is behind does not take the document's back.
abbrev pub tick : ℕ → Option ℕ → ℕ
tick clock none = suc clock
tick clock (some at) = if ltb clock at then at else clock

tick-max : (clock : ℕ) (o : Option ℕ) → max clock (get_or o (clock + 1)) ≡ tick clock o
tick-max clock none = ground arith
tick-max clock (some at) = ground arith

bound-ok :
    {A B : Type 0} (r : Result HistoryError A) (f : A → Result HistoryError B) (b : B)
    → and_then r f ≡ ok b
    → (a : A) × (r ≡ ok a) × (f a ≡ ok b)
bound-ok (ok a) f b h = (a, refl, h)
bound-ok (err e) f b h = cc h

module _ {R : Type 0} where
  -- All changes of a timeline, in order.
  abbrev pub changes_of : List (HistoryEvent R) → List (HistoryRecordChange R)
  changes_of [] = []
  changes_of (e ∷ events) = e.changes ++ changes_of events

  abbrev pub clock_after : ℕ → List (HistoryEvent R) → ℕ
  clock_after clock [] = clock
  clock_after clock (e ∷ events) = clock_after (tick clock e.document_clock) events

  Runs-join :
      (cs ds : List (HistoryRecordChange R)) (from mid to : States R)
      → Runs cs from mid
      → Runs ds mid to
      → Runs (cs ++ ds) from to
  Runs-join [] ds from mid to r k = subst (λ f. Runs ds f to) (sym r) k
  Runs-join (c ∷ cs) ds from mid to r k = (r.0, Runs-join cs ds _ mid to r.1 k)

module _ {R : Type 0} (s : Schema R) (d : Decides s) where
  -- The timeline is replayed without divergence, up to the clock that its events give, and leaves the
  -- records `to`.
  pub record IsReplayed (events : List (HistoryEvent R)) (clock : ℕ) (now : Replayed R)
      (to : States R) : Type 0 where
    pub next : Replayed R
    pub replayed : apply_events s events clock now ≡ ok (clock_after clock events, next)
    pub states : state_of next ≡ to

  events-replayed :
      (events : List (HistoryEvent R)) (clock : ℕ) (now : Replayed R) (to : States R)
      → Runs (changes_of events) (state_of now) to
      → IsReplayed events clock now to
  unfolding apply_events
  events-replayed [] clock now to r = record { next = now; replayed = refl; states = r }
  events-replayed (e ∷ events) clock now to r =
      let (mid, one, two) = Runs-append e.changes (changes_of events) (state_of now) to r in
      let first = Runs-Replays s d e.id (change_clock e clock) e.changes now mid one in
      let rest =
        events-replayed events (tick clock e.document_clock) first.next to
          (subst (λ f. Runs (changes_of events) f to) (sym first.states) two) in
      record {
        next = rest.next;
        replayed = rw (first.replayed, tick-max clock e.document_clock) rest.replayed;
        states = rest.states;
      }

  replayed-Runs :
      (events : List (HistoryEvent R)) (clock last : ℕ) (now next : Replayed R)
      → apply_events s events clock now ≡ ok (last, next)
      → Runs (changes_of events) (state_of now) (state_of next)
  unfolding apply_events
  replayed-Runs [] clock last now next h = let e : now ≡ next = cc h in ap state_of e
  replayed-Runs (e ∷ events) clock last now next h =
      let (mid, one, two) =
        bound-ok (apply_changes s e.id (change_clock e clock) e.changes now) _ _ h in
      Runs-join e.changes (changes_of events) (state_of now) (state_of mid) (state_of next)
        (Runs-of_replay s d e.id (change_clock e clock) e.changes now mid one)
        (replayed-Runs events _ last mid next two)

  -- A timeline is replayed without divergence, up to the clock that its events give, and leaves the
  -- records `to`, exactly when each of its changes finds its `before` under its id and the records `to`
  -- are what is left when each writes its `after` (given that `isDeepStrictEqual` decides equality).
  pub apply_events-Runs :
      (events : List (HistoryEvent R)) (clock : ℕ) (now : Replayed R) (to : States R)
      → IsReplayed events clock now to ↔ Runs (changes_of events) (state_of now) to
  apply_events-Runs events clock now to = (
    λ r.
        subst (λ f. Runs (changes_of events) (state_of now) f) r.states
          (replayed-Runs events clock _ now r.next r.replayed),
    events-replayed events clock now to,
  )
