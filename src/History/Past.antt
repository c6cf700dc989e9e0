-- ===== src/History/Past.antt =====
-- The events that a reconstruction replays (server/history.ts, `eventsBetween`), in the order of their ids.
use collaborative_ai_whitebo.Prelude.{
  ℕ, suc, ◌<◌, ◌≤◌, String, ◌≡◌, refl, ◌∙◌, sym, Bool, true, false, ◌&&◌, inl, inr, Bool-cases,
  none, some, List, [], ◌∷◌, ◌++◌, arith, All, ltb, leb, eqb, ◌==◌, filter, find?,
}
use mathlib.Core.Path.{subst}
use collaborative_ai_whitebo.Exec.Keeps.{Keeps, Keeps-modify}
use collaborative_ai_whitebo.History.Types.{Schema, HistoryEvent, HistoryDatabase}
use collaborative_ai_whitebo.History.Rows.{get_event, delete_fragments}
use collaborative_ai_whitebo.History.Reconstruct.{events_between}
use collaborative_ai_whitebo.History.Steps.{Steps, HistoryReach, Reach-Rel}
use collaborative_ai_whitebo.History.Appends.{filter-filter, Reach-Appends, past_unchanged}
use collaborative_ai_whitebo.History.Staging.{new_history}

module _ {R : Type 0} where
  -- Ids grow along the table.
  Ascending : List (HistoryEvent R) → Type 0
  Ascending [] = Unit
  Ascending (e ∷ es) = All (λ f. e.id < f.id) es × Ascending es

  -- The events are in the order of their ids, up to the last id given.
  record Ordered (db : HistoryDatabase R) : Type 0 where
    ascending : Ascending db.events
    below : All (λ e. e.id ≤ db.last_event) db.events

  record StaysOrdered (s t : HistoryDatabase R) : Type 0 where
    carry : Ordered s → Ordered t

  below-snoc :
      (last : ℕ) (es : List (HistoryEvent R)) (e : HistoryEvent R)
      → e.id ≡ suc last
      → All (λ f. f.id ≤ last) es
      → All (λ f. f.id ≤ e.id) (es ++ e ∷ [])
  below-snoc last [] e h b = (omega arith, tt)
  below-snoc last (f ∷ es) e h b = (omega (arith, h, b.0), below-snoc last es e h b.1)

  above-snoc :
      (n : ℕ) (es : List (HistoryEvent R)) (e : HistoryEvent R)
      → n < e.id
      → All (λ f. n < f.id) es
      → All (λ f. n < f.id) (es ++ e ∷ [])
  above-snoc n [] e h a = (h, tt)
  above-snoc n (f ∷ es) e h a = (a.0, above-snoc n es e h a.1)

  Ascending-snoc :
      (last : ℕ) (es : List (HistoryEvent R)) (e : HistoryEvent R)
      → e.id ≡ suc last
      → Ascending es
      → All (λ f. f.id ≤ last) es
      → Ascending (es ++ e ∷ [])
  unfolding Ascending
  Ascending-snoc last [] e h a b = (tt, tt)
  Ascending-snoc last (f ∷ es) e h a b =
      (above-snoc f.id es e (omega (arith, h, b.0)) a.0, Ascending-snoc last es e h a.1 b.1)

  unchanged_events : (db : HistoryDatabase R) → StaysOrdered db db
  unchanged_events db = record { carry = λ h. h }

  delete-StaysOrdered :
      (board_id : String) (first last : ℕ)
      → Keeps StaysOrdered (delete_fragments {R = R} board_id first last)
  unfolding delete_fragments
  delete-StaysOrdered board_id first last =
      Keeps-modify _
        λ db. record { carry = λ h. record { ascending = h.ascending; below = h.below } }

  StaysOrdered-Steps : Steps StaysOrdered
  StaysOrdered-Steps = record {
    preorder = record {
      same = unchanged_events;
      trans = λ s t u g h. record { carry = λ x. h.carry (g.carry x) };
    };
    event = λ e db next. record {
      carry = λ h. record {
        ascending = Ascending-snoc db.last_event db.events e next h.ascending h.below;
        below = below-snoc db.last_event db.events e next h.below;
      };
    };
    checkpoint =
        λ c db next. record { carry = λ h. record { ascending = h.ascending; below = h.below } };
    fragment =
        λ f db next. record { carry = λ h. record { ascending = h.ascending; below = h.below } };
    delete = delete-StaysOrdered;
  }

  new_history-Ordered : Ordered (new_history {R = R})
  unfolding Ascending
  new_history-Ordered = record { ascending = tt; below = tt }

module _ {R : Type 0} (board_id : String) where
  abbrev within : ℕ → ℕ → HistoryEvent R → Bool
  within base target e = (e.board_id == board_id) && (ltb base e.id && leb e.id target)

  abbrev is_event : ℕ → HistoryEvent R → Bool
  is_event id e = (e.board_id == board_id) && eqb e.id id

  raised :
      (m n : ℕ) (es : List (HistoryEvent R))
      → m ≤ n
      → All (λ e. n < e.id) es
      → All (λ e. m < e.id) es
  raised m n [] l h = tt
  raised m n (e ∷ es) l h = (omega (arith, l, h.0), raised m n es l h.1)

  none-within :
      (base target : ℕ) (es : List (HistoryEvent R))
      → All (λ e. target < e.id) es
      → filter (within base target) es ≡ []
  none-within base target [] h = refl
  none-within base target (e ∷ es) h = ground (arith, h.0, none-within base target es h.1)

  moved-base :
      (base mid target : ℕ) (es : List (HistoryEvent R))
      → base ≤ mid
      → All (λ e. mid < e.id) es
      → filter (within base target) es ≡ filter (within mid target) es
  moved-base base mid target [] l h = refl
  moved-base base mid target (e ∷ es) l h =
      ground (arith, l, h.0, moved-base base mid target es l h.1)

  not-found :
      (id : ℕ) (es : List (HistoryEvent R))
      → All (λ e. id < e.id) es
      → find? (is_event id) es ≡ none
  not-found id [] h = refl
  not-found id (e ∷ es) h = ground (arith, h.0, not-found id es h.1)

  found-here :
      (id : ℕ) (e x : HistoryEvent R) (es : List (HistoryEvent R))
      → is_event id x ≡ true
      → find? (is_event id) (x ∷ es) ≡ some e
      → x ≡ e
  found-here id e x es hit h = cc (rw hit at h)

  found-later :
      (id : ℕ) (e x : HistoryEvent R) (es : List (HistoryEvent R))
      → is_event id x ≡ false
      → find? (is_event id) (x ∷ es) ≡ some e
      → find? (is_event id) es ≡ some e
  found-later id e x es miss h = rw miss at h

  -- In a table in order, the events from a base to a target are those up to the id before an event, the
  -- event, and those after it.
  split-at :
      (base prev target : ℕ) (e : HistoryEvent R) (es : List (HistoryEvent R))
      → Ascending es
      → find? (is_event (suc prev)) es ≡ some e
      → base ≤ prev
      → suc prev ≤ target
      → filter (within base target) es
        ≡ filter (within base prev) es ++ e ∷ filter (within (suc prev) target) es
  unfolding Ascending
  split-at base prev target e [] a h l k = cc h
  split-at base prev target e (x ∷ es) a h l k = elim (Bool-cases (is_event (suc prev) x)) [
    | inl hit ↦
        let above : All (λ f. suc prev < f.id) es = raised _ x.id es (ground (arith, hit)) a.0 in
        let none : filter (within base prev) es ≡ [] =
          none-within base prev es (raised prev (suc prev) es (omega arith) above) in
        let rest = moved-base base (suc prev) target es (omega (arith, l)) above in
        subst
          (λ y.
            filter (within base target) (x ∷ es)
            ≡ filter (within base prev) (x ∷ es) ++ y ∷ filter (within (suc prev) target) (x ∷ es))
          (found-here (suc prev) e x es hit h) (ground (arith, none, rest, hit, l, k))
    | inr miss ↦ elim (Bool-cases (leb x.id prev)) [
      | inl low ↦
          let rest =
            split-at base prev target e es a.1 (found-later (suc prev) e x es miss h) l k in
          ground (arith, rest, low, k)
      | inr high ↦
          let gone =
            not-found (suc prev) es (raised (suc prev) x.id es (ground (arith, high)) a.0) in
          cc (sym gone ∙ found-later (suc prev) e x es miss h)
    ]
  ]

  find-append :
      (q : HistoryEvent R → Bool) (e : HistoryEvent R) (xs ys : List (HistoryEvent R))
      → find? q xs ≡ some e
      → find? q (xs ++ ys) ≡ some e
  find-append q e [] ys h = cc h
  find-append q e (x ∷ xs) ys h = elim (Bool-cases (q x)) [
    | inl hit ↦ rw hit (rw hit at h)
    | inr miss ↦ rw miss (find-append q e xs ys (rw miss at h))
  ]

  found-below :
      (id last : ℕ) (e : HistoryEvent R) (es : List (HistoryEvent R))
      → All (λ f. f.id ≤ last) es
      → find? (is_event id) es ≡ some e
      → id ≤ last
  found-below id last e [] b h = cc h
  found-below id last e (x ∷ es) b h = elim (Bool-cases (is_event id x)) [
    | inl hit ↦ ground (arith, hit, b.0)
    | inr miss ↦ found-below id last e es b.1 (found-later id e x es miss h)
  ]

module _ {R : Type 0} (s : Schema R) (board_id : String) where
  Reach-Ordered : (db : HistoryDatabase R) → HistoryReach s board_id new_history db → Ordered db
  Reach-Ordered db r =
      (Reach-Rel StaysOrdered StaysOrdered-Steps s board_id r).carry new_history-Ordered

  events_between-filter :
      (base target : ℕ) (db : HistoryDatabase R)
      → events_between board_id base (some target) db
        ≡ filter (within board_id base target) db.events
  unfolding events_between
  events_between-filter base target db = filter-filter _ _ db.events

  -- In a history that operations of the store have reached from a new one, and after any later ones, the
  -- events that a reconstruction replays from a base to a target are: those up to the id before an event
  -- of the board, as they were before the later operations; that event; and those that a reconstruction
  -- replays from it to the target.
  pub events_between-at :
      (a b : HistoryDatabase R) (base prev target : ℕ) (e : HistoryEvent R)
      → HistoryReach s board_id new_history a
      → HistoryReach s board_id a b
      → get_event board_id (suc prev) a ≡ some e
      → base ≤ prev
      → suc prev ≤ target
      → events_between board_id base (some target) b
        ≡ events_between board_id base (some prev) a
          ++ e ∷ events_between board_id (suc prev) (some target) b
  unfolding get_event
  events_between-at a b base prev target e start r found l k =
      let old = Reach-Ordered a start in
      let new = (Reach-Rel StaysOrdered StaysOrdered-Steps s board_id r).carry old in
      let grown = (Reach-Appends s board_id {a = a} {b = b} r).events in
      let still : find? (is_event board_id (suc prev)) b.events ≡ some e =
        subst (λ es. find? (is_event board_id (suc prev)) es ≡ some e) (sym grown.after)
          (find-append board_id _ e a.events grown.added found) in
      let past =
        past_unchanged s board_id a b base prev r (
          omega (arith, found-below board_id (suc prev) a.last_event e a.events old.below found)) in
      rw
        (
          events_between-filter base target b,
          split-at board_id base prev target e b.events new.ascending still l k,
          sym (events_between-filter base prev b),
          past,
          sym (events_between-filter (suc prev) target b),
        )
        refl
