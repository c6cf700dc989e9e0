-- ===== src/History/Flush.antt =====
-- The forced flush of server/history.ts (`flushFragments`), group by group.
use mathlib.Core.List.{append-nil, append_assoc}
use mathlib.Core.Path.{subst}
use collaborative_ai_whitebo.Prelude.{
  ℕ, ◌≤◌, ◌<◌, String, ◌≡◌, refl, ◌∙◌, sym, ap, Bool, true, not, inl, inr, Bool-cases, length, ◌&&◌,
  List, [], ◌∷◌, ◌++◌, arith, All, leb, get_or, ◌==◌, filter, last?,
}
use collaborative_ai_whitebo.Exec.{ok, pure, modify}
use collaborative_ai_whitebo.Exec.Keeps.{IsPreorder, Keeps, keeps_rules}
use collaborative_ai_whitebo.Exec.Atomic.{ReadsOnly-gets}
use collaborative_ai_whitebo.Exec.Inversion.{Splits-bind, read-bind, gets-eq-ok, transaction-eq-ok}
use collaborative_ai_whitebo.History.Types.{
  Schema, HistoryEvent, HistoryEventInput, HistoryFragment, HistoryDatabase,
}
use collaborative_ai_whitebo.History.Rows.{
  add_to_groups, groups_from, members, last_member, pending, get_pending_fragment_count,
  delete_fragments, with_event,
}
use collaborative_ai_whitebo.History.Store.{
  insert_event, publish, merged_input, publish_then, flush_groups, flush_body, flush_fragments,
}

module _ {R : Type 0} where
  -- Ids grow along the table.
  abbrev pub Sorted : List (HistoryFragment R) → Type 0
  Sorted [] = Unit
  Sorted (f ∷ fs) = All (λ g. f.event.id < g.event.id) fs × Sorted fs

  abbrev pub flat : List (HistoryFragment R × List (HistoryFragment R)) → List (HistoryFragment R)
  flat [] = []
  flat (g ∷ gs) = members g ++ flat gs

  flat-add_to_groups :
      (gs : List (HistoryFragment R × List (HistoryFragment R))) (row : HistoryFragment R)
      → flat (add_to_groups gs row) ≡ flat gs ++ row ∷ []
  flat-add_to_groups [] row = refl
  flat-add_to_groups ((first, others) ∷ []) row =
      elim (Bool-cases (first.coalesce_group == row.coalesce_group)) [
        | inl equal ↦ rw (equal, append-nil (others ++ row ∷ []), append-nil others) refl
        | inr differ ↦ rw (differ, append-nil others) refl
      ]
  flat-add_to_groups (g ∷ h ∷ gs) row =
      ap (λ l. members g ++ l) (flat-add_to_groups (h ∷ gs) row)
      ∙ sym (append_assoc (members g) (flat (h ∷ gs)) (row ∷ []))

  flat-groups_from :
      (gs : List (HistoryFragment R × List (HistoryFragment R))) (rows : List (HistoryFragment R))
      → flat (groups_from gs rows) ≡ flat gs ++ rows
  flat-groups_from gs [] = sym (append-nil (flat gs))
  flat-groups_from gs (row ∷ rows) =
      flat-groups_from (add_to_groups gs row) rows
      ∙ ap (λ l. l ++ rows) (flat-add_to_groups gs row)
      ∙ append_assoc (flat gs) (row ∷ []) rows

  -- whether an id is out of the range of a DELETE
  abbrev pub outside : ℕ → ℕ → HistoryFragment R → Bool
  outside low high f = not (leb low f.event.id && leb f.event.id high)

  keep_above :
      (low high : ℕ) (fs : List (HistoryFragment R))
      → All (λ g. high < g.event.id) fs
      → filter (outside low high) fs ≡ fs
  keep_above low high [] h = refl
  keep_above low high (f ∷ fs) h = ground (arith, keep_above low high fs h.1, h.0)

  last_id : HistoryFragment R → List (HistoryFragment R) → ℕ
  last_id first others = (last_member (first, others)).event.id

  last_any :
      (h : HistoryFragment R) (fs : List (HistoryFragment R)) (a b : HistoryFragment R)
      → get_or (last? (h ∷ fs)) a ≡ get_or (last? (h ∷ fs)) b
  last_any h [] a b = refl
  last_any h (g ∷ fs) a b = last_any g fs a b

  last_id-step :
      (f g : HistoryFragment R) (fs : List (HistoryFragment R)) → last_id f (g ∷ fs) ≡ last_id g fs
  unfolding last_id
  last_id-step f g [] = refl
  last_id-step f g (h ∷ fs) = ap (λ r. r.event.id) (last_any h fs f g)

  first_le_last :
      (f : HistoryFragment R) (fs rest : List (HistoryFragment R))
      → Sorted (f ∷ (fs ++ rest))
      → f.event.id ≤ last_id f fs
  unfolding last_id
  first_le_last f [] rest s = omega arith
  first_le_last f (g ∷ fs) rest s =
      rw (last_id-step f g fs) (omega (arith, first_le_last g fs rest s.1, s.0.0))

  drop_one :
      (low : ℕ) (f : HistoryFragment R) (high : ℕ) (rest : List (HistoryFragment R))
      → low ≤ f.event.id
      → f.event.id ≤ high
      → filter (outside low high) (f ∷ rest) ≡ filter (outside low high) rest
  drop_one low f high rest h k = ground arith

  drop_group :
      (low : ℕ) (f : HistoryFragment R) (fs rest : List (HistoryFragment R))
      → low ≤ f.event.id
      → Sorted (f ∷ (fs ++ rest))
      → filter (outside low (last_id f fs)) (f ∷ (fs ++ rest)) ≡ rest
  unfolding last_id
  drop_group low f [] rest h s =
      drop_one low f (last_id f []) rest h (omega arith) ∙ keep_above low (last_id f []) rest s.0
  drop_group low f (g ∷ fs) rest h s =
      let up = first_le_last g fs rest s.1 in
      subst (λ n. filter (outside low n) (f ∷ g ∷ (fs ++ rest)) ≡ rest) (sym (last_id-step f g fs))
        (drop_one low f (last_id g fs) (g ∷ (fs ++ rest)) h (omega (arith, up, s.0.0))
          ∙ drop_group low g fs rest (omega (arith, h, s.0.0)) s.1)

  Sorted-tail : (fs rest : List (HistoryFragment R)) → Sorted (fs ++ rest) → Sorted rest
  Sorted-tail [] rest s = s
  Sorted-tail (f ∷ fs) rest s = Sorted-tail fs rest s.1

  filter-filter_own :
      (board_id : String) (low high : ℕ) (fs : List (HistoryFragment R))
      → filter
          (λ f. f.event.board_id == board_id)
          (filter
            (λ f. not ((f.event.board_id == board_id) && leb low f.event.id && leb f.event.id high))
            fs)
        ≡ filter (outside low high) (filter (λ f. f.event.board_id == board_id) fs)
  filter-filter_own board_id low high [] = refl
  filter-filter_own board_id low high (f ∷ fs) =
      ground (arith, filter-filter_own board_id low high fs)

  -- The DELETE of a group takes its fragments off the pending ones.
  delete-pending :
      (board_id : String) (g : HistoryFragment R × List (HistoryFragment R))
      (rest : List (HistoryFragment R)) (db : HistoryDatabase R)
      → pending board_id db ≡ members g ++ rest
      → Sorted (members g ++ rest)
      → pending board_id (delete_fragments board_id g.0.event.id (last_member g).event.id db).1
        ≡ rest
  unfolding delete_fragments modify last_id
  delete-pending board_id (first, others) rest db e s =
      filter-filter_own board_id first.event.id (last_id first others) db.fragments
      ∙ ap (filter (outside first.event.id (last_id first others))) e
      ∙ drop_group first.event.id first others rest (omega arith) s

  -- Publishing an event leaves the fragments.
  pub record Stays (s t : HistoryDatabase R) : Type 0 where
    pub fragments : t.fragments ≡ s.fragments

  Stays-IsPreorder : IsPreorder Stays
  Stays-IsPreorder = record {
    same = λ s. record { fragments = refl };
    trans = λ s t u g h. record { fragments = h.fragments ∙ g.fragments };
  }

  with_event-Stays : (e : HistoryEvent R) (db : HistoryDatabase R) → Stays db (with_event e db)
  with_event-Stays e db = record { fragments = refl }

module _ {R : Type 0} (s : Schema R) (board_id : String) (now : ℕ) where
  pub insert_event-Stays :
      (input : HistoryEventInput R) → Keeps Stays (insert_event s board_id now input)
  unfolding insert_event
  insert_event-Stays input = search (keeps_rules, Stays-IsPreorder, with_event-Stays) depth 12

  publish-Stays : (input : HistoryEventInput R) → Keeps Stays (publish s board_id now input)
  unfolding publish
  publish-Stays input = search (keeps_rules, Stays-IsPreorder, insert_event-Stays) depth 9

  flush_groups-empties :
      (gs : List (HistoryFragment R × List (HistoryFragment R))) (db : HistoryDatabase R)
      {events : List (HistoryEvent R)}
      → pending board_id db ≡ flat gs
      → Sorted (flat gs)
      → (flush_groups s board_id now true gs db).0 ≡ ok events
      → pending board_id (flush_groups s board_id now true gs db).1 ≡ []
  unfolding flush_groups publish_then pure
  flush_groups-empties [] db e sorted h = e
  flush_groups-empties (g ∷ gs) db e sorted h =
      let one = Splits-bind (publish s board_id now (merged_input s board_id now g)) _ db h in
      let kept = ((publish-Stays (merged_input s board_id now g)).at db).fragments in
      let two =
        Splits-bind (delete_fragments board_id g.0.event.id (last_member g).event.id) _ _
          one.second in
      let left =
        delete-pending board_id g (flat gs) _
          (ap (filter (λ f. f.event.board_id == board_id)) kept ∙ e) sorted in
      let three = Splits-bind (flush_groups s board_id now true gs) _ _ two.second in
      let rest =
        flush_groups-empties gs _ left (Sorted-tail (members g) (flat gs) sorted) three.first in
      rw (one.final ∙ two.final ∙ three.final) rest

  -- A forced flush that returns leaves the board without a pending fragment, when the ids of its
  -- fragments grow along the table.
  pub flush_fragments-empties :
      (db : HistoryDatabase R) {events : List (HistoryEvent R)}
      → Sorted (pending board_id db)
      → (flush_fragments s board_id now true db).0 ≡ ok events
      → get_pending_fragment_count board_id (flush_fragments s board_id now true db).1 ≡ 0
  unfolding flush_fragments flush_body get_pending_fragment_count
  flush_fragments-empties db sorted h =
      let (inside, kept) = transaction-eq-ok _ db h in
      let rows = read-bind _ _ db (ReadsOnly-gets (pending board_id)) inside in
      let e = gets-eq-ok (pending board_id) db rows.first ∙ sym (flat-groups_from [] rows.value) in
      let none_left =
        flush_groups-empties (groups_from [] rows.value) db e (subst Sorted e sorted) rows.second in
      rw (kept ∙ rows.final) (ap length none_left)
