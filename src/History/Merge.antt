-- ===== src/History/Merge.antt =====
-- About `mergeChanges` of server/history.ts and the replay of what it makes.
use mathlib.Core.Path.{subst}
use collaborative_ai_whitebo.Prelude.{
  ℕ, String, ◌≡◌, refl, ◌∙◌, sym, ap, none, some, List, [], ◌∷◌, ◌++◌, inl, inr, Bool-cases,
  Option-cases, ◌==◌, eq_iff, Assoc, lookup, set, delete, set-here, set-elsewhere, delete-here,
  delete-elsewhere, lookup-empty, lookup-first, lookup-later, values, Distinct, Distinct-set,
  Distinct-delete,
}
use collaborative_ai_whitebo.Exec.{ok}
use collaborative_ai_whitebo.History.Types.{Schema, Decides, HistoryRecordChange}
use collaborative_ai_whitebo.History.Changes.{
  same, next_change, merge_change, merge_into, merge_groups, merge_changes,
}
use collaborative_ai_whitebo.History.Replay.{Replayed, apply_changes}
use collaborative_ai_whitebo.History.States.{
  States, state_of, put, Runs, Runs-append, same_iff, Replays, Runs-Replays, Runs-of_replay,
}

module _ {R : Type 0} where
  -- The change of each id goes from `from` to `to`, and the other ids stay.
  pub record Merged (m : Assoc (HistoryRecordChange R)) (from to : States R) : Type 0 where
    pub distinct : Distinct m
    pub known :
        (k : String) (c : HistoryRecordChange R)
        → lookup k m ≡ some c
        → (c.record_id ≡ k) × (c.before ≡ from k) × (c.after ≡ to k)
    pub rest : (k : String) → lookup k m ≡ none → from k ≡ to k

  tail_known :
      (j : String) (c : HistoryRecordChange R) (m : Assoc (HistoryRecordChange R))
      (from to : States R)
      → Merged ((j, c) ∷ m) from to
      → (k : String) (x : HistoryRecordChange R) → lookup k m ≡ some x
      → (x.record_id ≡ k) × (x.before ≡ put c from k) × (x.after ≡ to k)
  unfolding put
  tail_known j c m from to h k x found = elim (Bool-cases (j == k)) [
    | inl hit ↦
        let gone : lookup k m ≡ none =
          subst (λ i. lookup i m ≡ none) ((eq_iff j k).0 hit) h.distinct.0 in
        cc (gone, found)
    | inr miss ↦
        let id = (h.known j c (lookup-first j c m)).0 in
        rw (id, miss) (h.known k x (lookup-later k j c m miss ∙ found))
  ]

  tail_rest :
      (j : String) (c : HistoryRecordChange R) (m : Assoc (HistoryRecordChange R))
      (from to : States R)
      → Merged ((j, c) ∷ m) from to
      → (k : String) → lookup k m ≡ none
      → put c from k ≡ to k
  unfolding put
  tail_rest j c m from to h k gone =
      let (id, _, after) = h.known j c (lookup-first j c m) in
      elim (Bool-cases (j == k)) [
        | inl hit ↦ rw (id, hit) (after ∙ ap to ((eq_iff j k).0 hit))
        | inr miss ↦ rw (id, miss) (h.rest k (lookup-later k j c m miss ∙ gone))
      ]

  -- A map of changes runs from `from` to `to`, its entries one after the other.
  pub Merged-Runs :
      (m : Assoc (HistoryRecordChange R)) (from to : States R)
      → Merged m from to
      → Runs (values m) from to
  Merged-Runs [] from to h = λ i k. h.rest k (lookup-empty k) i
  Merged-Runs ((j, c) ∷ m) from to h =
      let (id, before, _) = h.known j c (lookup-first j c m) in
      (
        before ∙ ap from (sym id),
        Merged-Runs m (put c from) to (record {
          distinct = h.distinct.1;
          known = tail_known j c m from to h;
          rest = tail_rest j c m from to h;
        }),
      )

  nothing-Merged : (from : States R) → Merged [] from from
  nothing-Merged from = record {
    distinct = tt;
    known = λ k c found. cc (lookup-empty k, found);
    rest = λ k gone. refl;
  }

-- The change that is merged in, beside what the map had for its id.
module _ {R : Type 0} (m : Assoc (HistoryRecordChange R)) (c : HistoryRecordChange R)
    (from to : States R) (h : Merged m from to) (fits : c.before ≡ to c.record_id) where
  next_sides :
      (next_change (lookup c.record_id m) c).record_id ≡ c.record_id
      × (next_change (lookup c.record_id m) c).before ≡ from c.record_id
      × (next_change (lookup c.record_id m) c).after ≡ c.after
  next_sides = elim (Option-cases (lookup c.record_id m)) [
    | inl gone ↦ rw gone (refl, fits ∙ sym (h.rest c.record_id gone), refl)
    | inr (p, found) ↦ rw found (refl, (h.known c.record_id p found).1, refl)
  ]

  dropped : from c.record_id ≡ c.after → Merged (delete c.record_id m) from (put c to)
  unfolding put
  dropped stays = record {
    distinct = Distinct-delete c.record_id m h.distinct;
    known = λ k x found. elim (Bool-cases (c.record_id == k)) [
      | inl hit ↦ cc (found, delete-here c.record_id k m hit)
      | inr miss ↦
          let kept = delete-elsewhere c.record_id k m miss in
          rw miss (h.known k x (sym kept ∙ found))
    ];
    rest = λ k gone. elim (Bool-cases (c.record_id == k)) [
      | inl hit ↦ rw hit (ap from (sym ((eq_iff c.record_id k).0 hit)) ∙ stays)
      | inr miss ↦
          let kept = delete-elsewhere c.record_id k m miss in rw miss (h.rest k (sym kept ∙ gone))
    ];
  }

  replaced :
      (n : HistoryRecordChange R)
      → (n.record_id ≡ c.record_id) × (n.before ≡ from c.record_id) × (n.after ≡ c.after)
      → Merged (set c.record_id n m) from (put c to)
  unfolding put
  replaced n (id, before, after) = record {
    distinct = Distinct-set c.record_id n m h.distinct;
    known = λ k x found. elim (Bool-cases (c.record_id == k)) [
      | inl hit ↦
          let here : n ≡ x = cc (found, set-here c.record_id k n m hit) in
          let e = (eq_iff c.record_id k).0 hit in
          rw hit (
            subst (λ y. (y.record_id ≡ k) × (y.before ≡ from k) × (y.after ≡ c.after)) here
              (id ∙ e, before ∙ ap from e, after))
      | inr miss ↦
          let kept = set-elsewhere c.record_id k n m miss in
          rw miss (h.known k x (sym kept ∙ found))
    ];
    rest = λ k gone. elim (Bool-cases (c.record_id == k)) [
      | inl hit ↦ cc (gone, set-here c.record_id k n m hit)
      | inr miss ↦
          let kept = set-elsewhere c.record_id k n m miss in rw miss (h.rest k (sym kept ∙ gone))
    ];
  }

module _ {R : Type 0} (s : Schema R) (d : Decides s) where
  merge_change-Merged :
      (m : Assoc (HistoryRecordChange R)) (c : HistoryRecordChange R) (from to : States R)
      → Merged m from to
      → c.before ≡ to c.record_id
      → Merged (merge_change s m c) from (put c to)
  unfolding merge_change
  merge_change-Merged m c from to h fits =
      let n = next_change (lookup c.record_id m) c in
      let sides = next_sides m c from to h fits in
      elim (Bool-cases (same s n.before n.after)) [
        | inl equal ↦
            let e = (same_iff s d n.before n.after).0 equal in
            rw equal (dropped m c from to h fits (sym sides.1 ∙ e ∙ sides.2))
        | inr differ ↦ rw differ (replaced m c from to h fits n sides)
      ]

  merge_into-Merged :
      (cs : List (HistoryRecordChange R)) (m : Assoc (HistoryRecordChange R))
      (from mid to : States R)
      → Merged m from mid
      → Runs cs mid to
      → Merged (merge_into s m cs) from to
  unfolding merge_into
  merge_into-Merged [] m from mid to h r = subst (Merged m from) r h
  merge_into-Merged (c ∷ cs) m from mid to h r =
      merge_into-Merged cs (merge_change s m c) from (put c mid) to
        (merge_change-Merged m c from mid h r.0) r.1

  abbrev pub flatten : List (List (HistoryRecordChange R)) → List (HistoryRecordChange R)
  flatten [] = []
  flatten (g ∷ gs) = g ++ flatten gs

  merge_groups-Merged :
      (gs : List (List (HistoryRecordChange R))) (m : Assoc (HistoryRecordChange R))
      (from mid to : States R)
      → Merged m from mid
      → Runs (flatten gs) mid to
      → Merged (merge_groups s m gs) from to
  unfolding merge_groups
  merge_groups-Merged [] m from mid to h r = subst (Merged m from) r h
  merge_groups-Merged (g ∷ gs) m from mid to h r =
      let (next, one, two) = Runs-append g (flatten gs) mid to r in
      merge_groups-Merged gs (merge_into s m g) from next to
        (merge_into-Merged g m from mid next h one) two

  -- The merge of groups of changes runs from where the groups start to where they end.
  pub merge_changes-Runs :
      (groups : List (List (HistoryRecordChange R))) (from to : States R)
      → Runs (flatten groups) from to
      → Runs (merge_changes s groups) from to
  unfolding merge_changes
  merge_changes-Runs groups from to r =
      Merged-Runs _ from to (merge_groups-Merged groups [] from from to (nothing-Merged from) r)

  -- Where the changes of the groups replay one after the other, their merge replays as well, at any
  -- event and clock, and leaves the same record under each id.
  pub merge_changes-replay :
      (groups : List (List (HistoryRecordChange R))) (now next : Replayed R)
      (id clock id' clock' : ℕ)
      → apply_changes s id clock (flatten groups) now ≡ ok next
      → Replays s d id' clock' (merge_changes s groups) now (state_of next)
  merge_changes-replay groups now next id clock id' clock' h =
      Runs-Replays s d id' clock' (merge_changes s groups) now (state_of next) (
        merge_changes-Runs groups (state_of now) (state_of next)
          (Runs-of_replay s d id clock (flatten groups) now next h))
