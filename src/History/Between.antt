-- ===== src/History/Between.antt =====
-- About `changesBetweenSnapshots` of server/history.ts and the replay of its changes.
use mathlib.Core.Path.{subst}
use collaborative_ai_whitebo.Prelude.{
  ℕ, String, ◌≡◌, refl, ◌∙◌, sym, ap, Bool, true, false, not, List, [], ◌∷◌, ◌++◌, inl, inr, arith,
  if◌then◌else◌, Bool-cases, ◌==◌, ◌||◌, eq_iff, Assoc, lookup, set, lookup-set, keys, has, Unique,
  add_ids, add_ids-Unique, add_ids-has, has-append, lookup-absent, lookup-empty,
}
use collaborative_ai_whitebo.Exec.{Result, ok, err}
use collaborative_ai_whitebo.History.Types.{
  Schema, Decides, HistoryRecordChange, Document, RoomSnapshot, HistoryError, bad_identifier,
  null_change, wrong_before, wrong_after,
}
use collaborative_ai_whitebo.History.Changes.{
  and_then, same, is_identifier, is_side, both_null, validate_change, validate_changes,
  states_by_id, before_by_id, differences, changes_between_snapshots,
}
use collaborative_ai_whitebo.History.Replay.{state?, documents_by_id, replay_base}
use collaborative_ai_whitebo.History.States.{
  States, state_of, put, Runs, same_iff, Replays, Runs-Replays,
}

-- Membership in a list that starts with `id`.
first : (id : String) (ids : List String) (k : String) → (id == k) ≡ true → has (id ∷ ids) k ≡ true
first id ids k h = ground (arith, h)

later : (id : String) (ids : List String) (k : String) → has ids k ≡ true → has (id ∷ ids) k ≡ true
later id ids k h = ground (arith, h)

neither :
    (id : String) (ids : List String) (k : String)
    → (id == k) ≡ false
    → has ids k ≡ false
    → has (id ∷ ids) k ≡ false
neither id ids k m h = ground (arith, m, h)

another :
    (id : String) (ids : List String) (k : String)
    → has ids id ≡ false
    → has ids k ≡ true
    → (id == k) ≡ false
another id ids k out h = elim (Bool-cases (id == k)) [
  | inl hit ↦ cc (h, subst (λ j. has ids j ≡ false) ((eq_iff id k).0 hit) out)
  | inr miss ↦ miss
]

absent_both :
    (xs ys : List String) (k : String)
    → has (add_ids [] (xs ++ ys)) k ≡ false
    → (has xs k ≡ false) × (has ys k ≡ false)
absent_both xs ys k h =
    go (has xs k) (has ys k) (sym (add_ids-has [] (xs ++ ys) k ∙ has-append xs ys k) ∙ h)
  where
    go : (x y : Bool) → (x || y) ≡ false → (x ≡ false) × (y ≡ false)
    go false y e = (refl, e)
    go true y e = cc

and_then-eq-ok :
    {A B : Type 0} (r : Result HistoryError A) (f : A → Result HistoryError B) {b : B}
    → and_then r f ≡ ok b
    → (a : A) × (r ≡ ok a) × (f a ≡ ok b)
and_then-eq-ok (err e) f h = cc
and_then-eq-ok (ok a) f h = (a, refl, h)

-- Four checks that did not refuse.
unrefused :
    {A : Type 0} (p q r t : Bool) (e f g h : HistoryError) (x y : A)
    → (if p then err e else if q then err f else if r then err g else if t then err h else ok x)
      ≡ ok y
    → x ≡ y
unrefused true q r t e f g h x y k = cc
unrefused false true r t e f g h x y k = cc
unrefused false false true t e f g h x y k = cc
unrefused false false false true e f g h x y k = cc
unrefused false false false false e f g h x y k = cc

lookup-nothing :
    {R : Type 0} (k : String) → lookup {V = R} k [] ≡ state? (lookup {V = Document R} k [])
lookup-nothing k = lookup-empty k ∙ sym (ap state? (lookup-empty k))

module _ {R : Type 0} (s : Schema R) (d : Decides s) where
  differences-Runs :
      (before after : Assoc R) (ids : List String) (from : States R)
      → Unique ids
      → ((k : String) → has ids k ≡ true → from k ≡ lookup k before)
      → ((k : String) → has ids k ≡ false → from k ≡ lookup k after)
      → Runs (differences s before after ids) from (λ k. lookup k after)
  unfolding differences put
  differences-Runs before after [] from u inside outside = λ i k. outside k refl i
  differences-Runs before after (id ∷ ids) from u inside outside =
      elim (Bool-cases (same s (lookup id before) (lookup id after))) [
        | inl equal ↦
            let e = (same_iff s d (lookup id before) (lookup id after)).0 equal in
            rw equal (
              differences-Runs before after ids from u.1 (λ k h. inside k (later id ids k h))
                (λ k h. elim (Bool-cases (id == k)) [
                  | inl hit ↦
                      let e' = (eq_iff id k).0 hit in
                      inside k (first id ids k hit)
                      ∙ subst (λ j. lookup j before ≡ lookup j after) e' e
                  | inr miss ↦ outside k (neither id ids k miss h)
                ]))
        | inr differ ↦ rw differ (
          sym (inside id (first id ids id ((eq_iff id id).1 refl))),
          differences-Runs before after ids
              (put (record { record_id = id; before = lookup id before; after = lookup id after })
                from)
              u.1 (λ k h. rw (another id ids k u.0 h) (inside k (later id ids k h)))
              (λ k h. elim (Bool-cases (id == k)) [
                | inl hit ↦ rw hit (ap (λ j. lookup j after) ((eq_iff id k).0 hit))
                | inr miss ↦ rw miss (outside k (neither id ids k miss h))
              ]),
        )
      ]

  validate_change-same : (c x : HistoryRecordChange R) → validate_change s c ≡ ok x → c ≡ x
  unfolding validate_change
  validate_change-same c x h =
      unrefused (not (is_identifier s c.record_id)) (both_null s c.before c.after)
        (not (is_side s c.record_id c.before)) (not (is_side s c.record_id c.after)) bad_identifier
        null_change (wrong_before c.record_id) (wrong_after c.record_id) c x h

  validate_changes-same :
      (cs ds : List (HistoryRecordChange R)) → validate_changes s cs ≡ ok ds → cs ≡ ds
  unfolding validate_changes validate_change
  validate_changes-same [] ds h = cc
  validate_changes-same (c ∷ cs) ds h =
      let (x, one, more) = and_then-eq-ok (validate_change s c) _ h in
      let (xs, two, end) = and_then-eq-ok (validate_changes s cs) _ more in
      cc (validate_change-same c x one, validate_changes-same cs xs two, end)

  documents_by_id-states :
      (ds : List (Document R)) (m : Assoc R) (n : Assoc (Document R))
      → ((k : String) → lookup k m ≡ state? (lookup k n))
      → (k : String) → lookup k (states_by_id s ds m) ≡ state? (lookup k (documents_by_id s ds n))
  unfolding states_by_id documents_by_id
  documents_by_id-states [] m n h k = h k
  documents_by_id-states (x ∷ ds) m n h k =
      documents_by_id-states ds (set (s.record_id x.state) x.state m)
        (set (s.record_id x.state) x n)
        (λ j. ground (
          arith,
          lookup-set (s.record_id x.state) j x.state m,
          lookup-set (s.record_id x.state) j x n,
          h j,
        ))
        k

  -- The records of a snapshot.
  abbrev pub snapshot_states : RoomSnapshot R → States R
  snapshot_states snapshot = state_of (replay_base s snapshot)

  before_by_id-states :
      (snapshot : RoomSnapshot R)
      → (λ k. lookup k (before_by_id s snapshot)) ≡ snapshot_states snapshot
  unfolding before_by_id state_of
  before_by_id-states snapshot =
      λ i k. documents_by_id-states snapshot.documents [] [] (λ j. lookup-nothing j) k i

  -- When the changes between two snapshots are valid, replaying them over the first snapshot meets no
  -- divergence and leaves the records of the second.
  pub changes_between-replay :
      (a b : RoomSnapshot R) (cs : List (HistoryRecordChange R)) (id clock : ℕ)
      → changes_between_snapshots s a b ≡ ok cs
      → Replays s d id clock cs (replay_base s a) (snapshot_states b)
  unfolding changes_between_snapshots
  changes_between-replay a b cs id clock h =
      let before = before_by_id s a in
      let after = before_by_id s b in
      let ids = add_ids [] (keys before ++ keys after) in
      let run =
        differences-Runs before after ids (λ k. lookup k before)
          (add_ids-Unique [] (keys before ++ keys after) tt) (λ k _. refl)
          (λ k absent.
            (let out = absent_both (keys before) (keys after) k absent in
              lookup-absent k before out.0 ∙ sym (lookup-absent k after out.1))) in
      Runs-Replays s d id clock cs (replay_base s a) (snapshot_states b) (
        subst (λ xs. Runs xs (snapshot_states a) (snapshot_states b)) (validate_changes-same _ cs h)
          (subst (λ f. Runs (differences s before after ids) f (snapshot_states b))
            (before_by_id-states a)
            (subst (Runs (differences s before after ids) (λ k. lookup k before))
              (before_by_id-states b) run)))
