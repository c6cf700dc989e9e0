-- ===== src/History/Changes.antt =====
-- Record changes (server/history.ts): their validation, the merge of successive ones, and the
-- changes between two snapshots.
use collaborative_ai_whitebo.Prelude.{
  String, Bool, true, false, not, ◌&&◌, Option, none, some, List, [], ◌∷◌, ◌++◌, leb, if◌then◌else◌,
  ◌==◌, add_ids, Assoc, lookup, set, delete, keys, values,
}
use collaborative_ai_whitebo.Exec.{Result, ok, err}
use collaborative_ai_whitebo.History.Types.{
  Schema, HistoryRecordChange, Document, RoomSnapshot, HistoryError, bad_identifier, null_change,
  wrong_before, wrong_after, invalid_document, missing_record,
}

abbrev pub and_then :
    {A B : Type 0} → Result HistoryError A → (A → Result HistoryError B) → Result HistoryError B
and_then (err e) f = err e
and_then (ok a) f = f a

abbrev pub is_identifier : {R : Type 0} → Schema R → String → Bool
is_identifier s value = not (value == "") && leb (s.units value) 200

module _ {R : Type 0} where
  -- The change that takes the place of `previous`, if there is one, and `change`.
  abbrev pub next_change :
      Option (HistoryRecordChange R) → HistoryRecordChange R → HistoryRecordChange R
  next_change none change = change
  next_change (some previous) change = record {
    record_id = change.record_id;
    before = previous.before;
    after = change.after;
  }

module _ {R : Type 0} (s : Schema R) where
  abbrev pub Change : Type 0
  Change = HistoryRecordChange R

  -- `isDeepStrictEqual` of two records that may be null.
  unfoldable pub same : Option R → Option R → Bool
  same none none = true
  same none (some b) = false
  same (some a) none = false
  same (some a) (some b) = s.is_deep_strict_equal a b

  -- A side of a change is null or a record with the id of the change.
  abbrev pub is_side : String → Option R → Bool
  is_side id none = true
  is_side id (some r) = s.record_id r == id

  abbrev pub both_null : Option R → Option R → Bool
  both_null none none = true
  both_null none (some b) = false
  both_null (some a) b = false

  unfoldable pub validate_change : Change → Result HistoryError Change
  validate_change c =
      if not (is_identifier s c.record_id)
      then err bad_identifier
      else if both_null c.before c.after
      then err null_change
      else if not (is_side c.record_id c.before)
      then err (wrong_before c.record_id)
      else if not (is_side c.record_id c.after)
      then err (wrong_after c.record_id)
      else ok c

  unfoldable pub validate_changes : List Change → Result HistoryError (List Change)
  unfolding validate_change
  validate_changes [] = ok []
  validate_changes (c ∷ cs) =
      and_then (validate_change c) λ d. and_then (validate_changes cs) λ ds. ok (d ∷ ds)

  abbrev pub valid_documents : List (Document R) → Bool
  valid_documents [] = true
  valid_documents (d ∷ ds) = not (s.record_id d.state == "") && valid_documents ds

  unfoldable pub validate_snapshot : RoomSnapshot R → Result HistoryError (RoomSnapshot R)
  validate_snapshot snapshot =
      if valid_documents snapshot.documents then ok snapshot else err invalid_document

  unfoldable pub merge_change : Assoc Change → Change → Assoc Change
  unfolding same
  merge_change merged change =
      let next = next_change (lookup change.record_id merged) change in
      if same next.before next.after
      then delete change.record_id merged
      else set change.record_id next merged

  unfoldable pub merge_into : Assoc Change → List Change → Assoc Change
  unfolding merge_change
  merge_into merged [] = merged
  merge_into merged (c ∷ cs) = merge_into (merge_change merged c) cs

  unfoldable pub merge_groups : Assoc Change → List (List Change) → Assoc Change
  unfolding merge_into
  merge_groups merged [] = merged
  merge_groups merged (g ∷ gs) = merge_groups (merge_into merged g) gs

  unfoldable pub merge_changes : List (List Change) → List Change
  unfolding merge_groups
  merge_changes groups = values (merge_groups [] groups)

  -- `new Map(snapshot.documents.map((entry) => [entry.state.id, entry.state]))`
  unfoldable pub states_by_id : List (Document R) → Assoc R → Assoc R
  states_by_id [] m = m
  states_by_id (d ∷ ds) m = states_by_id ds (set (s.record_id d.state) d.state m)

  unfoldable pub before_by_id : RoomSnapshot R → Assoc R
  unfolding states_by_id
  before_by_id snapshot = states_by_id snapshot.documents []

  -- The loop of `changesBetweenSnapshots`.
  unfoldable pub differences : Assoc R → Assoc R → List String → List Change
  unfolding same
  differences before after [] = []
  differences before after (id ∷ ids) =
      let rest = differences before after ids in
      if same (lookup id before) (lookup id after)
      then rest
      else record { record_id = id; before = lookup id before; after = lookup id after } ∷ rest

  -- The ids are those of `new Set([...before.keys(), ...after.keys()])`.
  unfoldable pub changes_between_snapshots :
      RoomSnapshot R → RoomSnapshot R → Result HistoryError (List Change)
  unfolding before_by_id add_ids differences validate_changes
  changes_between_snapshots before_snapshot after_snapshot =
      let before = before_by_id before_snapshot in
      let after = before_by_id after_snapshot in
      validate_changes (differences before after (add_ids [] (keys before ++ keys after)))

  -- A put of `TLSyncForwardDiff`: a pair of records, or the new record alone.
  pub data Put : Type 0 where
    pair : R → R → Put
    whole : R → Put

  abbrev pub put_changes : Assoc R → List (String × Put) → List Change
  put_changes before [] = []
  put_changes before ((id, pair a b) ∷ puts) =
      record { record_id = id; before = some a; after = some b } ∷ put_changes before puts
  put_changes before ((id, whole b) ∷ puts) =
      record { record_id = id; before = lookup id before; after = some b } ∷ put_changes before puts

  abbrev pub deleted_change : String → Option R → Result HistoryError Change
  deleted_change id none = err (missing_record id)
  deleted_change id (some r) = ok (record { record_id = id; before = some r; after = none })

  abbrev pub delete_changes : Assoc R → List String → Result HistoryError (List Change)
  delete_changes before [] = ok []
  delete_changes before (id ∷ ids) =
      and_then (deleted_change id (lookup id before))
        λ c. and_then (delete_changes before ids) λ cs. ok (c ∷ cs)

  unfoldable pub changes_from_forward_diff :
      List (String × Put) → List String → RoomSnapshot R → Result HistoryError (List Change)
  unfolding before_by_id validate_changes
  changes_from_forward_diff puts deletes before_snapshot =
      let before = before_by_id before_snapshot in
      and_then (delete_changes before deletes)
        λ removed. validate_changes (put_changes before puts ++ removed)
