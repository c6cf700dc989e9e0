-- ===== src/History/Replay.antt =====
-- `applyHistoryEvents` of server/history.ts: the replay of events over a snapshot.
use Prim.Native.Nat.{◌+◌}
use collaborative_ai_whitebo.Prelude.{
  ℕ, String, Option, none, some, List, [], ◌∷◌, if◌then◌else◌, get_or, Assoc, lookup, set, delete,
  values, max,
}
use collaborative_ai_whitebo.Exec.{Result, ok, err}
use collaborative_ai_whitebo.History.Types.{
  Schema, HistoryRecordChange, Document, RoomSnapshot, HistoryEvent, HistoryError, divergence,
}
use collaborative_ai_whitebo.History.Changes.{and_then, same, validate_snapshot}

-- The maps that the replay changes.
pub record Replayed (R : Type 0) : Type 0 where
  pub documents : Assoc (Document R)
  pub tombstones : Assoc ℕ

module _ {R : Type 0} where
  abbrev pub state? : Option (Document R) → Option R
  state? none = none
  state? (some d) = some d.state

  unfoldable pub write_after : ℕ → String → Option R → Replayed R → Replayed R
  write_after clock id none now = record {
    documents = delete id now.documents;
    tombstones = set id clock now.tombstones;
  }
  write_after clock id (some r) now = record {
    documents = set id (record { state = r; last_changed_clock = clock }) now.documents;
    tombstones = delete id now.tombstones;
  }

  -- The clock of an event's changes, and the clock of the document after it.
  abbrev pub change_clock : HistoryEvent R → ℕ → ℕ
  change_clock event document_clock = get_or event.document_clock (document_clock + 1)

  abbrev pub replayed_snapshot : RoomSnapshot R → ℕ × Replayed R → RoomSnapshot R
  replayed_snapshot snapshot (document_clock, now) = record {
    clock = some (max (get_or snapshot.clock 0) document_clock);
    document_clock = some document_clock;
    documents = values now.documents;
    tombstones = some now.tombstones;
    rest = snapshot.rest;
  }

module _ {R : Type 0} (s : Schema R) where
  unfoldable pub documents_by_id : List (Document R) → Assoc (Document R) → Assoc (Document R)
  documents_by_id [] m = m
  documents_by_id (d ∷ ds) m = documents_by_id ds (set (s.record_id d.state) d m)

  unfoldable pub apply_change :
      ℕ → ℕ → HistoryRecordChange R → Replayed R → Result HistoryError (Replayed R)
  unfolding same write_after
  apply_change event_id clock c now =
      if same s (state? (lookup c.record_id now.documents)) c.before
      then ok (write_after clock c.record_id c.after now)
      else err (divergence event_id c.record_id)

  unfoldable pub apply_changes :
      ℕ → ℕ → List (HistoryRecordChange R) → Replayed R → Result HistoryError (Replayed R)
  unfolding apply_change
  apply_changes event_id clock [] now = ok now
  apply_changes event_id clock (c ∷ cs) now =
      and_then (apply_change event_id clock c now) λ next. apply_changes event_id clock cs next

  unfoldable pub apply_events :
      List (HistoryEvent R) → ℕ → Replayed R → Result HistoryError (ℕ × Replayed R)
  unfolding apply_changes
  apply_events [] document_clock now = ok (document_clock, now)
  apply_events (event ∷ events) document_clock now =
      and_then (apply_changes event.id (change_clock event document_clock) event.changes now)
        λ next. apply_events events (max document_clock (change_clock event document_clock)) next

  abbrev pub replay_base : RoomSnapshot R → Replayed R
  replay_base snapshot = record {
    documents = documents_by_id snapshot.documents [];
    tombstones = get_or snapshot.tombstones [];
  }

  unfoldable pub apply_history_events :
      RoomSnapshot R → List (HistoryEvent R) → Result HistoryError (RoomSnapshot R)
  unfolding documents_by_id apply_events validate_snapshot
  apply_history_events base_snapshot events =
      and_then (validate_snapshot s base_snapshot) λ snapshot.
        and_then (apply_events events (get_or snapshot.document_clock 0) (replay_base snapshot))
          λ done. ok (replayed_snapshot snapshot done)
