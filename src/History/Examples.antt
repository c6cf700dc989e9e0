-- ===== src/History/Examples.antt =====
-- A small board, on which the theorems about the history apply.
use Prim.Native.String.{count}
use collaborative_ai_whitebo.Prelude.{
  ℕ, String, ◌≡◌, refl, ap, Bool, true, false, ◌&&◌, none, some, List, [], ◌∷◌, ◌++◌, ◌↔◌, ◌==◌,
  eq_iff, arith, lookup, set, set_all, delete,
}
use collaborative_ai_whitebo.Exec.{ok, pure, gets, lift, modify, ensure, transaction, ◌>>=◌}
use collaborative_ai_whitebo.History.Types.{
  Schema, Decides, human, HistoryRecordChange, HistoryEventInput, HistoryFragmentInput, Document,
  RoomSnapshot, HistoryEvent, HistoryDatabase,
}
use collaborative_ai_whitebo.History.Changes.{
  same, merge_changes, merge_groups, merge_into, merge_change, changes_between_snapshots,
  validate_changes, validate_change, before_by_id, states_by_id, differences,
}
use collaborative_ai_whitebo.History.Replay.{
  Replayed, apply_changes, apply_change, write_after, replay_base,
}
use collaborative_ai_whitebo.History.States.{state_of, Runs, Replays}
use collaborative_ai_whitebo.History.Merge.{flatten, merge_changes-replay}
use collaborative_ai_whitebo.History.Between.{snapshot_states, changes_between-replay}
use collaborative_ai_whitebo.History.Timeline.{IsReplayed, apply_events-Runs}
use collaborative_ai_whitebo.History.Store.{
  append_event, append_fragment, insert_event, publish, publish_then, flush_groups, flush_body,
  flush_fragments,
}
use collaborative_ai_whitebo.History.Rows.{delete_fragments, get_pending_fragment_count, get_event}
use collaborative_ai_whitebo.History.Staging.{flush_fragments-clears}
use collaborative_ai_whitebo.History.Reconstruct.{events_between}
use collaborative_ai_whitebo.History.Steps.{here, next, append, stage}
use collaborative_ai_whitebo.History.Recorder.{RecorderOptions, Recorder}
use collaborative_ai_whitebo.History.Appends.{Appends, Reach-Appends}
use collaborative_ai_whitebo.History.Past.{events_between-at}

record Shape : Type 0 where
  id : String
  body : String

abbrev same_shape : Shape → Shape → Bool
same_shape a b = (a.id == b.id) && (a.body == b.body)

abbrev shapes : Schema Shape
shapes = record {
  record_id = λ r. r.id;
  type_name = λ r. "shape";
  moved = λ a b. false;
  same_rest = same_shape;
  units = count;
  is_deep_strict_equal = same_shape;
  stringify_key = λ parts. "key";
  stringify_text = λ t. t;
  stringify_target = λ t. "target";
}

both : (p q : Bool) → (p && q) ≡ true → (p ≡ true) × (q ≡ true)
both true true h = (refl, refl)
both true false h = cc
both false q h = cc

decides : Decides shapes
decides = record {
  equal = λ a b. (
    λ h.
        let (i, t) = both (a.id == b.id) (a.body == b.body) h in
        cc ((eq_iff a.id b.id).0 i, (eq_iff a.body b.body).0 t),
    λ h.
        rw ((eq_iff a.id b.id).1 (ap (λ r. r.id) h), (eq_iff a.body b.body).1 (ap (λ r. r.body) h))
          refl,
  );
}

abbrev one : Shape
one = record { id = "shape:1"; body = "draft" }

abbrev two : Shape
two = record { id = "shape:1"; body = "final" }

abbrev created : HistoryRecordChange Shape
created = record { record_id = "shape:1"; before = none; after = some one }

abbrev edited : HistoryRecordChange Shape
edited = record { record_id = "shape:1"; before = some one; after = some two }

abbrev blank : Replayed Shape
blank = record { documents = []; tombstones = [] }

abbrev shown : Replayed Shape
shown = record {
  documents = ("shape:1", record { state = two; last_changed_clock = 4 }) ∷ [];
  tombstones = [];
}

abbrev snapshot : List (Document Shape) → RoomSnapshot Shape
snapshot documents = record {
  clock = some 1;
  document_clock = some 1;
  documents = documents;
  tombstones = none;
  rest = "";
}

abbrev before : RoomSnapshot Shape
before = snapshot (record { state = one; last_changed_clock = 1 } ∷ [])

abbrev after : RoomSnapshot Shape
after = snapshot (record { state = two; last_changed_clock = 2 } ∷ [])

abbrev input : HistoryEventInput Shape
input = record {
  actor_user_id = some "guest";
  session_id = none;
  event_type = "object.created";
  entity_type = none;
  entity_id = none;
  source = human;
  created_at = none;
  metadata = [];
  changes = created ∷ [];
  document_clock = none;
}

abbrev staged : HistoryFragmentInput Shape
staged = record { input = input; coalesce_key = none; flush_after = none }

abbrev history : HistoryDatabase Shape
history = record {
  events = [];
  checkpoints = [];
  fragments = [];
  last_event = 0;
  last_checkpoint = 0;
  last_fragment = 0;
}

abbrev later : HistoryDatabase Shape
later = (append_event shapes "demo" 9 input history).1

both_replay :
    apply_changes shapes 1 4 (flatten shapes decides ((created ∷ []) ∷ (edited ∷ []) ∷ [])) blank
    ≡ ok shown
unfolding apply_changes apply_change same write_after lookup set delete
both_replay = refl

differ : changes_between_snapshots shapes before after ≡ ok (edited ∷ [])
unfolding changes_between_snapshots before_by_id states_by_id differences validate_changes
    validate_change same lookup set
differ = refl

merge_changes-replay_example :
    Replays shapes decides 2 5
      (merge_changes shapes ((created ∷ []) ∷ (edited ∷ []) ∷ []))
      blank
      (state_of shown)
merge_changes-replay_example =
    merge_changes-replay shapes decides ((created ∷ []) ∷ (edited ∷ []) ∷ []) blank shown 1 4 2 5
      both_replay

changes_between-replay_example :
    Replays shapes decides 1 2
      (edited ∷ [])
      (replay_base shapes before)
      (snapshot_states shapes decides after)
changes_between-replay_example =
    changes_between-replay shapes decides before after (edited ∷ []) 1 2 differ

Reach-Appends_example : Appends history later
Reach-Appends_example =
    Reach-Appends shapes "demo" {a = history} {b = later} (next here (append 9 input))

abbrev options : RecorderOptions
options = record {
  coalesce_ms = 2000;
  snapshot_every_events = 1;
  snapshot_every_ms = 60000;
  initialize_legacy = true;
}

abbrev recorder : Recorder Shape
recorder = record { db = history; timer = none; events_at_last_snapshot = 0; last_snapshot_at = 0 }

abbrev event : ℕ → HistoryRecordChange Shape → HistoryEvent Shape
event id change = record {
  id = id;
  board_id = "demo";
  actor_user_id = some "guest";
  session_id = none;
  event_type = "object.edited";
  entity_type = none;
  entity_id = none;
  source = human;
  created_at = id;
  metadata = [];
  changes = change ∷ [];
  document_clock = some id;
}

-- The second event changes the record that the first created.
apply_events-Runs_example :
    IsReplayed shapes decides (event 1 created ∷ event 2 edited ∷ []) 0 blank (state_of shown)
    ↔ Runs (created ∷ edited ∷ []) (state_of blank) (state_of shown)
apply_events-Runs_example =
    apply_events-Runs shapes decides (event 1 created ∷ event 2 edited ∷ []) 0 blank
      (state_of shown)

abbrev twice : HistoryDatabase Shape
twice =
    (append_event shapes "demo" 10
      (record input { event_type = "object.edited"; changes = edited ∷ [] }) later).1

abbrev first_event : HistoryEvent Shape
first_event = record (event 1 created) {
  event_type = "object.created";
  created_at = 9;
  document_clock = none;
}

events_between-at_example :
    events_between "demo" 0 (some 2) twice
    ≡ events_between "demo" 0 (some 0) later ++ first_event ∷ events_between "demo" 1 (some 2) twice
unfolding append_event flush_body flush_groups insert_event validate_changes validate_change same
    transaction gets lift modify pure ensure ◌>>=◌ get_event
events_between-at_example =
    events_between-at shapes "demo" later twice 0 0 2 first_event (next here (append 9 input))
      (next here (append 10 (record input { event_type = "object.edited"; changes = edited ∷ [] })))
      refl (omega arith) (omega arith)

-- What is replayed is not empty.
both_between :
    events_between "demo" 0 (some 2) twice ≡ first_event ∷ events_between "demo" 1 (some 2) twice
unfolding append_event flush_body flush_groups insert_event validate_changes validate_change same
    transaction gets lift modify pure ensure ◌>>=◌ get_event events_between
both_between = refl

abbrev waiting : HistoryDatabase Shape
waiting = (append_fragment shapes "demo" 9 staged history).1

flushes :
    (flush_fragments shapes "demo" 10 true waiting).0
    ≡ ok (
        record (event 1 created) {
          event_type = "object.created";
          created_at = 9;
          document_clock = none;
        }
        ∷ [])
unfolding flush_fragments flush_body flush_groups publish_then publish insert_event delete_fragments
    append_fragment validate_changes validate_change merge_changes merge_groups merge_into
    merge_change same lookup set set_all transaction gets lift modify pure ensure ◌>>=◌
flushes = refl

flush_fragments-clears_example :
    get_pending_fragment_count "demo" (flush_fragments shapes "demo" 10 true waiting).1 ≡ 0
flush_fragments-clears_example =
    flush_fragments-clears shapes "demo" 10 waiting (next here (stage 9 staged)) flushes
