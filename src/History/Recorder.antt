-- ===== src/History/Recorder.antt =====
-- `BoardHistoryRecorder` of server/history.ts: the flush timer and the periodic checkpoints over the
-- store. `now` is the clock of a call, and `snapshot` what `getSnapshot` gives in it.
use Prim.Native.Nat.{◌+◌}
use collaborative_ai_whitebo.Prelude.{
  ℕ, String, Bool, true, false, ◌&&◌, Option, none, some, List, [], ◌∷◌, if◌then◌else◌, ltb, eqb,
  get_or,
}
use collaborative_ai_whitebo.Exec.{Exec, pure, lift, gets, modify, ◌>>=◌, ◌>>◌}
use collaborative_ai_whitebo.History.Types.{
  Schema, HistoryEvent, HistoryEventInput, HistoryFragment, HistoryFragmentInput,
  HistoryCheckpointInput, HistoryCheckpoint, HistoryDatabase, HistoryError, RoomSnapshot, human,
}
use collaborative_ai_whitebo.History.Rows.{Action, latest_event_id}
use collaborative_ai_whitebo.History.Changes.{Put, changes_from_forward_diff}
use collaborative_ai_whitebo.History.Kinds.{not_empty}
use collaborative_ai_whitebo.History.Store.{
  flush_fragments, append_event, append_fragment, create_checkpoint,
  ensure_legacy_import_checkpoint,
}
use collaborative_ai_whitebo.History.Pages.{list_checkpoints}

pub record RecorderOptions : Type 0 where
  pub coalesce_ms : ℕ
  pub snapshot_every_events : ℕ
  pub snapshot_every_ms : ℕ
  pub initialize_legacy : Bool

-- The recorder with its store; `timer` is the time at which the timer fires.
pub record Recorder (R : Type 0) : Type 0 where
  pub db : HistoryDatabase R
  pub timer : Option ℕ
  pub events_at_last_snapshot : ℕ
  pub last_snapshot_at : ℕ

abbrev pub Recording : Type 0 → Type 0 → Type 0
Recording R A = Exec (Recorder R) HistoryError A

abbrev pub newest_time : {R : Type 0} → List (HistoryCheckpoint R) → Option ℕ
newest_time [] = none
newest_time (c ∷ rest) = some c.created_at

-- `latestId || null`
abbrev pub non_zero : ℕ → Option ℕ
non_zero id = if eqb id 0 then none else some id

module _ {R : Type 0} where
  -- A call of the store.
  unfoldable pub on_store : {A : Type 0} → Action R A → Recording R A
  on_store m r = let (result, db) = m r.db in (result, record r { db = db })

  unfoldable pub set_timer : Option ℕ → Recording R Unit
  set_timer timer = modify (λ r. record r { timer = timer })

  unfoldable pub note_snapshot : ℕ → ℕ → Recording R Unit
  note_snapshot latest now =
      modify (λ r. record r { events_at_last_snapshot = latest; last_snapshot_at = now })

module _ {R : Type 0} (s : Schema R) (board_id : String) (options : RecorderOptions) where
  abbrev pub latest : HistoryDatabase R → ℕ
  latest db = get_or (latest_event_id board_id db) 0

  unfoldable pub note_start : ℕ → Recording R Unit
  unfolding latest_event_id list_checkpoints
  note_start now = modify (λ r. record r {
    events_at_last_snapshot = latest r.db;
    last_snapshot_at = get_or (newest_time (list_checkpoints board_id 1 r.db)) now;
  })

  unfoldable pub import_legacy : ℕ → RoomSnapshot R → Bool → Recording R Unit
  unfolding on_store
  import_legacy now snapshot false = pure tt
  import_legacy now snapshot true = do
    on_store (ensure_legacy_import_checkpoint s board_id now snapshot now)
    pure tt

  -- The constructor, on a recorder with no timer.
  unfoldable pub construct : ℕ → RoomSnapshot R → Recording R Unit
  unfolding on_store import_legacy note_start
  construct now snapshot = do
    on_store (flush_fragments s board_id now true)
    import_legacy now snapshot options.initialize_legacy
    note_start now

  -- Neither enough events nor enough time since the last checkpoint.
  unfoldable pub recent_snapshot : ℕ → Recorder R → Bool
  unfolding latest_event_id
  recent_snapshot now r =
      ltb (latest r.db) (r.events_at_last_snapshot + options.snapshot_every_events)
      && ltb now (r.last_snapshot_at + options.snapshot_every_ms)

  abbrev pub periodic : ℕ → RoomSnapshot R → ℕ → HistoryCheckpointInput R
  periodic now snapshot latest_id = record {
    snapshot = snapshot;
    created_by = none;
    created_at = some now;
    base_event_id = some (non_zero latest_id);
    label = none;
    reason = "periodic";
  }

  unfoldable pub checkpoint_now : ℕ → RoomSnapshot R → ℕ → Recording R Unit
  unfolding on_store note_snapshot
  checkpoint_now now snapshot latest_id = do
    on_store (create_checkpoint s board_id now (periodic now snapshot latest_id))
    note_snapshot latest_id now

  unfoldable pub maybe_checkpoint : ℕ → RoomSnapshot R → Recording R Unit
  unfolding checkpoint_now latest_event_id recent_snapshot
  maybe_checkpoint now snapshot = do
    r ← gets (λ r. r)
    if recent_snapshot now r then pure tt else checkpoint_now now snapshot (latest r.db)

  abbrev pub human_input : ℕ → HistoryFragmentInput R → HistoryFragmentInput R
  human_input now f =
      let created_at = get_or f.input.created_at now in
      record f {
        input = record f.input { source = human; created_at = some created_at };
        flush_after = some (created_at + options.coalesce_ms);
      }

  unfoldable pub record_human_fragment :
      ℕ → HistoryFragmentInput R → Recording R (HistoryFragment R)
  unfolding on_store set_timer
  record_human_fragment now f = do
    fragment ← on_store (append_fragment s board_id now (human_input now f))
    set_timer (some (now + options.coalesce_ms))
    pure fragment

  -- The changes of a diff that was committed over a snapshot.
  unfoldable pub record_human_committed_diff :
      ℕ
      → HistoryFragmentInput R
      → List (String × Put s)
      → List String
      → RoomSnapshot R
      → Recording R (HistoryFragment R)
  unfolding record_human_fragment changes_from_forward_diff
  record_human_committed_diff now f puts deletes before_snapshot = do
    changes ← lift (changes_from_forward_diff s puts deletes before_snapshot)
    record_human_fragment now (record f { input = record f.input { changes = changes } })

  -- `stored` is the clock of the store's calls, `now` the reading of `maybeCheckpoint`.
  unfoldable pub record_synchronous_event :
      ℕ → ℕ → RoomSnapshot R → HistoryEventInput R → Recording R (HistoryEvent R)
  unfolding on_store set_timer maybe_checkpoint
  record_synchronous_event stored now snapshot input = do
    set_timer none
    on_store (flush_fragments s board_id stored true)
    event ← on_store (append_event s board_id stored input)
    maybe_checkpoint now snapshot
    pure event

  -- `flush` and `dispose`; also what the timer runs.
  unfoldable pub flush : ℕ → ℕ → RoomSnapshot R → Recording R (List (HistoryEvent R))
  unfolding on_store set_timer maybe_checkpoint
  flush stored now snapshot = do
    set_timer none
    events ← on_store (flush_fragments s board_id stored true)
    if not_empty events then maybe_checkpoint now snapshot else pure tt
    pure events
