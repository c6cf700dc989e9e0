-- ===== src/History/Cadence.antt =====
-- When `BoardHistoryRecorder` (server/history.ts) flushes and takes a checkpoint.
use collaborative_ai_whitebo.Prelude.{
  ℕ, String, ◌≡◌, true, false, ◌⊎◌, none, some, [], get_or, last?,
}
use collaborative_ai_whitebo.Exec.{Result, ok}
use collaborative_ai_whitebo.History.Types.{
  Schema, HistoryCheckpointInput, HistoryCheckpoint, HistoryDatabase, HistoryError, RoomSnapshot,
}
use collaborative_ai_whitebo.History.Changes.{validate_snapshot}
use collaborative_ai_whitebo.History.Rows.{
  pending, latest_event_id, get_pending_fragment_count, with_checkpoint,
}
use collaborative_ai_whitebo.History.Recorder.{
  RecorderOptions, Recorder, latest, non_zero, recent_snapshot,
}

same-value : {A : Type 0} (a b : A) → ◌≡◌ {A = Result HistoryError A} (ok a) (ok b) → a ≡ b
same-value a b h = cc h

module _ {R : Type 0} (s : Schema R) (board_id : String) (now : ℕ) where
  -- The row that a checkpoint adds.
  record IsInserted (input : HistoryCheckpointInput R) (db t : HistoryDatabase R) : Type 0 where
    row : HistoryCheckpoint R
    left : t ≡ with_checkpoint row db
    base : row.base_event_id ≡ get_or input.base_event_id (latest_event_id board_id db)
    snapshot : validate_snapshot s input.snapshot ≡ ok row.snapshot
    created_at : row.created_at ≡ get_or input.created_at now
    reason : row.reason ≡ input.reason

module _ {R : Type 0} (s : Schema R) (board_id : String) (options : RecorderOptions) (now : ℕ)
    (snapshot : RoomSnapshot R) where
  -- The newest checkpoint holds the snapshot, is dated now, rests on the latest event, and is noted.
  pub record IsTaken (r : Recorder R) : Type 0 where
    pub row : HistoryCheckpoint R
    pub newest : last? r.db.checkpoints ≡ some row
    pub base : row.base_event_id ≡ non_zero (latest s board_id options r.db)
    pub valid : validate_snapshot s snapshot ≡ ok row.snapshot
    pub created_at : row.created_at ≡ now
    pub reason : row.reason ≡ "periodic"
    pub noted : r.events_at_last_snapshot ≡ latest s board_id options r.db
    pub noted_at : r.last_snapshot_at ≡ now

  -- Since the checkpoint that is noted in `r`, the events and the time allow another to wait: then the
  -- checkpoints are those of `r`. Otherwise one was taken.
  abbrev pub TakenWhenDue : Recorder R → Recorder R → Type 0
  TakenWhenDue r t =
      let unmarked = record r { db = t.db } in
      ((recent_snapshot s board_id options now unmarked ≡ true)
        × (t.events_at_last_snapshot ≡ r.events_at_last_snapshot)
        × (t.last_snapshot_at ≡ r.last_snapshot_at))
      ⊎ ((recent_snapshot s board_id options now unmarked ≡ false) × IsTaken t)

  record Outcome (r t : Recorder R) : Type 0 where
    idle : pending board_id t.db ≡ []
    timer : t.timer ≡ r.timer
    taken : TakenWhenDue r t

  -- What a synchronous event leaves.
  pub record IsSettled (r t : Recorder R) : Type 0 where
    pub flushed : get_pending_fragment_count board_id t.db ≡ 0
    pub unscheduled : t.timer ≡ none
    pub taken : TakenWhenDue r t
