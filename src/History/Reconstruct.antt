-- ===== src/History/Reconstruct.antt =====
-- `reconstruct` of server/history.ts: a board as it was, from a checkpoint and the events after it.
use collaborative_ai_whitebo.Prelude.{
  ℕ, suc, String, Bool, true, not, ◌&&◌, Option, none, some, List, [], ◌∷◌, map, leb, ltb,
  if◌then◌else◌, is_some, get_or, ◌==◌, filter, last?,
}
use collaborative_ai_whitebo.Exec.{pure, lift, gets, or_throw, ◌>>=◌, ◌>>◌}
use collaborative_ai_whitebo.History.Types.{
  Schema, HistoryEvent, HistoryCheckpoint, HistoricalTarget, event_target, checkpoint_target,
  timestamp_target, ReconstructedBoardState, event_not_found, checkpoint_not_found, no_checkpoint,
  HistoryDatabase,
}
use collaborative_ai_whitebo.History.Replay.{apply_history_events}
use collaborative_ai_whitebo.History.Rows.{Action, get_event, get_checkpoint, board_events, id?}

abbrev pub not_after : Option ℕ → ℕ → Bool
not_after none target = true
not_after (some base) target = leb base target

module _ {R : Type 0} where
  unfoldable pub resolve_target_event_id : String → HistoricalTarget → Action R (Option ℕ)
  resolve_target_event_id board_id (event_target id) = do
    event ← gets (get_event board_id id)
    or_throw event event_not_found
    pure (some id)
  resolve_target_event_id board_id (checkpoint_target id) = do
    found ← gets (get_checkpoint board_id id)
    checkpoint ← or_throw found checkpoint_not_found
    pure checkpoint.base_event_id
  resolve_target_event_id board_id (timestamp_target at) =
      gets (λ db. id? (last? (filter (λ e. leb e.created_at at) (board_events board_id db))))

  -- COALESCE(base_event_id, -1), moved up by one
  abbrev pub base_key : HistoryCheckpoint R → ℕ
  base_key c = elim c.base_event_id [ none ↦ 0 | some n ↦ suc n ]

  -- The last of the rows with the greatest key: ORDER BY COALESCE(base_event_id, -1) DESC, id DESC.
  abbrev pub latest_base :
      Option (HistoryCheckpoint R) → List (HistoryCheckpoint R) → Option (HistoryCheckpoint R)
  latest_base best [] = best
  latest_base none (c ∷ cs) = latest_base (some c) cs
  latest_base (some b) (c ∷ cs) =
      latest_base (if leb (base_key b) (base_key c) then some c else some b) cs

  abbrev pub board_checkpoints : String → HistoryDatabase R → List (HistoryCheckpoint R)
  board_checkpoints board_id db = filter (λ c. c.board_id == board_id) db.checkpoints

  -- The checkpoint from which the replay starts.
  abbrev pub checkpoint_before :
      String → Option ℕ → HistoryDatabase R → Option (HistoryCheckpoint R)
  checkpoint_before board_id none db =
      last? (filter (λ c. not (is_some c.base_event_id)) (board_checkpoints board_id db))
  checkpoint_before board_id (some target) db =
      latest_base none
        (filter (λ c. not_after c.base_event_id target) (board_checkpoints board_id db))

  unfoldable pub start_checkpoint :
      String → HistoricalTarget → Option ℕ → HistoryDatabase R → Option (HistoryCheckpoint R)
  start_checkpoint board_id (event_target id) target db = checkpoint_before board_id target db
  start_checkpoint board_id (checkpoint_target id) target db = get_checkpoint board_id id db
  start_checkpoint board_id (timestamp_target at) target db = checkpoint_before board_id target db

  unfoldable pub events_between : String → ℕ → Option ℕ → HistoryDatabase R → List (HistoryEvent R)
  events_between board_id base none db = []
  events_between board_id base (some target) db =
      filter (λ e. ltb base e.id && leb e.id target) (board_events board_id db)

module _ {R : Type 0} (s : Schema R) where
  unfoldable pub reconstruct : String → HistoricalTarget → Action R (ReconstructedBoardState R)
  unfolding resolve_target_event_id start_checkpoint events_between
  reconstruct board_id target = do
    target_event_id ← resolve_target_event_id board_id target
    found ← gets (start_checkpoint board_id target target_event_id)
    checkpoint ← or_throw found no_checkpoint
    events ← gets (events_between board_id (get_or checkpoint.base_event_id 0) target_event_id)
    snapshot ← lift (apply_history_events s checkpoint.snapshot events)
    pure (record {
      snapshot = snapshot;
      target_event_id = target_event_id;
      base_checkpoint_id = checkpoint.id;
      applied_event_ids = map (λ e. e.id) events;
    })
