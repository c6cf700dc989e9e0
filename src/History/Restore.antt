-- ===== src/History/Restore.antt =====
-- `prepareRestore` and `completeRestore` of server/history.ts. `restore_id` is the UUID that the first
-- of them draws.
use collaborative_ai_whitebo.Prelude.{ℕ, String, true, Option, some, List, [], ◌∷◌, get_or}
use collaborative_ai_whitebo.Exec.{pure, lift, transaction, ◌>>=◌, ◌>>◌}
use collaborative_ai_whitebo.History.Types.{
  Schema, HistorySource, human, HistoryRecordChange, HistoryEvent, HistoryEventInput,
  HistoryCheckpoint, RoomSnapshot, HistoricalTarget, ReconstructedBoardState,
}
use collaborative_ai_whitebo.History.Changes.{changes_between_snapshots}
use collaborative_ai_whitebo.History.Rows.{Action}
use collaborative_ai_whitebo.History.Store.{flush_body, insert_event, insert_checkpoint}
use collaborative_ai_whitebo.History.Reconstruct.{reconstruct}

-- Who asks for a restore, and when.
pub record RestoreRequest : Type 0 where
  pub target : HistoricalTarget
  pub actor_user_id : String
  pub source : Option HistorySource
  pub session_id : Option String
  pub created_at : Option ℕ

pub record RestorePreparation (R : Type 0) : Type 0 where
  pub restore_id : String
  pub target : HistoricalTarget
  pub target_state : ReconstructedBoardState R
  pub pre_restore_checkpoint : HistoryCheckpoint R
  pub started_event : HistoryEvent R

module _ {R : Type 0} (s : Schema R) (board_id : String) (now : ℕ) where
  abbrev pub restore_event :
      RestoreRequest
      → String
      → String
      → List (HistoryRecordChange R)
      → Option ℕ
      → HistoryEventInput R
  restore_event request restore_id type changes document_clock = record {
    actor_user_id = some request.actor_user_id;
    session_id = request.session_id;
    event_type = type;
    entity_type = some "board";
    entity_id = some board_id;
    source = get_or request.source human;
    created_at = request.created_at;
    metadata =
        ("restoreId", s.stringify_text restore_id)
        ∷ ("target", s.stringify_target request.target)
        ∷ [];
    changes = changes;
    document_clock = document_clock;
  }

  unfoldable pub prepare_restore :
      String → RestoreRequest → RoomSnapshot R → Action R (RestorePreparation R)
  unfolding flush_body reconstruct insert_event insert_checkpoint
  prepare_restore restore_id request current = transaction (do
    flush_body s board_id now true
    state ← reconstruct s board_id request.target
    started ←
        insert_event s board_id now
          (restore_event request restore_id "restore.started" [] current.document_clock)
    checkpoint ← insert_checkpoint s board_id now (record {
      snapshot = current;
      created_by = some request.actor_user_id;
      created_at = request.created_at;
      base_event_id = some (some started.id);
      label = some "Before restore";
      reason = "pre_restore";
    })
    pure (record {
      restore_id = restore_id;
      target = request.target;
      target_state = state;
      pre_restore_checkpoint = checkpoint;
      started_event = started;
    }))

  unfoldable pub complete_restore :
      String
      → RestoreRequest
      → RoomSnapshot R
      → RoomSnapshot R
      → Action R (HistoryEvent R × HistoryCheckpoint R)
  unfolding flush_body insert_event insert_checkpoint
  complete_restore restore_id request before restored = transaction (do
    flush_body s board_id now true
    changes ← lift (changes_between_snapshots s before restored)
    completed ←
        insert_event s board_id now
          (restore_event request restore_id "restore.completed" changes restored.document_clock)
    checkpoint ← insert_checkpoint s board_id now (record {
      snapshot = restored;
      created_by = some request.actor_user_id;
      created_at = request.created_at;
      base_event_id = some (some completed.id);
      label = some "Restored version";
      reason = "restore_completed";
    })
    pure (completed, checkpoint))
