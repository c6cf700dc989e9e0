-- ===== src/History/Store.antt =====
-- `BoardHistoryStore` of server/history.ts: events, fragments and checkpoints. `now` is the reading of
-- `Date.now()` in a call. An operation that is called inside another runs in that one's transaction.
use Prim.Native.Nat.{◌+◌}
use collaborative_ai_whitebo.Prelude.{
  ℕ, suc, String, Bool, true, not, ◌||◌, Option, none, some, List, [], ◌∷◌, ◌++◌, map, ltb,
  if◌then◌else◌, get_or, ◌==◌, find?, any,
}
use collaborative_ai_whitebo.Exec.{pure, lift, gets, modify, ensure, transaction, ◌>>=◌, ◌>>◌}
use collaborative_ai_whitebo.History.Types.{
  Schema, HistorySource, human, ai, system, HistoryEventInput, HistoryFragmentInput, HistoryEvent,
  HistoryFragment, HistoryCheckpointInput, HistoryCheckpoint, RoomSnapshot, bad_identifier,
}
use collaborative_ai_whitebo.History.Changes.{
  is_identifier, validate_changes, validate_snapshot, merge_changes,
}
use collaborative_ai_whitebo.History.Kinds.{not_empty}
use collaborative_ai_whitebo.History.Rows.{
  Action, groups_from, members, last_member, assign_all, pending, latest_event_id, delete_fragments,
  with_event, with_fragment, with_checkpoint,
}

abbrev pub default_coalesce_ms : ℕ
default_coalesce_ms = 900

abbrev pub source_text : HistorySource → String
source_text human = "human"
source_text ai = "ai"
source_text system = "system"

-- A store of one board, with the clock of the call.
module _ {R : Type 0} (s : Schema R) (board_id : String) (now : ℕ) where
  unfoldable pub insert_event : HistoryEventInput R → Action R (HistoryEvent R)
  insert_event input = do
    ensure (is_identifier s input.event_type) bad_identifier
    changes ← lift (validate_changes s input.changes)
    last ← gets (λ db. db.last_event)
    let event : HistoryEvent R = record {
      id = suc last;
      board_id = board_id;
      actor_user_id = input.actor_user_id;
      session_id = input.session_id;
      event_type = input.event_type;
      entity_type = input.entity_type;
      entity_id = input.entity_id;
      source = input.source;
      created_at = get_or input.created_at now;
      metadata = input.metadata;
      changes = changes;
      document_clock = input.document_clock;
    }
    modify (with_event event)
    pure event

  -- What the group of fragments becomes: an event, unless it changes and tells nothing.
  abbrev pub merged_input : HistoryFragment R × List (HistoryFragment R) → HistoryEventInput R
  merged_input group =
      let first = group.0.event in
      let last = (last_member group).event in
      record {
        actor_user_id = first.actor_user_id;
        session_id = first.session_id;
        event_type = first.event_type;
        entity_type = first.entity_type;
        entity_id = first.entity_id;
        source = first.source;
        created_at = some last.created_at;
        metadata = assign_all [] (members group);
        changes = merge_changes s (map (λ f. f.event.changes) (members group));
        document_clock = last.document_clock;
      }

  unfoldable pub publish : HistoryEventInput R → Action R (List (HistoryEvent R))
  unfolding insert_event
  publish input =
      if not (not_empty input.changes || not_empty input.metadata)
      then pure []
      else do event ← insert_event input; pure (event ∷ [])

  abbrev pub is_due : Bool → HistoryFragment R × List (HistoryFragment R) → Bool
  is_due force group = force || not (any (λ f. ltb now f.flush_after) (members group))

  -- One round of the loop of `flushFragments`, and the rounds after it.
  unfoldable pub publish_then :
      HistoryFragment R × List (HistoryFragment R)
      → Action R (List (HistoryEvent R))
      → Action R (List (HistoryEvent R))
  unfolding publish
  publish_then group rest = do
    events ← publish (merged_input group)
    delete_fragments board_id group.0.event.id (last_member group).event.id
    later ← rest
    pure (events ++ later)

  -- The loop stops at the first group that is not due.
  unfoldable pub flush_groups :
      Bool → List (HistoryFragment R × List (HistoryFragment R)) → Action R (List (HistoryEvent R))
  unfolding publish_then
  flush_groups force [] = pure []
  flush_groups force (group ∷ groups) =
      let rest = publish_then group (flush_groups force groups) in
      if not (is_due force group) then pure [] else rest

  unfoldable pub flush_body : Bool → Action R (List (HistoryEvent R))
  unfolding flush_groups
  flush_body force = do rows ← gets (pending board_id); flush_groups force (groups_from [] rows)

  unfoldable pub flush_fragments : Bool → Action R (List (HistoryEvent R))
  unfolding flush_body
  flush_fragments force = transaction (flush_body force)

  unfoldable pub append_event : HistoryEventInput R → Action R (HistoryEvent R)
  unfolding flush_body insert_event
  append_event input = transaction (do flush_body true; insert_event input)

  abbrev pub coalesce_group : HistoryFragmentInput R → String
  coalesce_group f =
      let input = f.input in
      s.stringify_key (
        input.actor_user_id
        ∷ input.session_id
        ∷ some (source_text input.source)
        ∷ some input.event_type
        ∷ input.entity_type
        ∷ input.entity_id
        ∷ some (get_or f.coalesce_key "default")
        ∷ [])

  unfoldable pub append_fragment : HistoryFragmentInput R → Action R (HistoryFragment R)
  append_fragment f = transaction (do
    ensure (is_identifier s f.input.event_type) bad_identifier
    changes ← lift (validate_changes s f.input.changes)
    last ← gets (λ db. db.last_fragment)
    let created_at : ℕ = get_or f.input.created_at now
    let row : HistoryFragment R = record {
      event = record {
        id = suc last;
        board_id = board_id;
        actor_user_id = f.input.actor_user_id;
        session_id = f.input.session_id;
        event_type = f.input.event_type;
        entity_type = f.input.entity_type;
        entity_id = f.input.entity_id;
        source = f.input.source;
        created_at = created_at;
        metadata = f.input.metadata;
        changes = changes;
        document_clock = f.input.document_clock;
      };
      coalesce_group = coalesce_group f;
      flush_after = get_or f.flush_after (created_at + default_coalesce_ms);
    }
    modify (with_fragment row)
    pure row)

  unfoldable pub insert_checkpoint : HistoryCheckpointInput R → Action R (HistoryCheckpoint R)
  insert_checkpoint input = do
    snapshot ← lift (validate_snapshot s input.snapshot)
    latest ← gets (latest_event_id board_id)
    last ← gets (λ db. db.last_checkpoint)
    let checkpoint : HistoryCheckpoint R = record {
      id = suc last;
      board_id = board_id;
      created_at = get_or input.created_at now;
      created_by = input.created_by;
      base_event_id = get_or input.base_event_id latest;
      label = input.label;
      reason = input.reason;
      snapshot = snapshot;
    }
    modify (with_checkpoint checkpoint)
    pure checkpoint

  unfoldable pub create_checkpoint : HistoryCheckpointInput R → Action R (HistoryCheckpoint R)
  unfolding flush_body insert_checkpoint
  create_checkpoint input = transaction (do flush_body true; insert_checkpoint input)

  abbrev pub import_event : ℕ → RoomSnapshot R → HistoryEventInput R
  import_event created_at snapshot = record {
    actor_user_id = none;
    session_id = none;
    event_type = "board.imported";
    entity_type = some "board";
    entity_id = some board_id;
    source = system;
    created_at = some created_at;
    metadata = ("legacyImport", "true") ∷ [];
    changes = [];
    document_clock = snapshot.document_clock;
  }

  unfoldable pub first_checkpoint :
      RoomSnapshot R → ℕ → Option (HistoryCheckpoint R) → Action R (HistoryCheckpoint R)
  unfolding insert_event insert_checkpoint
  first_checkpoint snapshot created_at (some existing) = pure existing
  first_checkpoint snapshot created_at none = do
    imported ← insert_event (import_event created_at snapshot)
    insert_checkpoint (record {
      snapshot = snapshot;
      created_by = none;
      created_at = some created_at;
      base_event_id = some (some imported.id);
      label = some "Imported board state";
      reason = "legacy_import";
    })

  unfoldable pub ensure_legacy_import_checkpoint :
      RoomSnapshot R → ℕ → Action R (HistoryCheckpoint R)
  unfolding first_checkpoint
  ensure_legacy_import_checkpoint snapshot created_at = transaction (do
    existing ← gets (λ db. find? (λ c. c.board_id == board_id) db.checkpoints)
    first_checkpoint snapshot created_at existing)
