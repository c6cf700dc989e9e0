-- ===== src/History/Steps.antt =====
-- The operations of the history store (server/history.ts), the databases that a sequence of them
-- reaches, and the relations that their single writes move along.
use collaborative_ai_whitebo.Prelude.{
  ℕ, suc, String, ◌≡◌, refl, Bool, Option, none, some, List, [], ◌∷◌,
}
use collaborative_ai_whitebo.Exec.{pure, gets, modify, ◌>>=◌}
use collaborative_ai_whitebo.Exec.Keeps.{
  IsPreorder, Keeps, Keeps-bind, Keeps-ensure, Keeps-lift, Keeps-transaction, Keeps-if, Keeps-pure,
  keeps_rules,
}
use collaborative_ai_whitebo.History.Types.{
  Schema, HistoryEvent, HistoryEventInput, HistoryFragment, HistoryFragmentInput, HistoryCheckpoint,
  HistoryCheckpointInput, HistoryDatabase, RoomSnapshot, HistoricalTarget, event_target,
  checkpoint_target, timestamp_target,
}
use collaborative_ai_whitebo.History.Rows.{
  Action, delete_fragments, with_event, with_fragment, with_checkpoint,
}
use collaborative_ai_whitebo.History.Store.{
  insert_event, publish, publish_then, flush_groups, flush_body, flush_fragments, append_event,
  append_fragment, insert_checkpoint, create_checkpoint, first_checkpoint,
  ensure_legacy_import_checkpoint,
}
use collaborative_ai_whitebo.History.Reconstruct.{resolve_target_event_id, reconstruct}
use collaborative_ai_whitebo.History.Restore.{
  RestoreRequest, RestorePreparation, prepare_restore, complete_restore,
}

pub record Steps {R : Type 0} (Rel : HistoryDatabase R → HistoryDatabase R → Type 0) : Type 0 where
  pub preorder : IsPreorder Rel
  pub event :
      (e : HistoryEvent R) (db : HistoryDatabase R)
      → e.id ≡ suc db.last_event
      → Rel db (with_event e db)
  pub checkpoint :
      (c : HistoryCheckpoint R) (db : HistoryDatabase R)
      → c.id ≡ suc db.last_checkpoint
      → Rel db (with_checkpoint c db)
  pub fragment :
      (f : HistoryFragment R) (db : HistoryDatabase R)
      → f.event.id ≡ suc db.last_fragment
      → Rel db (with_fragment f db)
  pub delete :
      (board_id : String) (first last : ℕ)
      → Keeps Rel (delete_fragments {R = R} board_id first last)

module _ {R : Type 0} (s : Schema R) (board_id : String) where
  -- The operations of the store, each with the clock of its call.
  pub data HistoryCall : (A : Type 0) → Action R A → Type 1 where
    flush :
        (now : ℕ) (force : Bool)
        → HistoryCall (List (HistoryEvent R)) (flush_fragments s board_id now force)
    append :
        (now : ℕ) (input : HistoryEventInput R)
        → HistoryCall (HistoryEvent R) (append_event s board_id now input)
    stage :
        (now : ℕ) (input : HistoryFragmentInput R)
        → HistoryCall (HistoryFragment R) (append_fragment s board_id now input)
    checkpoint :
        (now : ℕ) (input : HistoryCheckpointInput R)
        → HistoryCall (HistoryCheckpoint R) (create_checkpoint s board_id now input)
    import_board :
        (now : ℕ) (snapshot : RoomSnapshot R) (at : ℕ)
        → HistoryCall
            (HistoryCheckpoint R)
            (ensure_legacy_import_checkpoint s board_id now snapshot at)
    prepare :
        (now : ℕ) (restore_id : String) (request : RestoreRequest) (current : RoomSnapshot R)
        → HistoryCall
            (RestorePreparation R)
            (prepare_restore s board_id now restore_id request current)
    complete :
        (now : ℕ) (restore_id : String) (request : RestoreRequest)
        (before restored : RoomSnapshot R)
        → HistoryCall
            (HistoryEvent R × HistoryCheckpoint R)
            (complete_restore s board_id now restore_id request before restored)

  pub data HistoryReach (db : HistoryDatabase R) : HistoryDatabase R → Type 1 where
    here : HistoryReach db db
    next :
        {t : HistoryDatabase R} {A : Type 0} {m : Action R A}
        → HistoryReach db t
        → HistoryCall A m
        → HistoryReach db (m t).1

module _ {R : Type 0} (Rel : HistoryDatabase R → HistoryDatabase R → Type 0) (k : Steps Rel)
    (s : Schema R) (board_id : String) (now : ℕ) where
  insert_event-Rel : (input : HistoryEventInput R) → Keeps Rel (insert_event s board_id now input)
  unfolding insert_event gets modify pure ◌>>=◌
  insert_event-Rel input = Keeps-bind k.preorder _ _ (Keeps-ensure k.preorder _ _) λ _.
      Keeps-bind k.preorder _ _ (Keeps-lift k.preorder _)
        λ changes. record { at = λ db. k.event _ db refl }

  insert_checkpoint-Rel :
      (input : HistoryCheckpointInput R) → Keeps Rel (insert_checkpoint s board_id now input)
  unfolding insert_checkpoint gets modify pure ◌>>=◌
  insert_checkpoint-Rel input =
      Keeps-bind k.preorder _ _ (Keeps-lift k.preorder _)
        λ snapshot. record { at = λ db. k.checkpoint _ db refl }

  publish-Rel : (input : HistoryEventInput R) → Keeps Rel (publish s board_id now input)
  unfolding publish
  publish-Rel input = search (keeps_rules, k.preorder, insert_event-Rel) depth 9

  publish_then-Rel :
      (g : HistoryFragment R × List (HistoryFragment R)) (rest : Action R (List (HistoryEvent R)))
      → Keeps Rel rest
      → Keeps Rel (publish_then s board_id now g rest)
  unfolding publish_then
  publish_then-Rel g rest later = search (keeps_rules, k.preorder, publish-Rel, k.delete) depth 12

  flush_groups-Rel :
      (force : Bool) (groups : List (HistoryFragment R × List (HistoryFragment R)))
      → Keeps Rel (flush_groups s board_id now force groups)
  unfolding flush_groups
  flush_groups-Rel force [] = search (keeps_rules, k.preorder)
  flush_groups-Rel force (g ∷ gs) =
      Keeps-if _ _ _ (Keeps-pure k.preorder _) (publish_then-Rel g _ (flush_groups-Rel force gs))

  flush_body-Rel : (force : Bool) → Keeps Rel (flush_body s board_id now force)
  unfolding flush_body
  flush_body-Rel force = search (keeps_rules, k.preorder, flush_groups-Rel) depth 9

  first_checkpoint-Rel :
      (snapshot : RoomSnapshot R) (at : ℕ) (o : Option (HistoryCheckpoint R))
      → Keeps Rel (first_checkpoint s board_id now snapshot at o)
  unfolding first_checkpoint
  first_checkpoint-Rel snapshot at none =
      search (keeps_rules, k.preorder, insert_event-Rel, insert_checkpoint-Rel) depth 9
  first_checkpoint-Rel snapshot at (some c) = search (keeps_rules, k.preorder)

  fragment-Rel : (f : HistoryFragmentInput R) → Keeps Rel (append_fragment s board_id now f)
  unfolding append_fragment gets modify pure ◌>>=◌
  fragment-Rel f = Keeps-transaction k.preorder _ (
      Keeps-bind k.preorder _ _ (Keeps-ensure k.preorder _ _) λ _.
        Keeps-bind k.preorder _ _ (Keeps-lift k.preorder _)
          λ changes. record { at = λ db. k.fragment _ db refl })

module _ {R : Type 0} (Rel : HistoryDatabase R → HistoryDatabase R → Type 0) (k : Steps Rel)
    (s : Schema R) (board_id : String) where
  reconstruct-Rel : (target : HistoricalTarget) → Keeps Rel (reconstruct s board_id target)
  unfolding reconstruct resolve_target_event_id
  reconstruct-Rel (event_target id) = search (keeps_rules, k.preorder) depth 14
  reconstruct-Rel (checkpoint_target id) = search (keeps_rules, k.preorder) depth 14
  reconstruct-Rel (timestamp_target at) = search (keeps_rules, k.preorder) depth 14

  ruleset call_rules = (
    keeps_rules, insert_event-Rel, insert_checkpoint-Rel, flush_body-Rel, first_checkpoint-Rel,
    fragment-Rel, reconstruct-Rel,
  )

  pub Call-Rel : {A : Type 0} {m : Action R A} → HistoryCall s board_id A m → Keeps Rel m
  unfolding flush_fragments append_event create_checkpoint ensure_legacy_import_checkpoint
      prepare_restore complete_restore
  Call-Rel (flush now force) = search (call_rules, k.preorder) depth 9
  Call-Rel (append now input) = search (call_rules, k.preorder) depth 9
  Call-Rel (stage now input) = search (call_rules, k.preorder) depth 9
  Call-Rel (checkpoint now input) = search (call_rules, k.preorder) depth 9
  Call-Rel (import_board now snapshot at) = search (call_rules, k.preorder) depth 9
  Call-Rel (prepare now restore_id request current) = search (call_rules, k.preorder) depth 12
  Call-Rel (complete now restore_id request before restored) =
      search (call_rules, k.preorder) depth 12

  pub Reach-Rel : {a b : HistoryDatabase R} → HistoryReach s board_id a b → Rel a b
  Reach-Rel {a} here = k.preorder.same a
  Reach-Rel {a} (next {t = t} {m = m} r c) =
      k.preorder.trans a t (m t).1 (Reach-Rel r) ((Call-Rel c).at t)
