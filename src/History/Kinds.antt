-- ===== src/History/Kinds.antt =====
-- `eventTypeForChanges` of server/history-storage.ts: the type of the event that a write records.
use collaborative_ai_whitebo.Prelude.{
  String, Bool, true, false, not, ◌&&◌, Option, none, some, List, [], ◌∷◌, if◌then◌else◌, ◌==◌, all,
  is_some, or_else,
}
use collaborative_ai_whitebo.History.Types.{Schema, HistoryRecordChange}

abbrev pub not_empty : {A : Type 0} → List A → Bool
not_empty [] = false
not_empty (x ∷ xs) = true

module _ {R : Type 0} (s : Schema R) where
  abbrev pub type_is : String → Option R → Bool
  type_is name none = false
  type_is name (some r) = s.type_name r == name

  abbrev pub is_entity_change : HistoryRecordChange R → Bool
  is_entity_change c = type_is "engineering_entity" (or_else c.before c.after)

  -- Two shapes of which only the position differs.
  abbrev pub is_move : Option R → Option R → Bool
  is_move none b = false
  is_move (some a) none = false
  is_move (some a) (some b) =
      (s.type_name a == "shape") && (s.type_name b == "shape") && s.moved a b && s.same_rest a b

  unfoldable pub event_type_for_changes : List (HistoryRecordChange R) → String
  event_type_for_changes changes =
      let some_change = not_empty changes in
      let all_entities = some_change && all is_entity_change changes in
      if some_change && all (λ c. not (is_some c.before)) changes
      then (if all_entities then "entity.created" else "object.created")
      else if some_change && all (λ c. not (is_some c.after)) changes
      then (if all_entities then "entity.deleted" else "object.deleted")
      else if all_entities
      then "entity.updated"
      else if some_change && all (λ c. is_move c.before c.after) changes
      then "object.moved"
      else "object.edited"
