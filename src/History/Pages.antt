-- ===== src/History/Pages.antt =====
-- `listEvents` and `listCheckpoints` of server/history.ts. Ids grow along the tables, so `ORDER BY id`
-- is the order of the table, or its reverse.
use collaborative_ai_whitebo.Prelude.{
  ℕ, suc, String, Bool, true, false, ◌&&◌, Option, none, some, List, [], ◌∷◌, ◌++◌, leb, ltb, max,
  min, if◌then◌else◌, get_or, ◌==◌, length, filter, any, last?, take,
}
use collaborative_ai_whitebo.History.Types.{
  HistorySource, HistoryEvent, HistoryCheckpoint, HistoryDatabase,
}
use collaborative_ai_whitebo.History.Rows.{board_events, id?}
use collaborative_ai_whitebo.History.Store.{source_text}
use collaborative_ai_whitebo.History.Reconstruct.{board_checkpoints}

-- A filter that takes one value or several is the list of them here.
pub record HistoryEventFilters : Type 0 where
  pub user_id : Option String
  pub source : Option (List HistorySource)
  pub event_type : Option (List String)
  pub entity_type : Option String
  pub entity_id : Option String
  pub from : Option ℕ
  pub to : Option ℕ
  pub after : Option ℕ
  pub before : Option ℕ
  pub ascending : Bool
  pub limit : Option ℕ

-- `column = ?`, which a NULL column never satisfies
abbrev pub is_text : Option String → Option String → Bool
is_text none column = true
is_text (some v) none = false
is_text (some v) (some c) = c == v

-- `column IN (…)`
abbrev pub is_one_of : {A : Type 0} → (A → String) → Option (List A) → String → Bool
is_one_of f none column = true
is_one_of f (some vs) column = any (λ v. f v == column) vs

abbrev pub holds : (ℕ → ℕ → Bool) → Option ℕ → ℕ → Bool
holds test none column = true
holds test (some v) column = test v column

abbrev pub reverse : {A : Type 0} → List A → List A
reverse [] = []
reverse (x ∷ xs) = reverse xs ++ x ∷ []

abbrev pub page_limit : HistoryEventFilters → ℕ
page_limit f = max 1 (min (get_or f.limit 50) 200)

module _ {R : Type 0} where
  unfoldable pub event_matches : HistoryEventFilters → HistoryEvent R → Bool
  event_matches f e =
      is_text f.user_id e.actor_user_id
      && is_one_of source_text f.source (source_text e.source)
      && is_one_of (λ t. t) f.event_type e.event_type
      && is_text f.entity_type e.entity_type
      && is_text f.entity_id e.entity_id
      && holds leb f.from e.created_at
      && holds (λ v c. leb c v) f.to e.created_at
      && holds ltb f.after e.id
      && holds (λ v c. ltb c v) f.before e.id

  -- The matching rows, in the order asked for.
  unfoldable pub matching_events :
      String → HistoryEventFilters → HistoryDatabase R → List (HistoryEvent R)
  unfolding event_matches
  matching_events board_id f db =
      let rows = filter (event_matches f) (board_events board_id db) in
      if f.ascending then rows else reverse rows

  -- The events of the page, and the cursor of the next.
  unfoldable pub list_events :
      String → HistoryEventFilters → HistoryDatabase R → List (HistoryEvent R) × Option ℕ
  unfolding matching_events
  list_events board_id f db =
      let limit = page_limit f in
      let rows = take (suc limit) (matching_events board_id f db) in
      let events = take limit rows in
      (events, if ltb limit (length rows) then id? (last? events) else none)

  unfoldable pub list_checkpoints : String → ℕ → HistoryDatabase R → List (HistoryCheckpoint R)
  list_checkpoints board_id limit db =
      take (max 1 (min limit 500)) (reverse (board_checkpoints board_id db))
