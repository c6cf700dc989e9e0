-- ===== src/History/Rows.antt =====
-- The rows of a board's history (server/history.ts): lookups, the groups of pending fragments, and
-- the statements that write a row.
use collaborative_ai_whitebo.Prelude.{
  ℕ, String, not, ◌&&◌, Option, none, some, List, [], ◌∷◌, ◌++◌, leb, eqb, if◌then◌else◌, get_or,
  ◌==◌, length, filter, find?, last?, set_all,
}
use collaborative_ai_whitebo.Exec.{Exec, modify}
use collaborative_ai_whitebo.History.Types.{
  HistoryMetadata, HistoryEvent, HistoryFragment, HistoryCheckpoint, HistoryError, HistoryDatabase,
}

abbrev pub Action : Type 0 → Type 0 → Type 0
Action R A = Exec (HistoryDatabase R) HistoryError A

module _ {R : Type 0} where
  -- A run of consecutive fragments with one coalescing key: the first of them, and the others.
  abbrev pub add_to_groups :
      List (HistoryFragment R × List (HistoryFragment R))
      → HistoryFragment R
      → List (HistoryFragment R × List (HistoryFragment R))
  add_to_groups [] row = (row, []) ∷ []
  add_to_groups ((first, others) ∷ []) row =
      if first.coalesce_group == row.coalesce_group
      then (first, others ++ row ∷ []) ∷ []
      else (first, others) ∷ (row, []) ∷ []
  add_to_groups (g ∷ h ∷ gs) row = g ∷ add_to_groups (h ∷ gs) row

  abbrev pub groups_from :
      List (HistoryFragment R × List (HistoryFragment R))
      → List (HistoryFragment R)
      → List (HistoryFragment R × List (HistoryFragment R))
  groups_from groups [] = groups
  groups_from groups (row ∷ rows) = groups_from (add_to_groups groups row) rows

  abbrev pub members : HistoryFragment R × List (HistoryFragment R) → List (HistoryFragment R)
  members (first, others) = first ∷ others

  abbrev pub last_member : HistoryFragment R × List (HistoryFragment R) → HistoryFragment R
  last_member (first, others) = get_or (last? others) first

  -- `Object.assign({}, ...fragments.map((fragment) => fragment.metadata))`
  abbrev pub assign_all : HistoryMetadata → List (HistoryFragment R) → HistoryMetadata
  assign_all m [] = m
  assign_all m (f ∷ fs) = assign_all (set_all f.event.metadata m) fs

  unfoldable pub get_event : String → ℕ → HistoryDatabase R → Option (HistoryEvent R)
  get_event board_id id db = find? (λ e. (e.board_id == board_id) && eqb e.id id) db.events

  unfoldable pub get_checkpoint : String → ℕ → HistoryDatabase R → Option (HistoryCheckpoint R)
  get_checkpoint board_id id db =
      find? (λ c. (c.board_id == board_id) && eqb c.id id) db.checkpoints

  abbrev pub pending : String → HistoryDatabase R → List (HistoryFragment R)
  pending board_id db = filter (λ f. f.event.board_id == board_id) db.fragments

  unfoldable pub get_pending_fragment_count : String → HistoryDatabase R → ℕ
  get_pending_fragment_count board_id db = length (pending board_id db)

  abbrev pub board_events : String → HistoryDatabase R → List (HistoryEvent R)
  board_events board_id db = filter (λ e. e.board_id == board_id) db.events

  -- `SELECT MAX(id)`: ids grow along the table.
  abbrev pub id? : Option (HistoryEvent R) → Option ℕ
  id? none = none
  id? (some e) = some e.id

  unfoldable pub latest_event_id : String → HistoryDatabase R → Option ℕ
  latest_event_id board_id db = id? (last? (board_events board_id db))

  -- DELETE … WHERE board_id = ? AND id BETWEEN ? AND ?
  unfoldable pub delete_fragments : String → ℕ → ℕ → Action R Unit
  delete_fragments board_id first last = modify λ db. record db {
    fragments =
        filter
          (λ f. not ((f.event.board_id == board_id) && leb first f.event.id && leb f.event.id last))
          db.fragments;
  }

  abbrev pub with_event : HistoryEvent R → HistoryDatabase R → HistoryDatabase R
  with_event event db = record db { events = db.events ++ event ∷ []; last_event = event.id }

  abbrev pub with_fragment : HistoryFragment R → HistoryDatabase R → HistoryDatabase R
  with_fragment f db = record db { fragments = db.fragments ++ f ∷ []; last_fragment = f.event.id }

  abbrev pub with_checkpoint : HistoryCheckpoint R → HistoryDatabase R → HistoryDatabase R
  with_checkpoint c db = record db {
    checkpoints = db.checkpoints ++ c ∷ [];
    last_checkpoint = c.id;
  }
