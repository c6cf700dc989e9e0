-- ===== src/History/Types.antt =====
-- The data of shared/history.ts and the rows of the history tables. A record of the canvas belongs
-- to tldraw: its type, its fields, the comparison `isDeepStrictEqual` and `JSON.stringify` are
-- parameters. A column that holds JSON holds the value itself here.
use collaborative_ai_whitebo.Prelude.{ℕ, String, ◌≡◌, Bool, true, Option, List, ◌↔◌, Assoc}

pub data HistoricalTarget : Type 0 where
  event_target : ℕ → HistoricalTarget
  checkpoint_target : ℕ → HistoricalTarget
  timestamp_target : ℕ → HistoricalTarget

-- What the code reads of a tldraw record, and the functions of Node.js that it calls on one.
pub record Schema (R : Type 0) : Type 0 where
  pub record_id : R → String
  pub type_name : R → String
  -- whether `x` or `y` differ
  pub moved : R → R → Bool
  -- whether all fields but `x` and `y` are deeply equal
  pub same_rest : R → R → Bool
  pub is_deep_strict_equal : R → R → Bool
  -- the length of a text in UTF-16 units
  pub units : String → ℕ
  -- JSON.stringify of the parts of a coalescing key
  pub stringify_key : List (Option String) → String
  -- JSON.stringify of the values of the metadata that history itself writes
  pub stringify_text : String → String
  pub stringify_target : HistoricalTarget → String

-- What Node.js documents of `isDeepStrictEqual`: it tells whether two JSON values are the same.
pub record Decides {R : Type 0} (s : Schema R) : Type 0 where
  pub equal : (a b : R) → (s.is_deep_strict_equal a b ≡ true) ↔ (a ≡ b)

pub data HistorySource : Type 0 where
  human : HistorySource
  ai : HistorySource
  system : HistorySource

pub record HistoryRecordChange (R : Type 0) : Type 0 where
  pub record_id : String
  pub before : Option R
  pub after : Option R

-- An entry of `RoomSnapshot['documents']`.
pub record Document (R : Type 0) : Type 0 where
  pub state : R
  pub last_changed_clock : ℕ

-- `rest` are the fields that history copies without reading.
pub record RoomSnapshot (R : Type 0) : Type 0 where
  pub clock : Option ℕ
  pub document_clock : Option ℕ
  pub documents : List (Document R)
  pub tombstones : Option (Assoc ℕ)
  pub rest : String

-- Metadata by key, each value as its JSON text.
abbrev pub HistoryMetadata : Type 0
HistoryMetadata = Assoc String

pub record HistoryEventInput (R : Type 0) : Type 0 where
  pub actor_user_id : Option String
  pub session_id : Option String
  pub event_type : String
  pub entity_type : Option String
  pub entity_id : Option String
  pub source : HistorySource
  pub created_at : Option ℕ
  pub metadata : HistoryMetadata
  pub changes : List (HistoryRecordChange R)
  pub document_clock : Option ℕ

pub record HistoryFragmentInput (R : Type 0) : Type 0 where
  pub input : HistoryEventInput R
  pub coalesce_key : Option String
  pub flush_after : Option ℕ

pub record HistoryEvent (R : Type 0) : Type 0 where
  pub id : ℕ
  pub board_id : String
  pub actor_user_id : Option String
  pub session_id : Option String
  pub event_type : String
  pub entity_type : Option String
  pub entity_id : Option String
  pub source : HistorySource
  pub created_at : ℕ
  pub metadata : HistoryMetadata
  pub changes : List (HistoryRecordChange R)
  pub document_clock : Option ℕ

-- An event that waits, with the group it merges into and the time from which it may be published.
pub record HistoryFragment (R : Type 0) : Type 0 where
  pub event : HistoryEvent R
  pub coalesce_group : String
  pub flush_after : ℕ

pub record HistoryCheckpointInput (R : Type 0) : Type 0 where
  pub snapshot : RoomSnapshot R
  pub created_by : Option String
  pub created_at : Option ℕ
  -- absent, or given and possibly null
  pub base_event_id : Option (Option ℕ)
  pub label : Option String
  pub reason : String

pub record HistoryCheckpoint (R : Type 0) : Type 0 where
  pub id : ℕ
  pub board_id : String
  pub created_at : ℕ
  pub created_by : Option String
  pub base_event_id : Option ℕ
  pub label : Option String
  pub reason : String
  pub snapshot : RoomSnapshot R

pub record ReconstructedBoardState (R : Type 0) : Type 0 where
  pub snapshot : RoomSnapshot R
  pub target_event_id : Option ℕ
  pub base_checkpoint_id : ℕ
  pub applied_event_ids : List ℕ

-- The messages of the errors that the code throws.
pub data HistoryError : Type 0 where
  bad_identifier : HistoryError
  null_change : HistoryError
  wrong_before : String → HistoryError
  wrong_after : String → HistoryError
  invalid_document : HistoryError
  missing_record : String → HistoryError
  divergence : ℕ → String → HistoryError
  event_not_found : HistoryError
  checkpoint_not_found : HistoryError
  no_checkpoint : HistoryError

-- The tables of a board's history. `AUTOINCREMENT` never gives an id twice: the last ids given stand
-- beside the rows.
pub record HistoryDatabase (R : Type 0) : Type 0 where
  pub events : List (HistoryEvent R)
  pub checkpoints : List (HistoryCheckpoint R)
  pub fragments : List (HistoryFragment R)
  pub last_event : ℕ
  pub last_checkpoint : ℕ
  pub last_fragment : ℕ
