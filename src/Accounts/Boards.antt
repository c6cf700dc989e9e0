-- ===== src/Accounts/Boards.antt =====
-- Boards of `AuthService` (server/auth.ts): creation, adoption of legacy rooms, roles, renaming,
-- deletion and restoration. `draw` gives the UUIDs of a call, `now` the reading of its clock.
use collaborative_ai_whitebo.Prelude.{
  ℕ, suc, String, Bool, true, not, ◌&&◌, ◌||◌, Option, none, some, List, [], ◌∷◌, ◌++◌, leb, ltb,
  eqb, text_leb, sort_by, if◌then◌else◌, is_some, get_or, ◌==◌, length, Assoc, set,
}
use collaborative_ai_whitebo.Exec.{pure, lift, gets, ensure, transaction, ◌>>=◌, ◌>>◌}
use collaborative_ai_whitebo.Accounts.Types.{
  BoardRole, BoardRecord, BoardMemberRecord, BoardSummary, public_board, MetaValue, text, auth,
  board_exists, forbidden, invalid_input,
}
use collaborative_ai_whitebo.Accounts.Database.{
  AuthDatabase, Statement, get_board_by_id, insert_board, rename_board_row, set_board_deleted,
  get_board_member, upsert_board_member,
}
use collaborative_ai_whitebo.Accounts.Input.{Platform, clean_name, validate_board_id}
use collaborative_ai_whitebo.Accounts.Guards.{
  non_empty, require_active_user, require_board_member, visible, is_owner, record_event,
}

-- The rows of `listBoardsForUser`, in the order of the memberships.
abbrev pub board_rows : String → Bool → AuthDatabase → List BoardMemberRecord → List BoardSummary
board_rows user_id include_deleted db [] = []
board_rows user_id include_deleted db (m ∷ ms) =
    let rest = board_rows user_id include_deleted db ms in
    if m.user_id == user_id
    then elim (visible include_deleted (get_board_by_id m.board_id db) (some m)) [
      | none ↦ rest
      | some (b, _) ↦ public_board b m.role ∷ rest
    ]
    else rest

-- ORDER BY updated_at DESC, id ASC
abbrev pub changed_last : BoardSummary → BoardSummary → Bool
changed_last a b =
    ltb b.updated_at a.updated_at || (eqb a.updated_at b.updated_at && text_leb a.id b.id)

unfoldable pub list_boards : String → Bool → Statement (List BoardSummary)
list_boards user_id include_deleted = do
  require_active_user user_id
  gets (λ db. sort_by changed_last (board_rows user_id include_deleted db db.members))

abbrev pub owner_row : String → String → ℕ → BoardMemberRecord
owner_row board_id user_id at = record {
  board_id = board_id;
  user_id = user_id;
  role = BoardRole.owner;
  created_at = at;
  updated_at = at;
}

-- A board made by a machine client has no acting user, and the audit row names the agent.
abbrev pub agent_fields : String → List (String × MetaValue)
agent_fields agent = ("actorKind", text "agent") ∷ ("agentName", text agent) ∷ []

unfoldable pub record_by :
    String
    → String
    → Option String
    → String
    → String
    → List (String × MetaValue)
    → List (String × MetaValue)
    → ℕ
    → Statement Unit
record_by event_id type none user_id board_id fields extra at =
    record_event event_id type (some user_id) (some user_id) (some board_id) fields at
record_by event_id type (some agent) user_id board_id fields extra at =
    record_event event_id type none (some user_id) (some board_id)
      (fields ++ (agent_fields agent ++ extra)) at

-- The transaction of `createBoard`.
unfoldable pub create_rows : (ℕ → String) → BoardRecord → Option String → ℕ → Statement BoardSummary
unfolding record_by
create_rows draw board agent at = do
  taken ← gets (get_board_by_id board.id)
  ensure (not (is_some taken)) (auth board_exists 409)
  insert_board board
  upsert_board_member (owner_row board.id board.owner_user_id at)
  record_by (draw 1) "board.created" agent board.owner_user_id board.id
      (("name", text board.name) ∷ []) [] at
  pure (public_board board BoardRole.owner)

abbrev pub adopted_event : String → String → String → ℕ → String → Statement Unit
adopted_event event_id user_id id at name =
    record_event event_id "board.legacy_adopted" (some user_id) (some user_id) (some id)
      (("name", text name) ∷ []) at

-- One round of the loop of `adoptLegacyBoards`: a known board is left alone.
unfoldable pub adopt_board : String → String → ℕ → String → String → Statement (List BoardSummary)
adopt_board event_id user_id at id name = do
  known ← gets (get_board_by_id id)
  let board : BoardRecord = record {
    id = id;
    name = name;
    owner_user_id = user_id;
    created_at = at;
    updated_at = at;
    deleted_at = none;
  }
  if is_some known then pure [] else do
    insert_board board
    upsert_board_member (owner_row id user_id at)
    adopted_event event_id user_id id at name
    pure (public_board board BoardRole.owner ∷ [])

unfoldable pub adopt_boards :
    (ℕ → String) → ℕ → String → ℕ → Assoc String → Statement (List BoardSummary)
unfolding adopt_board
adopt_boards draw k user_id at [] = pure []
adopt_boards draw k user_id at ((id, name) ∷ rest) = do
  adopted ← adopt_board (draw k) user_id at id name
  more ← adopt_boards draw (suc k) user_id at rest
  pure (adopted ++ more)

-- `board.name ?? (id === 'demo' ? 'Demo' : id)`
abbrev pub legacy_name : String → Option String → String
legacy_name id name = get_or name (if id == "demo" then "Demo" else id)

module _ (p : Platform) where
  unfoldable pub create_board :
      (ℕ → String) → ℕ → String → String → Option String → Option String → Statement BoardSummary
  unfolding create_rows
  create_board draw at user_id name requested_id agent = do
    require_active_user user_id
    id ← lift (validate_board_id (get_or requested_id (draw 0)))
    clean ← lift (clean_name p 120 name)
    transaction (
        create_rows draw
          (record {
            id = id;
            name = clean;
            owner_user_id = user_id;
            created_at = at;
            updated_at = at;
            deleted_at = none;
          })
          (non_empty agent) at)

  -- The checked names by id; a later entry for an id overwrites an earlier one.
  unfoldable pub clean_legacy :
      List (String × Option String) → Assoc String → Statement (Assoc String)
  clean_legacy [] cleaned = pure cleaned
  clean_legacy ((board_id, board_name) ∷ rest) cleaned = do
    id ← lift (validate_board_id board_id)
    name ← lift (clean_name p 120 (legacy_name id board_name))
    clean_legacy rest (set id name cleaned)

  unfoldable pub adopt_legacy_boards :
      (ℕ → String) → ℕ → String → List (String × Option String) → Statement (List BoardSummary)
  unfolding clean_legacy adopt_boards
  adopt_legacy_boards draw at owner_user_id boards = do
    owner ← require_active_user owner_user_id
    ensure owner.is_admin (auth forbidden 403)
    ensure (leb (length boards) 1000) (auth invalid_input 400)
    cleaned ← clean_legacy boards []
    transaction (adopt_boards draw 0 owner_user_id at cleaned)

  unfoldable pub rename_board : (ℕ → String) → ℕ → String → String → String → Statement BoardSummary
  rename_board draw at user_id board_id name = do
    (board, membership) ← require_board_member user_id board_id true
    ensure (is_owner membership.role) (auth forbidden 403)
    clean ← lift (clean_name p 120 name)
    transaction (do
      rename_board_row board.id clean at
      record_event (draw 0) "board.renamed" (some user_id) (some user_id) (some board.id)
          (("previousName", text board.name) ∷ ("name", text clean) ∷ []) at)
    pure (public_board (record board { name = clean; updated_at = at }) membership.role)

unfoldable pub get_board : String → String → Bool → Statement (Option BoardSummary)
get_board user_id board_id include_deleted = do
  require_active_user user_id
  id ← lift (validate_board_id board_id)
  board ← gets (get_board_by_id id)
  membership ← gets (get_board_member id user_id)
  pure (elim (visible include_deleted board membership) [
    | none ↦ none
    | some (b, m) ↦ some (public_board b m.role)
  ])

abbrev pub role_of_summary : Option BoardSummary → Option BoardRole
role_of_summary none = none
role_of_summary (some b) = some b.role

unfoldable pub get_board_role : String → String → Bool → Statement (Option BoardRole)
unfolding get_board
get_board_role user_id board_id include_deleted = do
  board ← get_board user_id board_id include_deleted
  pure (role_of_summary board)

abbrev pub reason_field : Option String → List (String × MetaValue)
reason_field none = []
reason_field (some reason) = ("reason", text reason) ∷ []

unfoldable pub delete_board :
    (ℕ → String) → ℕ → String → String → Option String → Option String → Statement BoardSummary
unfolding record_by
delete_board draw at user_id board_id agent reason = do
  (board, membership) ← require_board_member user_id board_id true
  ensure (is_owner membership.role) (auth forbidden 403)
  if is_some board.deleted_at then pure (public_board board membership.role) else do
    transaction (do
      set_board_deleted board.id (some at) at
      record_by (draw 0) "board.deleted" (non_empty agent) user_id board.id []
          (reason_field (non_empty reason)) at)
    pure (public_board (record board { updated_at = at; deleted_at = some at }) membership.role)

unfoldable pub restore_board : (ℕ → String) → ℕ → String → String → Statement BoardSummary
restore_board draw at user_id board_id = do
  (board, membership) ← require_board_member user_id board_id true
  ensure (is_owner membership.role) (auth forbidden 403)
  if not (is_some board.deleted_at) then pure (public_board board membership.role) else do
    transaction (do
      set_board_deleted board.id none at
      record_event (draw 0) "board.restored" (some user_id) (some user_id) (some board.id) [] at)
    pure (public_board (record board { updated_at = at; deleted_at = none }) membership.role)
