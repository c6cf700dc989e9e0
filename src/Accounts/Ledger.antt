-- ===== src/Accounts/Ledger.antt =====
-- The statements of `AuthDatabase` (server/auth-db.ts) on invitations, audit events and assets.
use Prim.Native.String.{count}
use mathlib.Core.List.{reverse}
use collaborative_ai_whitebo.Prelude.{
  ℕ, ◌+◌, String, Bool, true, false, not, ◌&&◌, ◌||◌, Option, none, some, List, [], ◌∷◌, ◌++◌, leb,
  ltb, eqb, if◌then◌else◌, is_some, get_or, length, filter, find?, any, update_where, take, ◌==◌,
  max, min,
}
use collaborative_ai_whitebo.Exec.{pure, gets, modify, ensure, transaction, ◌>>=◌, ◌>>◌}
use collaborative_ai_whitebo.Accounts.Types.{
  InvitationRecord, AccountEvent, BoardAsset, primary_key, token_unique, event_unique, foreign_key,
  check_failed, sqlite,
}
use collaborative_ai_whitebo.Accounts.Input.{codes, between}
use collaborative_ai_whitebo.Accounts.Database.{AuthDatabase, Statement, user_exists, board_exists}

-- A foreign key that may be NULL.
abbrev pub board_exists? : Option String → AuthDatabase → Bool
board_exists? none db = true
board_exists? (some id) db = board_exists id db

-- CHECK ((board_id IS NULL AND role IS NULL) OR (board_id IS NOT NULL AND role IS NOT NULL))
abbrev pub board_and_role : InvitationRecord → Bool
board_and_role i =
    (not (is_some i.board_id) && not (is_some i.role)) || (is_some i.board_id && is_some i.role)

unfoldable pub insert_invitation : InvitationRecord → Statement Unit
insert_invitation invitation = do
  db ← gets (λ db. db)
  ensure (not (any (λ i. i.id == invitation.id) db.invitations)) (sqlite primary_key)
  ensure (not (any (λ i. i.token_hash == invitation.token_hash) db.invitations))
      (sqlite token_unique)
  ensure (eqb (count invitation.token_hash) 64 && board_and_role invitation) (sqlite check_failed)
  ensure (user_exists invitation.created_by_user_id db && board_exists? invitation.board_id db)
      (sqlite foreign_key)
  modify (λ db. record db { invitations = db.invitations ++ invitation ∷ [] })

unfoldable pub get_invitation_by_token_hash : String → AuthDatabase → Option InvitationRecord
get_invitation_by_token_hash hash db = find? (λ i. i.token_hash == hash) db.invitations

-- WHERE id = ? AND consumed_at IS NULL AND revoked_at IS NULL AND expires_at > ?
abbrev pub consumable : String → ℕ → InvitationRecord → Bool
consumable id at i =
    i.id == id && not (is_some i.consumed_at) && not (is_some i.revoked_at) && ltb at i.expires_at

-- Whether the UPDATE changed a row, as `changes === 1` says: `id` is the primary key. A row that it
-- changes must refer to an account.
unfoldable pub consume_invitation_row : String → String → ℕ → Statement Bool
consume_invitation_row id user_id at = do
  changed ← gets (λ db. any (consumable id at) db.invitations)
  known ← gets (user_exists user_id)
  ensure (not changed || known) (sqlite foreign_key)
  modify λ db. record db {
    invitations =
        update_where (consumable id at)
          (λ i. record i { consumed_at = some at; consumed_by_user_id = some user_id })
          db.invitations;
  }
  pure changed

abbrev pub revocable : String → InvitationRecord → Bool
revocable id i = i.id == id && not (is_some i.consumed_at) && not (is_some i.revoked_at)

unfoldable pub revoke_invitation_row : String → ℕ → Statement Bool
revoke_invitation_row id at = do
  changed ← gets (λ db. any (revocable id) db.invitations)
  modify λ db. record db {
    invitations =
        update_where (revocable id) (λ i. record i { revoked_at = some at }) db.invitations;
  }
  pure changed

-- Audit events.

unfoldable pub insert_account_event : AccountEvent → Statement Unit
insert_account_event event = do
  db ← gets (λ db. db)
  ensure (not (any (λ e. e.event_id == event.event_id) db.events)) (sqlite event_unique)
  modify (λ db. record db { events = db.events ++ event ∷ [] })

abbrev pub is_text : String → Option String → Bool
is_text s none = false
is_text s (some t) = t == s

abbrev pub event_limit : Option ℕ → ℕ
event_limit limit = min (max (get_or limit 100) 1) 500

-- An empty text counts as no filter, as in `if (options.boardId)`.
unfoldable pub event_filter : Option String → Option String → AccountEvent → Bool
event_filter user_id board_id e =
    let board = get_or board_id "" in
    let user = get_or user_id "" in
    if not (board == "")
    then is_text board e.board_id
    else if not (user == "")
    then is_text user e.actor_user_id || is_text user e.subject_user_id
    else true

unfoldable pub list_account_events :
    Option String → Option String → Option ℕ → AuthDatabase → List AccountEvent
unfolding event_filter
list_account_events user_id board_id limit db =
    take (event_limit limit) (reverse (filter (event_filter user_id board_id) db.events))

-- Assets.

abbrev pub same_asset : String → String → BoardAsset → Bool
same_asset upload_id board_id a = a.upload_id == upload_id && a.board_id == board_id

-- INSERT OR IGNORE skips a row that breaks the primary key; a foreign key is still enforced.
unfoldable pub register_board_asset : String → String → Statement Unit
register_board_asset board_id upload_id = do
  db ← gets (λ db. db)
  ensure (any (same_asset upload_id board_id) db.assets || board_exists board_id db)
      (sqlite foreign_key)
  modify λ db. record db {
    assets =
        if any (same_asset upload_id board_id) db.assets
        then db.assets
        else db.assets ++ record { upload_id = upload_id; board_id = board_id } ∷ [];
  }

-- LIKE with the prefix escaped: the prefix, then anything. SQLite's LIKE takes the two cases of an
-- ASCII letter for one.
abbrev pub fold_case : ℕ → ℕ
fold_case c = if between b'A' b'Z' c then c + 32 else c

abbrev pub is_like : List ℕ → List ℕ → Bool
is_like [] cs = true
is_like (d ∷ ds) [] = false
is_like (d ∷ ds) (c ∷ cs) = let rest = is_like ds cs in eqb (fold_case d) (fold_case c) && rest

unfoldable pub count_board_assets_with_prefix : String → String → AuthDatabase → ℕ
count_board_assets_with_prefix board_id prefix db =
    length
      (filter (λ a. a.board_id == board_id && is_like (codes prefix) (codes a.upload_id)) db.assets)

unfoldable pub register_board_asset_if_under_cap : String → String → String → ℕ → Statement Bool
unfolding register_board_asset count_board_assets_with_prefix
register_board_asset_if_under_cap board_id upload_id prefix max_count = transaction do
  held ← gets (count_board_assets_with_prefix board_id prefix)
  if leb max_count held then pure false else do register_board_asset board_id upload_id; pure true

-- The joins of `canReadAsset`: the asset on this board, the membership and the live board.
abbrev pub live_board : String → AuthDatabase → Bool
live_board board_id db = any (λ b. b.id == board_id && not (is_some b.deleted_at)) db.boards

unfoldable pub can_read_asset : String → String → String → AuthDatabase → Bool
can_read_asset user_id board_id upload_id db =
    any (same_asset upload_id board_id) db.assets
    && any (λ m. m.board_id == board_id && m.user_id == user_id) db.members
    && live_board board_id db

unfoldable pub asset_belongs_to_board : String → String → AuthDatabase → Bool
asset_belongs_to_board upload_id board_id db =
    any (same_asset upload_id board_id) db.assets && live_board board_id db
