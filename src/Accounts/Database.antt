-- ===== src/Accounts/Database.antt =====
-- The tables of auth.sqlite and the statements of `AuthDatabase` (server/auth-db.ts). A table is the
-- list of its rows in insertion order. The constraints that the schema declares are the guards of
-- the inserts; a statement that breaks one throws and writes nothing.
use Prim.Native.String.{count}
use collaborative_ai_whitebo.Prelude.{
  ℕ, String, Bool, not, ◌&&◌, ◌||◌, Option, none, some, List, [], ◌∷◌, ◌++◌, leb, eqb,
  if◌then◌else◌, is_some, length, filter, find?, any, update_where, ◌==◌,
}
use collaborative_ai_whitebo.Exec.{Exec, pure, gets, modify, ensure, ◌>>=◌, ◌>>◌}
use collaborative_ai_whitebo.Accounts.Types.{
  UserRecord, SessionRecord, BoardRecord, BoardMemberRecord, InvitationRecord, AccountEvent,
  BoardAsset, primary_key, login_unique, token_unique, foreign_key, check_failed, AuthFailure,
  sqlite,
}

pub record AuthDatabase : Type 0 where
  pub users : List UserRecord
  pub sessions : List SessionRecord
  pub boards : List BoardRecord
  pub members : List BoardMemberRecord
  pub invitations : List InvitationRecord
  pub events : List AccountEvent
  pub assets : List BoardAsset

abbrev pub empty : AuthDatabase
empty = record {
  users = [];
  sessions = [];
  boards = [];
  members = [];
  invitations = [];
  events = [];
  assets = [];
}

abbrev pub Statement : Type 0 → Type 0
Statement A = Exec AuthDatabase AuthFailure A

-- Users.

unfoldable pub count_users : AuthDatabase → ℕ
count_users db = length db.users

unfoldable pub get_user_by_id : String → AuthDatabase → Option UserRecord
get_user_by_id id db = find? (λ u. u.id == id) db.users

unfoldable pub get_user_by_normalized_login : String → AuthDatabase → Option UserRecord
get_user_by_normalized_login login db = find? (λ u. u.login_normalized == login) db.users

unfoldable pub insert_user : UserRecord → Statement Unit
insert_user user = do
  db ← gets (λ db. db)
  ensure (not (any (λ u. u.id == user.id) db.users)) (sqlite primary_key)
  ensure (not (any (λ u. u.login_normalized == user.login_normalized) db.users))
      (sqlite login_unique)
  modify (λ db. record db { users = db.users ++ user ∷ [] })

unfoldable pub set_last_login : String → ℕ → Statement Unit
set_last_login user_id at = modify λ db. record db {
  users =
      update_where (λ u. u.id == user_id)
        (λ u. record u { last_login_at = some at; updated_at = at }) db.users;
}

unfoldable pub set_user_settings : String → String → ℕ → Statement Unit
set_user_settings user_id settings_json at = modify λ db. record db {
  users =
      update_where (λ u. u.id == user_id && not (is_some u.disabled_at))
        (λ u. record u { settings_json = settings_json; updated_at = at }) db.users;
}

unfoldable pub set_user_disabled : String → Option ℕ → ℕ → Statement Unit
set_user_disabled user_id disabled_at updated_at = modify λ db. record db {
  users =
      update_where (λ u. u.id == user_id)
        (λ u. record u { disabled_at = disabled_at; updated_at = updated_at }) db.users;
}

-- Sessions.

abbrev pub user_exists : String → AuthDatabase → Bool
user_exists id db = any (λ u. u.id == id) db.users

abbrev pub board_exists : String → AuthDatabase → Bool
board_exists id db = any (λ b. b.id == id) db.boards

unfoldable pub insert_session : SessionRecord → Statement Unit
insert_session session = do
  db ← gets (λ db. db)
  ensure (not (any (λ s. s.id == session.id) db.sessions)) (sqlite primary_key)
  ensure (not (any (λ s. s.token_hash == session.token_hash) db.sessions)) (sqlite token_unique)
  ensure (eqb (count session.token_hash) 64) (sqlite check_failed)
  ensure (user_exists session.user_id db) (sqlite foreign_key)
  modify (λ db. record db { sessions = db.sessions ++ session ∷ [] })

unfoldable pub get_session_by_token_hash : String → AuthDatabase → Option SessionRecord
get_session_by_token_hash hash db = find? (λ s. s.token_hash == hash) db.sessions

unfoldable pub touch_session : String → ℕ → Statement Unit
touch_session id at = modify λ db. record db {
  sessions =
      update_where (λ s. s.id == id && not (is_some s.revoked_at))
        (λ s. record s { last_seen_at = at }) db.sessions;
}

-- The UPDATE reports one changed row exactly when such a row was there: `id` is the primary key.
unfoldable pub revoke_found : String → ℕ → Option SessionRecord → Statement (Option SessionRecord)
revoke_found hash at none = pure none
revoke_found hash at (some session) = if is_some session.revoked_at then pure none else do
  modify λ db. record db {
    sessions =
        update_where (λ s. s.id == session.id && not (is_some s.revoked_at))
          (λ s. record s { revoked_at = some at }) db.sessions;
  }
  pure (some (record session { revoked_at = some at }))

unfoldable pub revoke_session_by_token_hash : String → ℕ → Statement (Option SessionRecord)
unfolding revoke_found
revoke_session_by_token_hash hash at = do
  found ← gets (get_session_by_token_hash hash)
  revoke_found hash at found

unfoldable pub revoke_sessions_for_user : String → ℕ → Statement Unit
revoke_sessions_for_user user_id at = modify λ db. record db {
  sessions =
      update_where (λ s. s.user_id == user_id && not (is_some s.revoked_at))
        (λ s. record s { revoked_at = some at }) db.sessions;
}

unfoldable pub delete_expired_sessions : ℕ → Statement Unit
delete_expired_sessions before = modify λ db. record db {
  sessions = filter (λ s. not (leb s.expires_at before || is_some s.revoked_at)) db.sessions;
}

-- Boards and their members.

unfoldable pub get_board_by_id : String → AuthDatabase → Option BoardRecord
get_board_by_id id db = find? (λ b. b.id == id) db.boards

unfoldable pub insert_board : BoardRecord → Statement Unit
insert_board board = do
  db ← gets (λ db. db)
  ensure (not (board_exists board.id db)) (sqlite primary_key)
  ensure (user_exists board.owner_user_id db) (sqlite foreign_key)
  modify (λ db. record db { boards = db.boards ++ board ∷ [] })

unfoldable pub rename_board_row : String → String → ℕ → Statement Unit
rename_board_row id name at = modify λ db. record db {
  boards =
      update_where (λ b. b.id == id) (λ b. record b { name = name; updated_at = at }) db.boards;
}

unfoldable pub set_board_deleted : String → Option ℕ → ℕ → Statement Unit
set_board_deleted id deleted_at updated_at = modify λ db. record db {
  boards =
      update_where (λ b. b.id == id)
        (λ b. record b { deleted_at = deleted_at; updated_at = updated_at }) db.boards;
}

abbrev pub member_key : String → String → BoardMemberRecord → Bool
member_key board_id user_id m = m.board_id == board_id && m.user_id == user_id

unfoldable pub get_board_member : String → String → AuthDatabase → Option BoardMemberRecord
get_board_member board_id user_id db = find? (member_key board_id user_id) db.members

-- INSERT … ON CONFLICT (board_id, user_id) DO UPDATE SET role, updated_at
unfoldable pub upsert_rows : BoardMemberRecord → List BoardMemberRecord → List BoardMemberRecord
upsert_rows member [] = member ∷ []
upsert_rows member (m ∷ ms) =
    let rest = upsert_rows member ms in
    if member_key member.board_id member.user_id m
    then record m { role = member.role; updated_at = member.updated_at } ∷ ms
    else m ∷ rest

unfoldable pub upsert_board_member : BoardMemberRecord → Statement Unit
unfolding upsert_rows
upsert_board_member member = do
  db ← gets (λ db. db)
  ensure (board_exists member.board_id db && user_exists member.user_id db) (sqlite foreign_key)
  modify (λ db. record db { members = upsert_rows member db.members })

unfoldable pub remove_board_member : String → String → Statement Unit
remove_board_member board_id user_id =
    modify
      λ db. record db { members = filter (λ m. not (member_key board_id user_id m)) db.members }
