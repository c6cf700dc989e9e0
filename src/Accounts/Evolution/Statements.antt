-- ===== src/Accounts/Evolution/Statements.antt =====
-- How the single statements of server/auth-db.ts let the database evolve.
use collaborative_ai_whitebo.Prelude.{
  ℕ, String, ◌≡◌, refl, Bool, true, false, not, ◌&&◌, Option, none, some, [], ◌∷◌, ◌++◌, arith,
  is_some, ◌==◌, Grows-append, Grows-update, filter,
}
use collaborative_ai_whitebo.Exec.Keeps.{Keeps, IsPreorder, keeps_rules}
use collaborative_ai_whitebo.Accounts.Types.{
  UserRecord, SessionRecord, BoardRecord, BoardMemberRecord, InvitationRecord, AccountEvent,
}
use collaborative_ai_whitebo.Accounts.Database.{
  AuthDatabase, insert_user, set_last_login, set_user_settings, set_user_disabled, insert_session,
  touch_session, revoke_found, revoke_session_by_token_hash, revoke_sessions_for_user, insert_board,
  rename_board_row, set_board_deleted, upsert_board_member, upsert_rows, member_key,
  remove_board_member,
}
use collaborative_ai_whitebo.Accounts.Ledger.{
  insert_invitation, consumable, consume_invitation_row, revocable, revoke_invitation_row,
  insert_account_event,
}
use collaborative_ai_whitebo.Accounts.Evolution.{
  Sticks, UserStep, UserStep-refl, SessionStep, SessionStep-refl, BoardStep, BoardStep-refl,
  InvitationStep, InvitationStep-refl, Evolves, Evolves-refl, Evolves-trans, users_change,
  sessions_change, boards_change, invitations_change, events_change, members_change,
}

-- The steps of the rows that the UPDATEs change.
logged_in :
    (at : ℕ) (u : UserRecord) → UserStep u (record u { last_login_at = some at; updated_at = at })
logged_in at u = record { id = refl; login = refl; login_normalized = refl; admin = refl }

configured :
    (json : String) (at : ℕ) (u : UserRecord)
    → UserStep u (record u { settings_json = json; updated_at = at })
configured json at u = record { id = refl; login = refl; login_normalized = refl; admin = refl }

switched :
    (d : Option ℕ) (at : ℕ) (u : UserRecord)
    → UserStep u (record u { disabled_at = d; updated_at = at })
switched d at u = record { id = refl; login = refl; login_normalized = refl; admin = refl }

touched : (at : ℕ) (s : SessionRecord) → SessionStep s (record s { last_seen_at = at })
touched at s =
    let r = SessionStep-refl s in
    record { id = refl; token = refl; user = refl; expiry = refl; revoked = r.revoked }

live-Sticks : (o : Option ℕ) (at : ℕ) → is_some o ≡ false → Sticks o (some at)
live-Sticks none at h = tt
live-Sticks (some a) at h = cc

ended :
    (at : ℕ) (s : SessionRecord)
    → is_some s.revoked_at ≡ false
    → SessionStep s (record s { revoked_at = some at })
ended at s h = record {
  id = refl;
  token = refl;
  user = refl;
  expiry = refl;
  revoked = live-Sticks s.revoked_at at h;
}

renamed :
    (name : String) (at : ℕ) (b : BoardRecord)
    → BoardStep b (record b { name = name; updated_at = at })
renamed name at b = record { id = refl; owner = refl }

marked :
    (d : Option ℕ) (at : ℕ) (b : BoardRecord)
    → BoardStep b (record b { deleted_at = d; updated_at = at })
marked d at b = record { id = refl; owner = refl }

consumed_by :
    (at : ℕ) (user : String) (i : InvitationRecord)
    → is_some i.consumed_at ≡ false
    → InvitationStep i (record i { consumed_at = some at; consumed_by_user_id = some user })
consumed_by at user i h =
    let r = InvitationStep-refl i in
    record {
      id = refl;
      token = refl;
      board = refl;
      role = refl;
      consumed = live-Sticks i.consumed_at at h;
      revoked = r.revoked;
    }

withdrawn :
    (at : ℕ) (i : InvitationRecord)
    → is_some i.revoked_at ≡ false
    → InvitationStep i (record i { revoked_at = some at })
withdrawn at i h =
    let r = InvitationStep-refl i in
    record {
      id = refl;
      token = refl;
      board = refl;
      role = refl;
      consumed = r.consumed;
      revoked = live-Sticks i.revoked_at at h;
    }

unmarked_of_live : (b : Bool) (o : Option ℕ) → (b && not (is_some o)) ≡ true → is_some o ≡ false
unmarked_of_live b o h = ground arith

unmarked_of_consumable :
    (id : String) (at : ℕ) (i : InvitationRecord)
    → consumable id at i ≡ true
    → is_some i.consumed_at ≡ false
unmarked_of_consumable id at i h = ground arith

unmarked_of_revocable :
    (id : String) (i : InvitationRecord) → revocable id i ≡ true → is_some i.revoked_at ≡ false
unmarked_of_revocable id i h = ground arith

pub Evolves-IsPreorder : IsPreorder Evolves
Evolves-IsPreorder = record { same = Evolves-refl; trans = Evolves-trans }

pub insert_user-Evolves : (u : UserRecord) → Keeps Evolves (insert_user u)
unfolding insert_user
insert_user-Evolves u =
    let add = λ (s : AuthDatabase).
      users_change s (s.users ++ u ∷ []) (Grows-append UserStep UserStep-refl s.users (u ∷ [])) in
    search (keeps_rules, Evolves-IsPreorder, add) depth 9

pub set_last_login-Evolves : (user_id : String) (at : ℕ) → Keeps Evolves (set_last_login user_id at)
unfolding set_last_login
set_last_login-Evolves user_id at =
    let change = λ (db : AuthDatabase). users_change db _ (
      Grows-update UserStep UserStep-refl (λ u. u.id == user_id)
        (λ u. record u { last_login_at = some at; updated_at = at }) (λ u h. logged_in at u)
        db.users) in
    search (keeps_rules, change) depth 9

pub set_user_settings-Evolves :
    (user_id : String) (json : String) (at : ℕ) → Keeps Evolves (set_user_settings user_id json at)
unfolding set_user_settings
set_user_settings-Evolves user_id json at =
    let change = λ (db : AuthDatabase). users_change db _ (
      Grows-update UserStep UserStep-refl (λ u. u.id == user_id && not (is_some u.disabled_at))
        (λ u. record u { settings_json = json; updated_at = at }) (λ u h. configured json at u)
        db.users) in
    search (keeps_rules, change) depth 9

pub set_user_disabled-Evolves :
    (user_id : String) (d : Option ℕ) (at : ℕ) → Keeps Evolves (set_user_disabled user_id d at)
unfolding set_user_disabled
set_user_disabled-Evolves user_id d at =
    let change = λ (db : AuthDatabase). users_change db _ (
      Grows-update UserStep UserStep-refl (λ u. u.id == user_id)
        (λ u. record u { disabled_at = d; updated_at = at }) (λ u h. switched d at u) db.users) in
    search (keeps_rules, change) depth 9

pub insert_session-Evolves : (session : SessionRecord) → Keeps Evolves (insert_session session)
unfolding insert_session
insert_session-Evolves session =
    let add = λ (s : AuthDatabase).
      sessions_change s (s.sessions ++ session ∷ [])
        (Grows-append SessionStep SessionStep-refl s.sessions (session ∷ [])) in
    search (keeps_rules, Evolves-IsPreorder, add) depth 12

pub touch_session-Evolves : (id : String) (at : ℕ) → Keeps Evolves (touch_session id at)
unfolding touch_session
touch_session-Evolves id at =
    let change = λ (db : AuthDatabase). sessions_change db _ (
      Grows-update SessionStep SessionStep-refl (λ s. s.id == id && not (is_some s.revoked_at))
        (λ s. record s { last_seen_at = at }) (λ s h. touched at s) db.sessions) in
    search (keeps_rules, change) depth 9

revoke_found-Evolves :
    (hash : String) (at : ℕ) (o : Option SessionRecord) → Keeps Evolves (revoke_found hash at o)
unfolding revoke_found
revoke_found-Evolves hash at none = search (keeps_rules, Evolves-IsPreorder)
revoke_found-Evolves hash at (some session) =
    let change = λ (db : AuthDatabase). sessions_change db _ (
      Grows-update SessionStep SessionStep-refl
        (λ s. s.id == session.id && not (is_some s.revoked_at))
        (λ s. record s { revoked_at = some at })
        (λ s h. ended at s (unmarked_of_live (s.id == session.id) s.revoked_at h)) db.sessions) in
    search (keeps_rules, Evolves-IsPreorder, change) depth 9

pub revoke_session_by_token_hash-Evolves :
    (hash : String) (at : ℕ) → Keeps Evolves (revoke_session_by_token_hash hash at)
unfolding revoke_session_by_token_hash
revoke_session_by_token_hash-Evolves hash at =
    search (keeps_rules, Evolves-IsPreorder, revoke_found-Evolves)

pub revoke_sessions_for_user-Evolves :
    (user_id : String) (at : ℕ) → Keeps Evolves (revoke_sessions_for_user user_id at)
unfolding revoke_sessions_for_user
revoke_sessions_for_user-Evolves user_id at =
    let change = λ (db : AuthDatabase). sessions_change db _ (
      Grows-update SessionStep SessionStep-refl
        (λ s. s.user_id == user_id && not (is_some s.revoked_at))
        (λ s. record s { revoked_at = some at })
        (λ s h. ended at s (unmarked_of_live (s.user_id == user_id) s.revoked_at h)) db.sessions) in
    search (keeps_rules, change) depth 9

pub insert_board-Evolves : (board : BoardRecord) → Keeps Evolves (insert_board board)
unfolding insert_board
insert_board-Evolves board =
    let add = λ (s : AuthDatabase).
      boards_change s (s.boards ++ board ∷ [])
        (Grows-append BoardStep BoardStep-refl s.boards (board ∷ [])) in
    search (keeps_rules, Evolves-IsPreorder, add) depth 12

pub rename_board_row-Evolves :
    (id : String) (name : String) (at : ℕ) → Keeps Evolves (rename_board_row id name at)
unfolding rename_board_row
rename_board_row-Evolves id name at =
    let change = λ (db : AuthDatabase). boards_change db _ (
      Grows-update BoardStep BoardStep-refl (λ b. b.id == id)
        (λ b. record b { name = name; updated_at = at }) (λ b h. renamed name at b) db.boards) in
    search (keeps_rules, change) depth 9

pub set_board_deleted-Evolves :
    (id : String) (d : Option ℕ) (at : ℕ) → Keeps Evolves (set_board_deleted id d at)
unfolding set_board_deleted
set_board_deleted-Evolves id d at =
    let change = λ (db : AuthDatabase). boards_change db _ (
      Grows-update BoardStep BoardStep-refl (λ b. b.id == id)
        (λ b. record b { deleted_at = d; updated_at = at }) (λ b h. marked d at b) db.boards) in
    search (keeps_rules, change) depth 9

pub upsert_board_member-Evolves :
    (member : BoardMemberRecord) → Keeps Evolves (upsert_board_member member)
unfolding upsert_board_member
upsert_board_member-Evolves member =
    let change = λ (db : AuthDatabase). members_change db (upsert_rows member db.members) in
    search (keeps_rules, Evolves-IsPreorder, change) depth 9

pub remove_board_member-Evolves :
    (board_id : String) (user_id : String) → Keeps Evolves (remove_board_member board_id user_id)
unfolding remove_board_member
remove_board_member-Evolves board_id user_id =
    let change = λ (db : AuthDatabase).
      members_change db (filter (λ m. not (member_key board_id user_id m)) db.members) in
    search (keeps_rules, change) depth 9

pub insert_invitation-Evolves :
    (invitation : InvitationRecord) → Keeps Evolves (insert_invitation invitation)
unfolding insert_invitation
insert_invitation-Evolves invitation =
    let add = λ (s : AuthDatabase).
      invitations_change s (s.invitations ++ invitation ∷ [])
        (Grows-append InvitationStep InvitationStep-refl s.invitations (invitation ∷ [])) in
    search (keeps_rules, Evolves-IsPreorder, add) depth 12

pub consume_invitation_row-Evolves :
    (id : String) (user_id : String) (at : ℕ) → Keeps Evolves (consume_invitation_row id user_id at)
unfolding consume_invitation_row
consume_invitation_row-Evolves id user_id at =
    let change = λ (db : AuthDatabase). invitations_change db _ (
      Grows-update InvitationStep InvitationStep-refl (λ i. consumable id at i)
        (λ i. record i { consumed_at = some at; consumed_by_user_id = some user_id })
        (λ i h. consumed_by at user_id i (unmarked_of_consumable id at i h)) db.invitations) in
    search (keeps_rules, Evolves-IsPreorder, change) depth 9

pub revoke_invitation_row-Evolves :
    (id : String) (at : ℕ) → Keeps Evolves (revoke_invitation_row id at)
unfolding revoke_invitation_row
revoke_invitation_row-Evolves id at =
    let change = λ (db : AuthDatabase). invitations_change db _ (
      Grows-update InvitationStep InvitationStep-refl (λ i. revocable id i)
        (λ i. record i { revoked_at = some at })
        (λ i h. withdrawn at i (unmarked_of_revocable id i h)) db.invitations) in
    search (keeps_rules, Evolves-IsPreorder, change) depth 9

pub insert_account_event-Evolves :
    (event : AccountEvent) → Keeps Evolves (insert_account_event event)
unfolding insert_account_event
insert_account_event-Evolves event =
    let add = λ (s : AuthDatabase).
      events_change s (s.events ++ event ∷ [])
        (Grows-append ◌≡◌ (λ e. refl) s.events (event ∷ [])) in
    search (keeps_rules, Evolves-IsPreorder, add) depth 12

pub ruleset evolution_rules = (
  keeps_rules, Evolves-IsPreorder, insert_user-Evolves, set_last_login-Evolves,
  set_user_settings-Evolves, set_user_disabled-Evolves, insert_session-Evolves,
  touch_session-Evolves, revoke_session_by_token_hash-Evolves, revoke_sessions_for_user-Evolves,
  insert_board-Evolves, rename_board_row-Evolves, set_board_deleted-Evolves,
  upsert_board_member-Evolves, remove_board_member-Evolves, insert_invitation-Evolves,
  consume_invitation_row-Evolves, revoke_invitation_row-Evolves, insert_account_event-Evolves,
)
