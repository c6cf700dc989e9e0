-- ===== src/Accounts/Calls/Atomic.antt =====
-- Operations of `AuthService` (server/auth.ts) that throw.
use collaborative_ai_whitebo.Prelude.{
  Bool, Option, none, some, String, ℕ, List, [], ◌∷◌, Assoc, set,
}
use collaborative_ai_whitebo.Exec.Atomic.{
  ReadsOnly, IsAtomic, NeverThrows, IsAtomic-of_ReadsOnly, IsAtomic-of_NeverThrows, IsAtomic-if,
  IsAtomic-transaction, IsAtomic-rethrow, IsAtomic-read-bind, IsAtomic-then-bind, ReadsOnly-bind,
  ReadsOnly-lift, reads_rules, returns_rules,
}
use collaborative_ai_whitebo.Accounts.Types.{
  UserRecord, SessionRecord, BoardRecord, BoardMemberRecord,
}
use collaborative_ai_whitebo.Accounts.Database.{
  Statement, revoke_session_by_token_hash, revoke_found, touch_session,
}
use collaborative_ai_whitebo.Accounts.Input.{Platform}
use collaborative_ai_whitebo.Accounts.Guards.{
  active, require_active_user, found_board, require_board_member,
}
use collaborative_ai_whitebo.Accounts.Sessions.{
  register_internal, admitted, login_check, login_commit, open_session, check_session,
  get_current_session, logout, update_settings, set_disabled,
}
use collaborative_ai_whitebo.Accounts.Boards.{
  clean_legacy, create_board, adopt_legacy_boards, rename_board, delete_board, restore_board,
}
use collaborative_ai_whitebo.Accounts.Members.{set_board_member_role}
use collaborative_ai_whitebo.Accounts.Invitations.{
  checked_board, may_invite, normalized_invitee, invitation_rows, create_invitation,
  consume_invitation, revoke_invitation,
}
use collaborative_ai_whitebo.Accounts.Calls.{
  Call, register, check, commit, current, leave, settings, disable, create, adopt, rename,
  delete_it, restore, set_role, invite, consume, revoke,
}

pub active-ReadsOnly : (u : Option UserRecord) → ReadsOnly (active u)
unfolding active
active-ReadsOnly none = search reads_rules
active-ReadsOnly (some u) = search reads_rules

pub require_active_user-ReadsOnly : (id : String) → ReadsOnly (require_active_user id)
unfolding require_active_user
require_active_user-ReadsOnly id = search (reads_rules, active-ReadsOnly)

found_board-ReadsOnly : (o : Option (BoardRecord × BoardMemberRecord)) → ReadsOnly (found_board o)
unfolding found_board
found_board-ReadsOnly none = search reads_rules
found_board-ReadsOnly (some b) = search reads_rules

pub require_board_member-ReadsOnly :
    (user_id board_id : String) (deleted : Bool)
    → ReadsOnly (require_board_member user_id board_id deleted)
unfolding require_board_member
require_board_member-ReadsOnly user_id board_id deleted =
    search (reads_rules, require_active_user-ReadsOnly, found_board-ReadsOnly) depth 9

admitted-ReadsOnly :
    (p : Platform) (o : Option UserRecord) (password : String) → ReadsOnly (admitted p o password)
unfolding admitted
admitted-ReadsOnly p none password = search reads_rules
admitted-ReadsOnly p (some u) password = search reads_rules

pub login_check-ReadsOnly :
    (p : Platform) (login password : String) → ReadsOnly (login_check p login password)
unfolding login_check
login_check-ReadsOnly p login password = search (reads_rules, admitted-ReadsOnly) depth 7

pub clean_legacy-ReadsOnly :
    (p : Platform) (boards : List (String × Option String)) (cleaned : Assoc String)
    → ReadsOnly (clean_legacy p boards cleaned)
unfolding clean_legacy
clean_legacy-ReadsOnly p [] cleaned = search reads_rules
clean_legacy-ReadsOnly p ((id, name) ∷ rest) cleaned =
    ReadsOnly-bind _ _ (ReadsOnly-lift _) λ i.
      ReadsOnly-bind _ _ (ReadsOnly-lift _) λ n. clean_legacy-ReadsOnly p rest (set i n cleaned)

pub checked_board-ReadsOnly : (o : Option String) → ReadsOnly (checked_board o)
unfolding checked_board
checked_board-ReadsOnly none = search reads_rules
checked_board-ReadsOnly (some b) = search reads_rules

pub may_invite-ReadsOnly :
    (actor : String) (admin : Bool) (o : Option String) → ReadsOnly (may_invite actor admin o)
unfolding may_invite
may_invite-ReadsOnly actor admin none = search reads_rules
may_invite-ReadsOnly actor admin (some b) = search (reads_rules, require_board_member-ReadsOnly)

pub normalized_invitee-ReadsOnly :
    (p : Platform) (o : Option String) → ReadsOnly (normalized_invitee p o)
unfolding normalized_invitee
normalized_invitee-ReadsOnly p none = search reads_rules
normalized_invitee-ReadsOnly p (some b) = search reads_rules

revoke_found-NeverThrows :
    (hash : String) (at : ℕ) (o : Option SessionRecord) → NeverThrows (revoke_found hash at o)
unfolding revoke_found
revoke_found-NeverThrows hash at none = search returns_rules
revoke_found-NeverThrows hash at (some s) = search returns_rules depth 7

touch_session-NeverThrows : (id : String) (at : ℕ) → NeverThrows (touch_session id at)
unfolding touch_session
touch_session-NeverThrows id at = search returns_rules

revoke_session-NeverThrows :
    (hash : String) (at : ℕ) → NeverThrows (revoke_session_by_token_hash hash at)
unfolding revoke_session_by_token_hash
revoke_session-NeverThrows hash at = search (returns_rules, revoke_found-NeverThrows)

open_session-NeverThrows :
    (p : Platform) (s : SessionRecord) (at : ℕ) (o : Option UserRecord)
    → NeverThrows (open_session p s at o)
unfolding open_session
open_session-NeverThrows p s at none = search returns_rules
open_session-NeverThrows p s at (some u) = search (returns_rules, touch_session-NeverThrows) depth 7

check_session-NeverThrows :
    (p : Platform) (hash : String) (at : ℕ) (o : Option SessionRecord)
    → NeverThrows (check_session p hash at o)
unfolding check_session
check_session-NeverThrows p hash at none = search returns_rules
check_session-NeverThrows p hash at (some s) =
    search (returns_rules, revoke_session-NeverThrows, open_session-NeverThrows) depth 9

get_current_session-NeverThrows :
    (p : Platform) (token : String) (at : ℕ) → NeverThrows (get_current_session p token at)
unfolding get_current_session
get_current_session-NeverThrows p token at =
    search (returns_rules, check_session-NeverThrows) depth 7

ruleset atomic_rules = (
  IsAtomic-if, IsAtomic-transaction, IsAtomic-rethrow, IsAtomic-read-bind, IsAtomic-of_ReadsOnly,
  reads_rules, require_active_user-ReadsOnly, require_board_member-ReadsOnly,
  checked_board-ReadsOnly, may_invite-ReadsOnly, normalized_invitee-ReadsOnly,
  clean_legacy-ReadsOnly,
)

-- For an operation that ends in a transaction and then returns a value made before it.
ruleset returning_rules = (atomic_rules, IsAtomic-then-bind, returns_rules)

module _ (p : Platform) where
  -- Whatever state-changing operation of `AuthService` throws, an error of the service or of a
  -- constraint, the database is left as it was before the call.
  pub Call-IsAtomic : {A : Type 0} {m : Statement A} → Call p A m → IsAtomic m
  unfolding register_internal login_commit logout update_settings set_disabled create_board
      adopt_legacy_boards rename_board delete_board restore_board set_board_member_role
      create_invitation consume_invitation revoke_invitation invitation_rows
  Call-IsAtomic (register e o now input bootstrap_only) = search atomic_rules depth 12
  Call-IsAtomic (check login password) =
      IsAtomic-of_ReadsOnly _ (login_check-ReadsOnly p login password)
  Call-IsAtomic (commit e o now user) = search returning_rules depth 9
  Call-IsAtomic (current token at) =
      IsAtomic-of_NeverThrows _ (get_current_session-NeverThrows p token at)
  Call-IsAtomic (leave draw token at) = search atomic_rules
  Call-IsAtomic (settings draw at user_id json) = search returning_rules depth 9
  Call-IsAtomic (disable draw at actor target disabled) = search returning_rules depth 12
  Call-IsAtomic (create draw at user_id name id agent) = search atomic_rules depth 9
  Call-IsAtomic (adopt draw at user_id boards) = search atomic_rules depth 9
  Call-IsAtomic (rename draw at user_id board_id name) = search returning_rules depth 9
  Call-IsAtomic (delete_it draw at user_id board_id agent reason) = search returning_rules depth 9
  Call-IsAtomic (restore draw at user_id board_id) = search returning_rules depth 9
  Call-IsAtomic (set_role draw at actor board_id target role) = search atomic_rules depth 9
  Call-IsAtomic (invite e o now actor input) = search returning_rules depth 12
  Call-IsAtomic (consume draw at user_id token) = search atomic_rules depth 9
  Call-IsAtomic (revoke draw at actor token) = search atomic_rules depth 9

pub ruleset read_first_rules = (
  require_active_user-ReadsOnly, require_board_member-ReadsOnly, checked_board-ReadsOnly,
  may_invite-ReadsOnly, normalized_invitee-ReadsOnly, clean_legacy-ReadsOnly, login_check-ReadsOnly,
)
