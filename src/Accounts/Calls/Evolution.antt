-- ===== src/Accounts/Calls/Evolution.antt =====
-- How the operations of `AuthService` (server/auth.ts) and sequences of them let the database evolve.
use collaborative_ai_whitebo.Prelude.{
  ℕ, suc, String, Bool, Option, none, some, List, [], ◌∷◌, ◌++◌, Assoc,
}
use collaborative_ai_whitebo.Exec.Keeps.{Keeps, Keeps-bind, Keeps-pure, Keeps-of_ReadsOnly}
use collaborative_ai_whitebo.Accounts.Types.{
  MemberRole, UserRecord, SessionRecord, BoardRecord, InvitationRecord, MetaValue,
}
use collaborative_ai_whitebo.Accounts.Database.{AuthDatabase, Statement}
use collaborative_ai_whitebo.Accounts.Input.{Platform}
use collaborative_ai_whitebo.Accounts.Guards.{
  assert_invitation_usable, grant_membership, apply_invited_membership, record_event, redeem_row,
  redeem,
}
use collaborative_ai_whitebo.Accounts.Sessions.{
  Options, Entropy, check_usable, use_invitation, register_row, register_internal, login_commit,
  open_session, check_session, get_current_session, logged_out, logout, update_settings,
  set_disabled,
}
use collaborative_ai_whitebo.Accounts.Boards.{
  record_by, create_rows, adopt_board, adopt_boards, create_board, adopt_legacy_boards,
  rename_board, delete_board, restore_board,
}
use collaborative_ai_whitebo.Accounts.Members.{set_member_rows, set_board_member_role}
use collaborative_ai_whitebo.Accounts.Invitations.{
  invitation_rows, create_invitation, consume_rows, consume_invitation, revoke_rows,
  revoke_invitation,
}
use collaborative_ai_whitebo.Accounts.Evolution.{Evolves, Evolves-refl, Evolves-trans}
use collaborative_ai_whitebo.Accounts.Evolution.Statements.{Evolves-IsPreorder, evolution_rules}
use collaborative_ai_whitebo.Accounts.Calls.{
  Call, register, check, commit, current, leave, settings, disable, create, adopt, rename,
  delete_it, restore, set_role, invite, consume, revoke, Reach, here, next,
}
use collaborative_ai_whitebo.Accounts.Calls.Atomic.{read_first_rules}

pub record_event-Evolves :
    (id type : String) (actor subject board : Option String) (m : List (String × MetaValue))
    (at : ℕ)
    → Keeps Evolves (record_event id type actor subject board m at)
unfolding record_event
record_event-Evolves id type actor subject board m at = search evolution_rules

pub assert_invitation_usable-Evolves :
    (i : InvitationRecord) (login : String) (at : ℕ)
    → Keeps Evolves (assert_invitation_usable i login at)
unfolding assert_invitation_usable
assert_invitation_usable-Evolves i login at = search evolution_rules depth 9

pub grant_membership-Evolves :
    (b : Option String) (r : Option MemberRole) (user_id : String) (at : ℕ)
    → Keeps Evolves (grant_membership b r user_id at)
unfolding grant_membership
grant_membership-Evolves none r user_id at = search evolution_rules
grant_membership-Evolves (some b) none user_id at = search evolution_rules
grant_membership-Evolves (some b) (some r) user_id at = search evolution_rules depth 9

pub apply_invited_membership-Evolves :
    (i : InvitationRecord) (user_id : String) (at : ℕ)
    → Keeps Evolves (apply_invited_membership i user_id at)
unfolding apply_invited_membership
apply_invited_membership-Evolves i user_id at =
    grant_membership-Evolves i.board_id i.role user_id at

pub redeem_row-Evolves :
    (consumed : Bool) (event_id : String) (at : ℕ) (user_id : String) (i : InvitationRecord)
    → Keeps Evolves (redeem_row event_id at user_id i consumed)
unfolding redeem_row
redeem_row-Evolves consumed event_id at user_id i =
    search (evolution_rules, record_event-Evolves, apply_invited_membership-Evolves) depth 9

pub redeem-Evolves :
    (event_id : String) (at : ℕ) (user_id : String) (i : InvitationRecord)
    → Keeps Evolves (redeem event_id at user_id i)
unfolding redeem
redeem-Evolves event_id at user_id i = search (evolution_rules, redeem_row-Evolves) depth 9

pub ruleset guard_rules = (
  evolution_rules, record_event-Evolves, assert_invitation_usable-Evolves,
  apply_invited_membership-Evolves, redeem-Evolves,
)

module _ (p : Platform) where
  check_usable-Evolves :
      (o : Option InvitationRecord) (login : String) (at : ℕ)
      → Keeps Evolves (check_usable p o login at)
  check_usable-Evolves none login at = search guard_rules
  check_usable-Evolves (some i) login at = search guard_rules

  use_invitation-Evolves :
      (o : Option InvitationRecord) (user_id event_id : String) (at : ℕ)
      → Keeps Evolves (use_invitation p o user_id event_id at)
  unfolding use_invitation
  use_invitation-Evolves none user_id event_id at = search guard_rules
  use_invitation-Evolves (some i) user_id event_id at = search guard_rules depth 12

  register_row-Evolves :
      (e : Entropy) (o : Options) (now : ℕ) (token : Option String) (bootstrap_only : Bool)
      (candidate : UserRecord) (session : SessionRecord)
      → Keeps Evolves (register_row p e o now token bootstrap_only candidate session)
  unfolding register_row
  register_row-Evolves e o now token bootstrap_only candidate session =
      search (guard_rules, check_usable-Evolves, use_invitation-Evolves) depth 20

  pub open_session-Evolves :
      (s : SessionRecord) (at : ℕ) (o : Option UserRecord) → Keeps Evolves (open_session p s at o)
  unfolding open_session
  open_session-Evolves s at none = search guard_rules
  open_session-Evolves s at (some u) = search guard_rules depth 9

  check_session-Evolves :
      (hash : String) (at : ℕ) (o : Option SessionRecord)
      → Keeps Evolves (check_session p hash at o)
  unfolding check_session
  check_session-Evolves hash at none = search guard_rules
  check_session-Evolves hash at (some s) = search (guard_rules, open_session-Evolves) depth 9

  pub logged_out-Evolves :
      (id : String) (at : ℕ) (o : Option SessionRecord) → Keeps Evolves (logged_out p id at o)
  unfolding logged_out
  logged_out-Evolves id at none = search guard_rules
  logged_out-Evolves id at (some s) = search guard_rules

  consume_rows-Evolves :
      (id : String) (at : ℕ) (user_id login : String) (i : InvitationRecord)
      → Keeps Evolves (consume_rows p id at user_id login i)
  unfolding consume_rows
  consume_rows-Evolves id at user_id login i = search guard_rules depth 12

  revoke_rows-Evolves :
      (id : String) (at : ℕ) (actor : String) (admin : Bool) (o : Option InvitationRecord)
      → Keeps Evolves (revoke_rows p id at actor admin o)
  unfolding revoke_rows
  revoke_rows-Evolves id at actor admin none = search guard_rules
  revoke_rows-Evolves id at actor admin (some i) = search guard_rules depth 12

record_by-Evolves :
    (id type : String) (agent : Option String) (user_id board_id : String)
    (fields extra : List (String × MetaValue)) (at : ℕ)
    → Keeps Evolves (record_by id type agent user_id board_id fields extra at)
unfolding record_by
record_by-Evolves id type none user_id board_id fields extra at = search guard_rules
record_by-Evolves id type (some a) user_id board_id fields extra at = search guard_rules

create_rows-Evolves :
    (draw : ℕ → String) (board : BoardRecord) (agent : Option String) (at : ℕ)
    → Keeps Evolves (create_rows draw board agent at)
unfolding create_rows
create_rows-Evolves draw board agent at = search (guard_rules, record_by-Evolves) depth 12

adopt_board-Evolves :
    (event_id user_id : String) (at : ℕ) (id name : String)
    → Keeps Evolves (adopt_board event_id user_id at id name)
unfolding adopt_board
adopt_board-Evolves event_id user_id at id name = search guard_rules depth 12

adopt_boards-Evolves :
    (draw : ℕ → String) (k : ℕ) (user_id : String) (at : ℕ) (boards : Assoc String)
    → Keeps Evolves (adopt_boards draw k user_id at boards)
unfolding adopt_boards
adopt_boards-Evolves draw k user_id at [] = search guard_rules
adopt_boards-Evolves draw k user_id at ((id, name) ∷ rest) =
    Keeps-bind Evolves-IsPreorder _ _ (adopt_board-Evolves (draw k) user_id at id name) λ adopted.
      Keeps-bind Evolves-IsPreorder _ _ (adopt_boards-Evolves draw (suc k) user_id at rest)
        λ more. Keeps-pure Evolves-IsPreorder (adopted ++ more)

set_member_rows-Evolves :
    (id : String) (at : ℕ) (actor board target : String) (r : Option MemberRole)
    → Keeps Evolves (set_member_rows id at actor board target r)
unfolding set_member_rows
set_member_rows-Evolves id at actor board target none = search guard_rules depth 9
set_member_rows-Evolves id at actor board target (some r) = search guard_rules depth 12

ruleset call_rules = (
  guard_rules, Keeps-of_ReadsOnly, read_first_rules, register_row-Evolves, check_session-Evolves,
  logged_out-Evolves, consume_rows-Evolves, revoke_rows-Evolves, record_by-Evolves,
  create_rows-Evolves, adopt_boards-Evolves, set_member_rows-Evolves,
)

module _ (p : Platform) where
  pub Call-Evolves : {A : Type 0} {m : Statement A} → Call p A m → Keeps Evolves m
  unfolding register_internal login_commit get_current_session logout update_settings set_disabled
      create_board adopt_legacy_boards rename_board delete_board restore_board set_board_member_role
      create_invitation consume_invitation revoke_invitation invitation_rows
  Call-Evolves (register e o now input bootstrap_only) = search call_rules depth 12
  Call-Evolves (check login password) = search call_rules
  Call-Evolves (commit e o now user) = search call_rules depth 9
  Call-Evolves (current token at) = search call_rules depth 9
  Call-Evolves (leave draw token at) = search call_rules depth 9
  Call-Evolves (settings draw at user_id json) = search call_rules depth 9
  Call-Evolves (disable draw at actor target disabled) = search call_rules depth 14
  Call-Evolves (create draw at user_id name id agent) = search call_rules depth 9
  Call-Evolves (adopt draw at user_id boards) = search call_rules depth 9
  Call-Evolves (rename draw at user_id board_id name) = search call_rules depth 9
  Call-Evolves (delete_it draw at user_id board_id agent reason) = search call_rules depth 9
  Call-Evolves (restore draw at user_id board_id) = search call_rules depth 9
  Call-Evolves (set_role draw at actor board_id target role) = search call_rules depth 9
  Call-Evolves (invite e o now actor input) = search call_rules depth 12
  Call-Evolves (consume draw at user_id token) = search call_rules depth 9
  Call-Evolves (revoke draw at actor token) = search call_rules depth 9

  -- After any sequence of operations every row of users, sessions, boards, invitations and audit events
  -- is still at its place: a user with its id, login and administrator flag, a session with its token,
  -- user and expiry, a board with its id and owner, an invitation with its token, board and role, an
  -- event unchanged; and a time of revocation or of consumption that is set keeps its value.
  pub Reach-Evolves : {s t : AuthDatabase} → Reach p s t → Evolves s t
  Reach-Evolves {s} here = Evolves-refl s
  Reach-Evolves {s} (next {t = t} {m = m} r c) =
      Evolves-trans s t (m t).1 (Reach-Evolves r) ((Call-Evolves c).at t)
