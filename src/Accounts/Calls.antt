-- ===== src/Accounts/Calls.antt =====
-- Every operation of `AuthService` that can change the account database, and the databases that a
-- sequence of them reaches. `login` is two operations, with others between them; its second half
-- takes any user that an earlier read may have found.
pub mod Atomic
pub mod Evolution
use collaborative_ai_whitebo.Prelude.{ℕ, String, Bool, Option, List}
use collaborative_ai_whitebo.Exec.{Exec}
use collaborative_ai_whitebo.Accounts.Types.{
  MemberRole, UserRecord, AuthUser, CurrentSession, SessionGrant, BoardMemberRecord, BoardSummary,
  InvitationSummary,
}
use collaborative_ai_whitebo.Accounts.Database.{AuthDatabase, Statement}
use collaborative_ai_whitebo.Accounts.Input.{Platform}
use collaborative_ai_whitebo.Accounts.Sessions.{
  Options, Entropy, RegisterInput, register_internal, login_check, login_commit,
  get_current_session, logout, update_settings, set_disabled,
}
use collaborative_ai_whitebo.Accounts.Boards.{
  create_board, adopt_legacy_boards, rename_board, delete_board, restore_board,
}
use collaborative_ai_whitebo.Accounts.Members.{set_board_member_role}
use collaborative_ai_whitebo.Accounts.Invitations.{
  InvitationInput, create_invitation, consume_invitation, revoke_invitation,
}

module _ (p : Platform) where
  pub data Call : (A : Type 0) → Statement A → Type 1 where
    register :
        (e : Entropy) (o : Options) (now : ℕ) (input : RegisterInput) (bootstrap_only : Bool)
        → Call SessionGrant (register_internal p e o now input bootstrap_only)
    check : (login password : String) → Call UserRecord (login_check p login password)
    commit :
        (e : Entropy) (o : Options) (now : ℕ) (user : UserRecord)
        → Call SessionGrant (login_commit p e o now user)
    current :
        (token : String) (at : ℕ) → Call (Option CurrentSession) (get_current_session p token at)
    leave : (draw : ℕ → String) (token : String) (at : ℕ) → Call Bool (logout p draw token at)
    settings :
        (draw : ℕ → String) (at : ℕ) (user_id json : String)
        → Call AuthUser (update_settings p draw at user_id json)
    disable :
        (draw : ℕ → String) (at : ℕ) (actor target : String) (disabled : Bool)
        → Call AuthUser (set_disabled p draw at actor target disabled)
    create :
        (draw : ℕ → String) (at : ℕ) (user_id name : String) (id agent : Option String)
        → Call BoardSummary (create_board p draw at user_id name id agent)
    adopt :
        (draw : ℕ → String) (at : ℕ) (user_id : String) (boards : List (String × Option String))
        → Call (List BoardSummary) (adopt_legacy_boards p draw at user_id boards)
    rename :
        (draw : ℕ → String) (at : ℕ) (user_id board_id name : String)
        → Call BoardSummary (rename_board p draw at user_id board_id name)
    delete_it :
        (draw : ℕ → String) (at : ℕ) (user_id board_id : String) (agent reason : Option String)
        → Call BoardSummary (delete_board draw at user_id board_id agent reason)
    restore :
        (draw : ℕ → String) (at : ℕ) (user_id board_id : String)
        → Call BoardSummary (restore_board draw at user_id board_id)
    set_role :
        (draw : ℕ → String) (at : ℕ) (actor board_id target : String) (role : Option MemberRole)
        → Call (Option BoardMemberRecord) (set_board_member_role draw at actor board_id target role)
    invite :
        (e : Entropy) (o : Options) (now : ℕ) (actor : String) (input : InvitationInput)
        → Call (InvitationSummary × String) (create_invitation p e o now actor input)
    consume :
        (draw : ℕ → String) (at : ℕ) (user_id token : String)
        → Call InvitationSummary (consume_invitation p draw at user_id token)
    revoke :
        (draw : ℕ → String) (at : ℕ) (actor token : String)
        → Call Bool (revoke_invitation p draw at actor token)

  pub data Reach (db : AuthDatabase) : AuthDatabase → Type 1 where
    here : Reach db db
    next :
        {t : AuthDatabase} {A : Type 0} {m : Statement A} → Reach db t → Call A m → Reach db (m t).1
