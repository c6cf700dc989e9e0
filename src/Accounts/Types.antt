-- ===== src/Accounts/Types.antt =====
-- The record types of server/auth-db.ts and server/auth.ts. An ISO timestamp is the number of
-- milliseconds that it stands for: the texts that `toISOString` gives compare as those numbers do.
use collaborative_ai_whitebo.Prelude.{ℕ, String, Bool, Option, List}

pub data BoardRole : Type 0 where
  owner editor viewer : BoardRole

-- `Exclude<BoardRole, 'owner'>`: what an invitation or a role change can grant.
pub data MemberRole : Type 0 where
  editor viewer : MemberRole

abbrev pub to_board_role : MemberRole → BoardRole
to_board_role MemberRole.editor = BoardRole.editor
to_board_role MemberRole.viewer = BoardRole.viewer

pub record UserRecord : Type 0 where
  pub id : String
  pub login : String
  pub login_normalized : String
  pub display_name : String
  pub password_hash : String
  pub settings_json : String
  pub is_admin : Bool
  pub created_at : ℕ
  pub updated_at : ℕ
  pub last_login_at : Option ℕ
  pub disabled_at : Option ℕ

pub record SessionRecord : Type 0 where
  pub id : String
  pub token_hash : String
  pub user_id : String
  pub created_at : ℕ
  pub expires_at : ℕ
  pub last_seen_at : ℕ
  pub revoked_at : Option ℕ

pub record BoardRecord : Type 0 where
  pub id : String
  pub name : String
  pub owner_user_id : String
  pub created_at : ℕ
  pub updated_at : ℕ
  pub deleted_at : Option ℕ

pub record BoardMemberRecord : Type 0 where
  pub board_id : String
  pub user_id : String
  pub role : BoardRole
  pub created_at : ℕ
  pub updated_at : ℕ

pub record InvitationRecord : Type 0 where
  pub id : String
  pub token_hash : String
  pub created_by_user_id : String
  pub board_id : Option String
  pub role : Option MemberRole
  pub invited_login_normalized : Option String
  pub created_at : ℕ
  pub expires_at : ℕ
  pub consumed_at : Option ℕ
  pub consumed_by_user_id : Option String
  pub revoked_at : Option ℕ

-- A value of an audit event's metadata.
pub data MetaValue : Type 0 where
  null : MetaValue
  text : String → MetaValue
  time : ℕ → MetaValue
  member_role : MemberRole → MetaValue

-- `AccountEventRecord` without the row number, which is the event's place in the table.
pub record AccountEvent : Type 0 where
  pub event_id : String
  pub type : String
  pub actor_user_id : Option String
  pub subject_user_id : Option String
  pub board_id : Option String
  pub metadata : List (String × MetaValue)
  pub created_at : ℕ

pub record BoardAsset : Type 0 where
  pub upload_id : String
  pub board_id : String

pub data AuthErrorCode : Type 0 where
  account_disabled board_exists board_not_found bootstrap_complete forbidden : AuthErrorCode
  invalid_credentials invalid_input invalid_invitation invitation_required login_taken :
      AuthErrorCode
  user_not_found : AuthErrorCode

-- The constraint of the schema that SQLite reports.
pub data Constraint : Type 0 where
  primary_key login_unique token_unique event_unique foreign_key check_failed : Constraint

-- What an operation throws: an `AuthError` with its HTTP status, or an error of SQLite.
pub data AuthFailure : Type 0 where
  auth : AuthErrorCode → ℕ → AuthFailure
  sqlite : Constraint → AuthFailure

-- What `JSON.parse` gives of a text that it accepts: an object, as its text, or another value.
pub data Parsed : Type 0 where
  json_object : String → Parsed
  json_other : Parsed

-- What `publicUser` and the other `public…` functions let a caller see; `settings` is the text of the
-- object.
pub record AuthUser : Type 0 where
  pub id : String
  pub login : String
  pub display_name : String
  pub settings : String
  pub is_admin : Bool
  pub created_at : ℕ
  pub updated_at : ℕ
  pub last_login_at : Option ℕ
  pub disabled_at : Option ℕ

pub record AuthSession : Type 0 where
  pub id : String
  pub created_at : ℕ
  pub expires_at : ℕ
  pub last_seen_at : ℕ

pub record CurrentSession : Type 0 where
  pub user : AuthUser
  pub session : AuthSession

pub record SessionGrant : Type 0 where
  pub user : AuthUser
  pub session : AuthSession
  pub token : String

pub record BoardSummary : Type 0 where
  pub id : String
  pub name : String
  pub owner_user_id : String
  pub role : BoardRole
  pub created_at : ℕ
  pub updated_at : ℕ
  pub deleted_at : Option ℕ

pub record InvitationSummary : Type 0 where
  pub id : String
  pub board_id : Option String
  pub role : Option MemberRole
  pub invited_login : Option String
  pub created_at : ℕ
  pub expires_at : ℕ
  pub consumed_at : Option ℕ
  pub revoked_at : Option ℕ

abbrev pub public_session : SessionRecord → AuthSession
public_session s = record {
  id = s.id;
  created_at = s.created_at;
  expires_at = s.expires_at;
  last_seen_at = s.last_seen_at;
}

abbrev pub public_board : BoardRecord → BoardRole → BoardSummary
public_board b r = record {
  id = b.id;
  name = b.name;
  owner_user_id = b.owner_user_id;
  role = r;
  created_at = b.created_at;
  updated_at = b.updated_at;
  deleted_at = b.deleted_at;
}

abbrev pub public_invitation : InvitationRecord → InvitationSummary
public_invitation i = record {
  id = i.id;
  board_id = i.board_id;
  role = i.role;
  invited_login = i.invited_login_normalized;
  created_at = i.created_at;
  expires_at = i.expires_at;
  consumed_at = i.consumed_at;
  revoked_at = i.revoked_at;
}
