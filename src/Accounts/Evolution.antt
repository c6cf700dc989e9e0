-- ===== src/Accounts/Evolution.antt =====
-- How the account database can change: the rows that stay, and the fields that keep their value.
pub mod Statements
use collaborative_ai_whitebo.Prelude.{
  ℕ, String, ◌≡◌, refl, ◌∙◌, Bool, true, false, not, ◌&&◌, Option, none, some, List, [], ◌∷◌, ◌++◌,
  arith, is_some, Grows, Grows-refl, Grows-trans, Grows-append, Grows-update, update_where,
}
use collaborative_ai_whitebo.Accounts.Types.{
  UserRecord, SessionRecord, BoardRecord, BoardMemberRecord, InvitationRecord, AccountEvent,
}
use collaborative_ai_whitebo.Accounts.Database.{AuthDatabase}

-- A mark, once set, keeps its value.
abbrev pub Sticks {ℓ} : {A : Type ℓ} → Option A → Option A → Type ℓ
Sticks none o = Unit
Sticks (some a) o = o ≡ some a

pub Sticks-refl {ℓ} : {A : Type ℓ} (o : Option A) → Sticks o o
Sticks-refl none = tt
Sticks-refl (some a) = refl

pub Sticks-trans {ℓ} :
    {A : Type ℓ} (o o' o'' : Option A) → Sticks o o' → Sticks o' o'' → Sticks o o''
Sticks-trans none o' o'' h k = tt
Sticks-trans (some a) (some b) o'' h k = k ∙ h
Sticks-trans (some a) none o'' h k = cc

pub record UserStep (u v : UserRecord) : Type 0 where
  pub id : u.id ≡ v.id
  pub login : u.login ≡ v.login
  pub login_normalized : u.login_normalized ≡ v.login_normalized
  pub admin : u.is_admin ≡ v.is_admin

pub record SessionStep (s t : SessionRecord) : Type 0 where
  pub id : s.id ≡ t.id
  pub token : s.token_hash ≡ t.token_hash
  pub user : s.user_id ≡ t.user_id
  pub expiry : s.expires_at ≡ t.expires_at
  pub revoked : Sticks s.revoked_at t.revoked_at

pub record BoardStep (b c : BoardRecord) : Type 0 where
  pub id : b.id ≡ c.id
  pub owner : b.owner_user_id ≡ c.owner_user_id

pub record InvitationStep (i j : InvitationRecord) : Type 0 where
  pub id : i.id ≡ j.id
  pub token : i.token_hash ≡ j.token_hash
  pub board : i.board_id ≡ j.board_id
  pub role : i.role ≡ j.role
  pub consumed : Sticks i.consumed_at j.consumed_at
  pub revoked : Sticks i.revoked_at j.revoked_at

UserStep-refl : (x : UserRecord) → UserStep x x
UserStep-refl x = record { id = refl; login = refl; login_normalized = refl; admin = refl }

UserStep-trans : (x y z : UserRecord) → UserStep x y → UserStep y z → UserStep x z
UserStep-trans x y z g h = record {
  id = g.id ∙ h.id;
  login = g.login ∙ h.login;
  login_normalized = g.login_normalized ∙ h.login_normalized;
  admin = g.admin ∙ h.admin;
}

SessionStep-refl : (x : SessionRecord) → SessionStep x x
SessionStep-refl x = record {
  id = refl;
  token = refl;
  user = refl;
  expiry = refl;
  revoked = Sticks-refl x.revoked_at;
}

SessionStep-trans : (x y z : SessionRecord) → SessionStep x y → SessionStep y z → SessionStep x z
SessionStep-trans x y z g h = record {
  id = g.id ∙ h.id;
  token = g.token ∙ h.token;
  user = g.user ∙ h.user;
  expiry = g.expiry ∙ h.expiry;
  revoked = Sticks-trans x.revoked_at y.revoked_at z.revoked_at g.revoked h.revoked;
}

BoardStep-refl : (x : BoardRecord) → BoardStep x x
BoardStep-refl x = record { id = refl; owner = refl }

BoardStep-trans : (x y z : BoardRecord) → BoardStep x y → BoardStep y z → BoardStep x z
BoardStep-trans x y z g h = record { id = g.id ∙ h.id; owner = g.owner ∙ h.owner }

InvitationStep-refl : (x : InvitationRecord) → InvitationStep x x
InvitationStep-refl x = record {
  id = refl;
  token = refl;
  board = refl;
  role = refl;
  consumed = Sticks-refl x.consumed_at;
  revoked = Sticks-refl x.revoked_at;
}

InvitationStep-trans :
    (x y z : InvitationRecord) → InvitationStep x y → InvitationStep y z → InvitationStep x z
InvitationStep-trans x y z g h = record {
  id = g.id ∙ h.id;
  token = g.token ∙ h.token;
  board = g.board ∙ h.board;
  role = g.role ∙ h.role;
  consumed = Sticks-trans x.consumed_at y.consumed_at z.consumed_at g.consumed h.consumed;
  revoked = Sticks-trans x.revoked_at y.revoked_at z.revoked_at g.revoked h.revoked;
}

-- From `s` to `t` no row goes away, and each keeps what its step relation says; audit events are
-- kept whole.
pub record Evolves (s t : AuthDatabase) : Type 0 where
  pub users : Grows UserStep s.users t.users
  pub sessions : Grows SessionStep s.sessions t.sessions
  pub boards : Grows BoardStep s.boards t.boards
  pub invitations : Grows InvitationStep s.invitations t.invitations
  pub events : Grows ◌≡◌ s.events t.events

pub Evolves-refl : (s : AuthDatabase) → Evolves s s
Evolves-refl s = record {
  users = Grows-refl UserStep UserStep-refl s.users;
  sessions = Grows-refl SessionStep SessionStep-refl s.sessions;
  boards = Grows-refl BoardStep BoardStep-refl s.boards;
  invitations = Grows-refl InvitationStep InvitationStep-refl s.invitations;
  events = Grows-refl ◌≡◌ (λ e. refl) s.events;
}

pub Evolves-trans : (s t u : AuthDatabase) → Evolves s t → Evolves t u → Evolves s u
Evolves-trans s t u g h = record {
  users = Grows-trans UserStep UserStep-trans s.users t.users u.users g.users h.users;
  sessions =
      Grows-trans SessionStep SessionStep-trans s.sessions t.sessions u.sessions g.sessions
        h.sessions;
  boards = Grows-trans BoardStep BoardStep-trans s.boards t.boards u.boards g.boards h.boards;
  invitations =
      Grows-trans InvitationStep InvitationStep-trans s.invitations t.invitations u.invitations
        g.invitations h.invitations;
  events = Grows-trans ◌≡◌ (λ x y z p q. p ∙ q) s.events t.events u.events g.events h.events;
}

-- One table changes, the others stay.
module _ (s : AuthDatabase) where
  pub users_change :
      (rows : List UserRecord) → Grows UserStep s.users rows → Evolves s (record s { users = rows })
  users_change rows g =
      let r = Evolves-refl s in
      record {
        users = g;
        sessions = r.sessions;
        boards = r.boards;
        invitations = r.invitations;
        events = r.events;
      }

  pub sessions_change :
      (rows : List SessionRecord)
      → Grows SessionStep s.sessions rows
      → Evolves s (record s { sessions = rows })
  sessions_change rows g =
      let r = Evolves-refl s in
      record {
        users = r.users;
        sessions = g;
        boards = r.boards;
        invitations = r.invitations;
        events = r.events;
      }

  pub boards_change :
      (rows : List BoardRecord)
      → Grows BoardStep s.boards rows
      → Evolves s (record s { boards = rows })
  boards_change rows g =
      let r = Evolves-refl s in
      record {
        users = r.users;
        sessions = r.sessions;
        boards = g;
        invitations = r.invitations;
        events = r.events;
      }

  pub invitations_change :
      (rows : List InvitationRecord)
      → Grows InvitationStep s.invitations rows
      → Evolves s (record s { invitations = rows })
  invitations_change rows g =
      let r = Evolves-refl s in
      record {
        users = r.users;
        sessions = r.sessions;
        boards = r.boards;
        invitations = g;
        events = r.events;
      }

  pub events_change :
      (rows : List AccountEvent) → Grows ◌≡◌ s.events rows → Evolves s (record s { events = rows })
  events_change rows g =
      let r = Evolves-refl s in
      record {
        users = r.users;
        sessions = r.sessions;
        boards = r.boards;
        invitations = r.invitations;
        events = g;
      }

  pub members_change : (rows : List BoardMemberRecord) → Evolves s (record s { members = rows })
  members_change rows =
      let r = Evolves-refl s in
      record {
        users = r.users;
        sessions = r.sessions;
        boards = r.boards;
        invitations = r.invitations;
        events = r.events;
      }
