-- ===== src/Accounts/Ownership/Rows.antt =====
-- Owners and roles as lookups, and what the statements on boards and members do to them.
use collaborative_ai_whitebo.Prelude.{
  String, ◌≡◌, refl, ◌∙◌, ap, Bool, not, ◌&&◌, Option, none, some, List, [], ◌∷◌, ◌++◌, arith, ◌↔◌,
  or_else, if◌then◌else◌, ◌==◌, eq_iff, find?, filter, update_where, find?-append, find?-update,
  changed?,
}
use collaborative_ai_whitebo.Accounts.Types.{BoardRole, owner, BoardRecord, BoardMemberRecord}
use collaborative_ai_whitebo.Accounts.Database.{AuthDatabase, member_key, upsert_rows}

abbrev pub owner? : Option BoardRecord → Option String
owner? none = none
owner? (some b) = some b.owner_user_id

abbrev pub role? : Option BoardMemberRecord → Option BoardRole
role? none = none
role? (some m) = some m.role

unfoldable pub owner_in : String → List BoardRecord → Option String
owner_in id rows = owner? (find? (λ b. b.id == id) rows)

unfoldable pub role_in : String → String → List BoardMemberRecord → Option BoardRole
role_in board_id user_id rows = role? (find? (member_key board_id user_id) rows)

pub owner_in-append :
    (id : String) (b : BoardRecord) (rows : List BoardRecord)
    → owner_in id (rows ++ b ∷ [])
      ≡ or_else (owner_in id rows) (if b.id == id then some b.owner_user_id else none)
unfolding owner_in
owner_in-append id b rows = ground (arith, find?-append (λ (x : BoardRecord). x.id == id) b rows)

-- An UPDATE of boards that leaves ids and owners alone leaves every owner alone.
pub owner_in-update :
    (id : String) (p : BoardRecord → Bool) (f : BoardRecord → BoardRecord)
    → ((b : BoardRecord) → (f b).id ≡ b.id)
    → ((b : BoardRecord) → (f b).owner_user_id ≡ b.owner_user_id)
    → (rows : List BoardRecord) → owner_in id (update_where p f rows) ≡ owner_in id rows
unfolding owner_in
owner_in-update id p f i o rows =
    ap owner? (find?-update (λ b. b.id == id) p f (λ b. ap (λ k. k == id) (i b)) rows)
    ∙ same (find? (λ b. b.id == id) rows)
  where
    same : (r : Option BoardRecord) → owner? (changed? p f r) ≡ owner? r
    same none = refl
    same (some b) = ground (arith, o b)

pub role_in-upsert :
    (b u : String) (m : BoardMemberRecord) (rows : List BoardMemberRecord)
    → role_in b u (upsert_rows m rows)
      ≡ (if m.board_id == b && m.user_id == u then some m.role else role_in b u rows)
unfolding role_in upsert_rows
role_in-upsert b u m [] = ground arith
role_in-upsert b u m (x ∷ rows) = ground (
  arith,
  role_in-upsert b u m rows,
  eq_iff x.board_id m.board_id,
  eq_iff x.user_id m.user_id,
  eq_iff x.board_id b,
  eq_iff x.user_id u,
  eq_iff m.board_id b,
  eq_iff m.user_id u,
)

pub role_in-remove :
    (b u board_id user_id : String) (rows : List BoardMemberRecord)
    → role_in b u (filter (λ m. not (member_key board_id user_id m)) rows)
      ≡ (if board_id == b && user_id == u then none else role_in b u rows)
unfolding role_in
role_in-remove b u board_id user_id [] = ground arith
role_in-remove b u board_id user_id (x ∷ rows) = ground (
  arith,
  role_in-remove b u board_id user_id rows,
  eq_iff x.board_id board_id,
  eq_iff x.user_id user_id,
  eq_iff x.board_id b,
  eq_iff x.user_id u,
  eq_iff board_id b,
  eq_iff user_id u,
)

-- The owner of each board is the one user whose membership of it says `owner`.
pub record IsOwned (db : AuthDatabase) : Type 0 where
  pub owners :
      (board_id user_id : String)
      → (owner_in board_id db.boards ≡ some user_id)
        ↔ (role_in board_id user_id db.members ≡ some owner)
