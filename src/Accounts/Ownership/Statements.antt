-- ===== src/Accounts/Ownership/Statements.antt =====
-- Which changes of the rows keep the owner columns and the `owner` memberships in agreement.
use mathlib.Core.Path.{subst}
use mathlib.Core.Bool.{false≢true}
use collaborative_ai_whitebo.Prelude.{
  ℕ, String, ◌≡◌, ◌≢◌, refl, ◌∙◌, ap, Bool, true, false, ◌&&◌, Option, none, some, List, [], ◌∷◌,
  ◌++◌, arith, ◌↔◌, ◌⊎◌, inl, inr, or_else, Bool-cases, if◌then◌else◌, ◌==◌, eq_iff,
}
use collaborative_ai_whitebo.Exec.Keeps.{IsPreorder}
use collaborative_ai_whitebo.Accounts.Types.{
  BoardRole, MemberRole, to_board_role, owner, BoardRecord, BoardMemberRecord,
}
use collaborative_ai_whitebo.Accounts.Database.{
  AuthDatabase, get_board_by_id, get_board_member, upsert_rows,
}
use collaborative_ai_whitebo.Accounts.Boards.{owner_row}
use collaborative_ai_whitebo.Accounts.Guards.{outranks}
use collaborative_ai_whitebo.Accounts.Ownership.Rows.{
  owner?, role?, owner_in, role_in, owner_in-append, role_in-upsert, IsOwned,
}

pub record StaysOwned (s t : AuthDatabase) : Type 0 where
  pub carry : IsOwned s → IsOwned t

pub StaysOwned-IsPreorder : IsPreorder StaysOwned
StaysOwned-IsPreorder = record {
  same = λ s. record { carry = λ h. h };
  trans = λ s t u g k. record { carry = λ h. k.carry (g.carry h) };
}

-- What leaves the lookups alone leaves the agreement alone.
pub StaysOwned-of_same :
    (s t : AuthDatabase)
    → ((b : String) → owner_in b t.boards ≡ owner_in b s.boards)
    → ((b u : String) → role_in b u t.members ≡ role_in b u s.members)
    → StaysOwned s t
StaysOwned-of_same s t o r = record {
  carry = λ h. record { owners = λ b u. rw (o b, r b u) (h.owners b u) };
}

-- A membership that is not its board's owner may get any role but `owner`, or go.
pub other_member :
    (s : AuthDatabase) (b u : String) (x : Option BoardRole) (rows : List BoardMemberRecord)
    → IsOwned s
    → owner_in b s.boards ≢ some u
    → x ≢ some owner
    → ((b' u' : String)
        → role_in b' u' rows ≡ (if b == b' && u == u' then x else role_in b' u' s.members))
    → IsOwned (record s { members = rows })
other_member s b u x rows h not_owner not_role rule = record {
  owners = λ b' u'. rw (rule b' u') (go b' u' (Bool-cases (b == b')) (Bool-cases (u == u')));
}
  where
    go :
        (b' u' : String)
        → ((b == b') ≡ true) ⊎ ((b == b') ≡ false)
        → ((u == u') ≡ true) ⊎ ((u == u') ≡ false)
        → (owner_in b' s.boards ≡ some u')
          ↔ ((if b == b' && u == u' then x else role_in b' u' s.members) ≡ some owner)
    go b' u' (inl p) (inl q) =
        rw (p, q)
          (
            (λ e. absurd (not_owner (rw ((eq_iff b b').0 p, (eq_iff u u').0 q) e))),
            (λ e. absurd (not_role e)),
          )
    go b' u' (inl p) (inr q) = rw (p, q) (h.owners b' u')
    go b' u' (inr p) q = rw p (h.owners b' u')

fresh_owner :
    (id b : String) (s : AuthDatabase)
    → get_board_by_id id s ≡ none
    → (id == b) ≡ true
    → owner_in b s.boards ≡ none
unfolding get_board_by_id owner_in
fresh_owner id b s fresh e =
    subst (λ k. owner_in k s.boards ≡ none) ((eq_iff id b).0 e) (ap owner? fresh)

owned_if_new :
    (same_board same_user : Bool) (o : Option String) (r : Option BoardRole) (owner_id u : String)
    → (same_board ≡ true → o ≡ none)
    → ((same_user ≡ true) ↔ (owner_id ≡ u))
    → ((o ≡ some u) ↔ (r ≡ some owner))
    → (or_else o (if same_board then some owner_id else none) ≡ some u)
      ↔ ((if same_board && same_user then some owner else r) ≡ some owner)
owned_if_new true true o r owner_id u free same h =
    (λ e. refl, λ e. rw (free refl) (ap some (same.0 refl)))
owned_if_new true false o r owner_id u free same h =
    (λ e. absurd (false≢true (same.1 (cc (rw (free refl) at e)))), λ e. cc (free refl, h.1 e))
owned_if_new false b none r owner_id u free same h = h
owned_if_new false b (some x) r owner_id u free same h = h

-- A new board comes with its owner's membership.
pub new_board :
    (s : AuthDatabase) (board : BoardRecord) (at : ℕ)
    → get_board_by_id board.id s ≡ none
    → IsOwned s
    → IsOwned (record s {
      boards = s.boards ++ board ∷ [];
      members = upsert_rows (owner_row board.id board.owner_user_id at) s.members;
    })
new_board s board at fresh h = record {
  owners = λ b u.
      rw
        (
          owner_in-append b board s.boards,
          role_in-upsert b u (owner_row board.id board.owner_user_id at) s.members,
        )
        (owned_if_new (board.id == b) (board.owner_user_id == u) (owner_in b s.boards)
          (role_in b u s.members) board.owner_user_id u (fresh_owner board.id b s fresh)
          (eq_iff board.owner_user_id u) (h.owners b u));
}

pub to_board_role-ne-owner : (r : MemberRole) → some (to_board_role r) ≢ some owner
to_board_role-ne-owner MemberRole.editor = cc
to_board_role-ne-owner MemberRole.viewer = cc

role_at : (s : AuthDatabase) (b u : String) → role? (get_board_member b u s) ≡ role_in b u s.members
unfolding get_board_member role_in
role_at s b u = refl

-- A member whose role does not outrank what is offered does not own the board.
pub not_owner_of_outranked :
    (s : AuthDatabase) (b u : String) (r : MemberRole)
    → IsOwned s
    → outranks (get_board_member b u s) (to_board_role r) ≡ false
    → owner_in b s.boards ≢ some u
not_owner_of_outranked s b u r h low e =
    go (get_board_member b u s) r low (role_at s b u ∙ (h.owners b u).0 e)
  where
    go :
        (o : Option BoardMemberRecord) (r : MemberRole)
        → outranks o (to_board_role r) ≡ false
        → role? o ≢ some owner
    go none r low e = cc
    go (some m) MemberRole.editor low e = ground arith
    go (some m) MemberRole.viewer low e = ground arith
