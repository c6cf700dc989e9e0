-- ===== src/Accounts/SingleUse.antt =====
-- Spent invitations (server/auth.ts, `consumeInvitation`): what consumption or revocation leaves behind.
use collaborative_ai_whitebo.Prelude.{eq_iff, find?-update}
use collaborative_ai_whitebo.Prelude.{
  ℕ, String, ◌≡◌, ◌≢◌, refl, sym, ◌∙◌, ap, Bool, true, false, ◌⊎◌, inl, inr, Option, none, some,
  arith, is_some, ◌==◌, find?-Grows,
}
use collaborative_ai_whitebo.Exec.{ok, modify, pure}
use collaborative_ai_whitebo.Exec.Inversion.{
  Splits-bind, read-bind, transaction-eq-ok, ensure-eq-ok, or_throw-eq-ok, gets-eq-ok,
}
use collaborative_ai_whitebo.Exec.Atomic.{
  ReadsOnly-ensure, ReadsOnly-or_throw, ReadsOnly-gets, ReadsOnly, reads_rules,
}
use collaborative_ai_whitebo.Accounts.Types.{InvitationRecord, InvitationSummary}
use collaborative_ai_whitebo.Accounts.Database.{AuthDatabase}
use collaborative_ai_whitebo.Accounts.Ledger.{
  consumable, get_invitation_by_token_hash, consume_invitation_row,
}
use collaborative_ai_whitebo.Accounts.Evolution.{Sticks, InvitationStep, Evolves}
use collaborative_ai_whitebo.Accounts.Guards.{usable, assert_invitation_usable, redeem}
use collaborative_ai_whitebo.Accounts.Input.{Platform}
use collaborative_ai_whitebo.Accounts.Invitations.{consume_rows, consume_invitation}
use collaborative_ai_whitebo.Accounts.Calls.Evolution.{redeem_row-Evolves, Reach-Evolves}
use collaborative_ai_whitebo.Accounts.Calls.{Reach}
use mathlib.Core.Path.{subst}
use collaborative_ai_whitebo.Accounts.Calls.Atomic.{require_active_user-ReadsOnly}

-- The row of the token says that it was consumed or revoked.
pub record IsSpent (hash : String) (db : AuthDatabase) : Type 0 where
  pub row : InvitationRecord
  pub found : get_invitation_by_token_hash hash db ≡ some row
  pub marked : (is_some row.consumed_at ≡ true) ⊎ (is_some row.revoked_at ≡ true)

same_key :
    (hash : String) (i j : InvitationRecord)
    → InvitationStep i j
    → (i.token_hash == hash) ≡ (j.token_hash == hash)
same_key hash i j s = ap (λ t. t == hash) s.token

Sticks-is_some : (o o' : Option ℕ) → Sticks o o' → is_some o ≡ true → is_some o' ≡ true
Sticks-is_some none o' s h = cc
Sticks-is_some (some a) (some b) s h = refl
Sticks-is_some (some a) none s h = cc

still_marked :
    (i j : InvitationRecord)
    → InvitationStep i j
    → (is_some i.consumed_at ≡ true) ⊎ (is_some i.revoked_at ≡ true)
    → (is_some j.consumed_at ≡ true) ⊎ (is_some j.revoked_at ≡ true)
still_marked i j s (inl h) = inl (Sticks-is_some i.consumed_at j.consumed_at s.consumed h)
still_marked i j s (inr h) = inr (Sticks-is_some i.revoked_at j.revoked_at s.revoked h)

pub Evolves-IsSpent :
    (hash : String) (s t : AuthDatabase) → Evolves s t → IsSpent hash s → IsSpent hash t
unfolding get_invitation_by_token_hash
Evolves-IsSpent hash s t e m =
    let (j, found, step) =
      find?-Grows InvitationStep (λ i. i.token_hash == hash) (same_key hash) s.invitations
        t.invitations m.row e.invitations m.found in
    record { row = j; found = found; marked = still_marked m.row j step m.marked }

-- A spent invitation is not usable.
pub usable-IsSpent :
    (i : InvitationRecord) (login : String) (at : ℕ)
    → (is_some i.consumed_at ≡ true) ⊎ (is_some i.revoked_at ≡ true)
    → usable i login at ≡ false
usable-IsSpent i login at h = ground arith

-- `consumeInvitation`'s UPDATE spends the row of the token.
consume_row-IsSpent :
    (hash id user : String) (at : ℕ) (db : AuthDatabase) (i : InvitationRecord)
    → get_invitation_by_token_hash hash db ≡ some i
    → consumable id at i ≡ true
    → (b : Bool) → (consume_invitation_row id user at db).0 ≡ ok b
    → IsSpent hash (consume_invitation_row id user at db).1
unfolding get_invitation_by_token_hash consume_invitation_row modify pure
consume_row-IsSpent hash id user at db i found c b h =
    let changed = read-bind _ _ db (ReadsOnly-gets _) h in
    let known = read-bind _ _ db (ReadsOnly-gets _) changed.second in
    let valid = read-bind _ _ db (ReadsOnly-ensure _ _) known.second in
    let written = Splits-bind _ _ db valid.second in
    let final = changed.final ∙ known.final ∙ valid.final ∙ written.final in
    let mark = λ (j : InvitationRecord). record j {
      consumed_at = some at;
      consumed_by_user_id = some user;
    } in
    subst (IsSpent hash) (sym final) (record {
      row = mark i;
      found =
          find?-update (λ j. j.token_hash == hash) (consumable id at) mark (λ j. refl)
            db.invitations
          ∙ rw found (rw c);
      marked = inl refl;
    })

usable-consumable :
    (i : InvitationRecord) (login : String) (at : ℕ)
    → usable i login at ≡ true
    → consumable i.id at i ≡ true
usable-consumable i login at h = ground (arith, eq_iff i.id i.id)

-- What `assertInvitationUsable` has checked when it returns.
assert-usable :
    (i : InvitationRecord) (login : String) (at : ℕ) (db : AuthDatabase) {u : Unit}
    → (assert_invitation_usable i login at db).0 ≡ ok u
    → usable i login at ≡ true
unfolding assert_invitation_usable
assert-usable i login at db h = ensure-eq-ok _ _ _ (Splits-bind _ _ db h).first

assert-ReadsOnly :
    (i : InvitationRecord) (login : String) (at : ℕ)
    → ReadsOnly (assert_invitation_usable i login at)
unfolding assert_invitation_usable
assert-ReadsOnly i login at = search reads_rules depth 9

-- Redeeming a usable invitation spends it.
redeem-IsSpent :
    (event_id : String) (at : ℕ) (user_id login hash : String) (i : InvitationRecord)
    (db : AuthDatabase) {u : Unit}
    → get_invitation_by_token_hash hash db ≡ some i
    → usable i login at ≡ true
    → (redeem event_id at user_id i db).0 ≡ ok u
    → IsSpent hash (redeem event_id at user_id i db).1
unfolding redeem
redeem-IsSpent event_id at user_id login hash i db found allowed h =
    let marked = Splits-bind (consume_invitation_row i.id user_id at) _ db h in
    let spent =
      consume_row-IsSpent hash i.id user_id at db i found (usable-consumable i login at allowed)
        marked.value marked.first in
    rw marked.final (
      Evolves-IsSpent hash _ _ ((redeem_row-Evolves marked.value event_id at user_id i).at _) spent)

module _ (p : Platform) where
  -- What a successful consumption has found, checked and left.
  pub record Consumed (token : String) (s t : AuthDatabase) : Type 0 where
    pub row : InvitationRecord
    pub found : get_invitation_by_token_hash (p.sha256 token) s ≡ some row
    pub at : ℕ
    pub login : String
    pub allowed : usable row login at ≡ true
    pub spent : IsSpent (p.sha256 token) t

  consume_rows-spends :
      (event_id : String) (at : ℕ) (user_id login hash : String) (i : InvitationRecord)
      (db : AuthDatabase) {x : InvitationSummary}
      → get_invitation_by_token_hash hash db ≡ some i
      → (consume_rows p event_id at user_id login i db).0 ≡ ok x
      → (usable i login at ≡ true) × IsSpent hash (consume_rows p event_id at user_id login i db).1
  unfolding consume_rows pure
  consume_rows-spends event_id at user_id login hash i db found h =
      let checked = read-bind _ _ db (assert-ReadsOnly i login at) h in
      let allowed = assert-usable i login at db checked.first in
      let done = Splits-bind (redeem event_id at user_id i) _ db checked.second in
      let spent = redeem-IsSpent event_id at user_id login hash i db found allowed done.first in
      (allowed, rw (checked.final ∙ done.final) spent)

  -- A successful consumption was of a usable invitation, and spends it.
  pub consume-IsSpent :
      (draw : ℕ → String) (at : ℕ) (user_id token : String) (db : AuthDatabase)
      {x : InvitationSummary}
      → (consume_invitation p draw at user_id token db).0 ≡ ok x
      → Consumed token db (consume_invitation p draw at user_id token db).1
  unfolding consume_invitation
  consume-IsSpent draw at user_id token db h =
      let user = read-bind _ _ db (require_active_user-ReadsOnly user_id) h in
      let valid = read-bind _ _ db (ReadsOnly-ensure _ _) user.second in
      let (inside, kept) = transaction-eq-ok _ db valid.second in
      let row = read-bind _ _ db (ReadsOnly-gets _) inside in
      let found = read-bind _ _ db (ReadsOnly-or_throw _ _) row.second in
      let here = gets-eq-ok _ db row.first ∙ or_throw-eq-ok _ _ db found.first in
      let (allowed, spent) =
        consume_rows-spends (draw 0) at user.value.id user.value.login_normalized (p.sha256 token)
          found.value db here found.second in
      record {
        row = found.value;
        found = here;
        at = at;
        login = user.value.login_normalized;
        allowed = allowed;
        spent = rw (user.final ∙ valid.final ∙ kept ∙ row.final ∙ found.final) spent;
      }

  unusable :
      (row : InvitationRecord) (hash login : String) (at : ℕ) (db : AuthDatabase)
      → IsSpent hash db
      → get_invitation_by_token_hash hash db ≡ some row
      → usable row login at ≢ true
  unusable row hash login at db m found h =
      let same : m.row ≡ row = cc (m.found, found) in
      let marked =
        subst
          (λ (i : InvitationRecord). (is_some i.consumed_at ≡ true) ⊎ (is_some i.revoked_at ≡ true))
          same m.marked in
      cc (h, usable-IsSpent row login at marked)

  -- Once an invitation has been consumed, and whatever operations follow, no account can consume it
  -- again.
  pub consumed_once :
      (draw : ℕ → String) (at : ℕ) (user_id token : String) (db t : AuthDatabase)
      {x : InvitationSummary}
      → (consume_invitation p draw at user_id token db).0 ≡ ok x
      → Reach p (consume_invitation p draw at user_id token db).1 t
      → (draw' : ℕ → String) (at' : ℕ) (user_id' : String) (y : InvitationSummary)
      → (consume_invitation p draw' at' user_id' token t).0 ≢ ok y
  consumed_once draw at user_id token db t h r draw' at' user_id' y h' =
      let first = consume-IsSpent draw at user_id token db h in
      let spent = Evolves-IsSpent (p.sha256 token) _ t (Reach-Evolves p r) first.spent in
      let again = consume-IsSpent draw' at' user_id' token t h' in
      unusable again.row (p.sha256 token) again.login again.at t spent again.found again.allowed
