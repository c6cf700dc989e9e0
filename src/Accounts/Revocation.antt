-- ===== src/Accounts/Revocation.antt =====
-- Revoked sessions (server/auth.ts): logging out and disabling an account.
use collaborative_ai_whitebo.Prelude.{
  ℕ, String, ◌≡◌, refl, ◌∙◌, ap, true, not, ◌&&◌, inl, inr, Option, none, some, [], arith, is_some,
  Bool-cases, if◌then◌else◌, ◌==◌, eq_iff, eq_refl, find?-Grows, find?-update,
}
use collaborative_ai_whitebo.Exec.{ok, transaction, gets, modify, pure, ◌>>=◌}
use collaborative_ai_whitebo.Exec.Atomic.{ReadsOnly-ensure, ReadsOnly-or_throw, ReadsOnly-gets}
use collaborative_ai_whitebo.Exec.Inversion.{Splits-bind, read-bind, transaction-eq-ok, gets-eq-ok}
use collaborative_ai_whitebo.Accounts.Types.{SessionRecord, AuthUser}
use collaborative_ai_whitebo.Accounts.Database.{
  AuthDatabase, get_session_by_token_hash, revoke_found, revoke_session_by_token_hash,
  revoke_sessions_for_user, set_user_disabled,
}
use collaborative_ai_whitebo.Accounts.Input.{Platform, valid_opaque_token}
use collaborative_ai_whitebo.Accounts.Sessions.{
  check_session, get_current_session, logged_out, logout, disable_body, set_disabled,
}
use collaborative_ai_whitebo.Accounts.Evolution.{Sticks, SessionStep, Evolves}
use collaborative_ai_whitebo.Accounts.Calls.{Reach}
use collaborative_ai_whitebo.Accounts.Calls.Atomic.{require_active_user-ReadsOnly}
use collaborative_ai_whitebo.Accounts.Calls.Evolution.{
  logged_out-Evolves, record_event-Evolves, Reach-Evolves,
}

-- The row of the token's hash is there and revoked.
pub record IsRevoked (hash : String) (db : AuthDatabase) : Type 0 where
  pub row : SessionRecord
  pub found : get_session_by_token_hash hash db ≡ some row
  pub marked : is_some row.revoked_at ≡ true

same_key :
    (hash : String) (x y : SessionRecord)
    → SessionStep x y
    → (x.token_hash == hash) ≡ (y.token_hash == hash)
same_key hash x y s = ap (λ t. t == hash) s.token

still_marked : (o o' : Option ℕ) → Sticks o o' → is_some o ≡ true → is_some o' ≡ true
still_marked none o' s h = cc
still_marked (some a) (some b) s h = refl
still_marked (some a) none s h = cc

pub Evolves-IsRevoked :
    (hash : String) (s t : AuthDatabase) → Evolves s t → IsRevoked hash s → IsRevoked hash t
unfolding get_session_by_token_hash
Evolves-IsRevoked hash s t e m =
    let (y, found, step) =
      find?-Grows SessionStep (λ x. x.token_hash == hash) (same_key hash) s.sessions t.sessions
        m.row e.sessions m.found in
    record {
      row = y;
      found = found;
      marked = still_marked m.row.revoked_at y.revoked_at step.revoked m.marked;
    }

revoke_found-IsRevoked :
    (hash : String) (at : ℕ) (o : Option SessionRecord) (db : AuthDatabase) {x : SessionRecord}
    → get_session_by_token_hash hash db ≡ o
    → (revoke_found hash at o db).0 ≡ ok (some x)
    → IsRevoked hash (revoke_found hash at o db).1
unfolding revoke_found get_session_by_token_hash ◌>>=◌ modify pure
revoke_found-IsRevoked hash at none db e h = cc
revoke_found-IsRevoked hash at (some s) db e h = elim (Bool-cases (is_some s.revoked_at)) [
  | inl gone ↦ cc (rw gone at h)
  | inr live ↦
      let end = λ (r : SessionRecord). record r { revoked_at = some at } in
      rw live (record {
        row = end s;
        found =
            find?-update (λ r. r.token_hash == hash)
              (λ r. r.id == s.id && not (is_some r.revoked_at)) end (λ r. refl) db.sessions
            ∙ rw e (rw live (rw (eq_refl s.id)));
        marked = refl;
      })
]

revoke-IsRevoked :
    (hash : String) (at : ℕ) (db : AuthDatabase) {x : SessionRecord}
    → (revoke_session_by_token_hash hash at db).0 ≡ ok (some x)
    → IsRevoked hash (revoke_session_by_token_hash hash at db).1
unfolding revoke_session_by_token_hash
revoke-IsRevoked hash at db h =
    let row = read-bind _ _ db (ReadsOnly-gets _) h in
    let here = gets-eq-ok _ db row.first in
    rw row.final (revoke_found-IsRevoked hash at row.value db here row.second)

-- All sessions of the user are revoked, whether or not they were before.
revoke_all-IsRevoked :
    (hash user_id : String) (at : ℕ) (db : AuthDatabase) (row : SessionRecord)
    → get_session_by_token_hash hash db ≡ some row
    → row.user_id ≡ user_id
    → IsRevoked hash (revoke_sessions_for_user user_id at db).1
unfolding revoke_sessions_for_user get_session_by_token_hash modify
revoke_all-IsRevoked hash user_id at db row e u =
    let p = λ (r : SessionRecord). r.user_id == user_id && not (is_some r.revoked_at) in
    let end = λ (r : SessionRecord). record r { revoked_at = some at } in
    record {
      row = if p row then end row else row;
      found = find?-update (λ r. r.token_hash == hash) p end (λ r. refl) db.sessions ∙ rw e;
      marked = ground (arith, eq_iff row.user_id user_id);
    }

module _ (p : Platform) where
  -- A revoked session lets nobody in.
  pub get_current_session-IsRevoked :
      (token : String) (at : ℕ) (db : AuthDatabase)
      → IsRevoked (p.sha256 token) db
      → (get_current_session p token at db).0 ≡ ok none
  unfolding get_current_session check_session ◌>>=◌ gets pure
  get_current_session-IsRevoked token at db m = ground (arith, m.found, m.marked)

  logged_out-some :
      (id : String) (at : ℕ) (o : Option SessionRecord) (db : AuthDatabase)
      → (logged_out p id at o db).0 ≡ ok true
      → (x : SessionRecord) × (o ≡ some x)
  unfolding logged_out pure
  logged_out-some id at none db h = cc
  logged_out-some id at (some x) db h = (x, refl)

  leave_rows :
      (id hash : String) (at : ℕ) (db : AuthDatabase)
      → ((revoke_session_by_token_hash hash at >>= logged_out p id at) db).0 ≡ ok true
      → IsRevoked hash ((revoke_session_by_token_hash hash at >>= logged_out p id at) db).1
  leave_rows id hash at db h =
      let done = Splits-bind (revoke_session_by_token_hash hash at) (logged_out p id at) db h in
      let (x, some_row) = logged_out-some id at done.value _ done.second in
      let ended = revoke-IsRevoked hash at db (done.first ∙ ap ok some_row) in
      rw done.final
        (Evolves-IsRevoked hash _ _ ((logged_out-Evolves p id at done.value).at _) ended)

  logout-IsRevoked :
      (draw : ℕ → String) (token : String) (at : ℕ) (db : AuthDatabase)
      → (logout p draw token at db).0 ≡ ok true
      → IsRevoked (p.sha256 token) (logout p draw token at db).1
  unfolding logout pure
  logout-IsRevoked draw token at db h = elim (Bool-cases (valid_opaque_token token)) [
    | inl valid ↦
        let (inside, kept) = transaction-eq-ok _ db (rw valid at h) in
        rw (valid, kept) (leave_rows (draw 0) (p.sha256 token) at db inside)
    | inr bad ↦ cc (rw bad at h)
  ]

  -- After a logout that succeeded, and whatever operations follow, the token opens no session.
  pub logged_out_for_good :
      (draw : ℕ → String) (token : String) (at : ℕ) (db t : AuthDatabase)
      → (logout p draw token at db).0 ≡ ok true
      → Reach p (logout p draw token at db).1 t
      → (at' : ℕ) → (get_current_session p token at' t).0 ≡ ok none
  logged_out_for_good draw token at db t h r at' =
      get_current_session-IsRevoked token at' t
        (Evolves-IsRevoked _ _ t (Reach-Evolves p r) (logout-IsRevoked draw token at db h))

same_sessions :
    (target hash : String) (d : Option ℕ) (at : ℕ) (db : AuthDatabase)
    → get_session_by_token_hash hash (set_user_disabled target d at db).1
      ≡ get_session_by_token_hash hash db
unfolding set_user_disabled get_session_by_token_hash modify
same_sessions target hash d at db = refl

disable_rows :
    (draw : ℕ → String) (at : ℕ) (actor target hash : String) (db : AuthDatabase)
    (row : SessionRecord) {u : Unit}
    → get_session_by_token_hash hash db ≡ some row
    → row.user_id ≡ target
    → (disable_body draw at actor target true db).0 ≡ ok u
    → IsRevoked hash (disable_body draw at actor target true db).1
unfolding disable_body
disable_rows draw at actor target hash db row found mine h =
    let switched = Splits-bind (set_user_disabled target (some at) at) _ db h in
    let ended = Splits-bind (revoke_sessions_for_user target at) _ _ switched.second in
    let there = same_sessions target hash (some at) at db ∙ found in
    rw (switched.final ∙ ended.final) (
      Evolves-IsRevoked hash _ _
        ((record_event-Evolves (draw 0) "account.disabled" (some actor) (some target) none [] at).at
          _)
        (revoke_all-IsRevoked hash target at _ row there mine))

disable-IsRevoked :
    (p : Platform) (draw : ℕ → String) (at : ℕ) (actor target hash : String) (db : AuthDatabase)
    (row : SessionRecord) {x : AuthUser}
    → get_session_by_token_hash hash db ≡ some row
    → row.user_id ≡ target
    → (set_disabled p draw at actor target true db).0 ≡ ok x
    → IsRevoked hash (set_disabled p draw at actor target true db).1
unfolding set_disabled pure
disable-IsRevoked p draw at actor target hash db row found mine h =
    let user = read-bind _ _ db (require_active_user-ReadsOnly actor) h in
    let admin = read-bind _ _ db (ReadsOnly-ensure _ _) user.second in
    let other = read-bind _ _ db (ReadsOnly-ensure _ _) admin.second in
    let read = read-bind _ _ db (ReadsOnly-gets _) other.second in
    let present = read-bind _ _ db (ReadsOnly-or_throw _ _) read.second in
    let done =
      Splits-bind (transaction (disable_body draw at actor target true)) _ db present.second in
    let (inside, kept) = transaction-eq-ok _ db done.first in
    rw (user.final ∙ admin.final ∙ other.final ∙ read.final ∙ present.final ∙ done.final ∙ kept)
      (disable_rows draw at actor target hash db row found mine inside)

-- After an account was disabled, no session that it had opens again, whatever operations follow:
-- enabling the account again does not bring them back.
pub disabled_for_good :
    (p : Platform) (draw : ℕ → String) (at : ℕ) (actor target token : String) (db t : AuthDatabase)
    (row : SessionRecord) {x : AuthUser}
    → get_session_by_token_hash (p.sha256 token) db ≡ some row
    → row.user_id ≡ target
    → (set_disabled p draw at actor target true db).0 ≡ ok x
    → Reach p (set_disabled p draw at actor target true db).1 t
    → (at' : ℕ) → (get_current_session p token at' t).0 ≡ ok none
disabled_for_good p draw at actor target token db t row found mine h r at' =
    get_current_session-IsRevoked p token at' t (
      Evolves-IsRevoked _ _ t (Reach-Evolves p r)
        (disable-IsRevoked p draw at actor target _ db row found mine h))
