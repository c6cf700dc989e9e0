-- ===== src/Security/Assertions.antt =====
-- What a verified assertion has passed, and how often and how long keys are fetched and used
-- (server/access-jwt.ts).
use collaborative_ai_whitebo.Prelude.{ℕ, String, ◌≡◌, sym, ◌∙◌, ap, true, Option, some, any}
use collaborative_ai_whitebo.Exec.{ok, pure}
use collaborative_ai_whitebo.Exec.Atomic.{ReadsOnly-ensure, ReadsOnly-lift, ReadsOnly-or_throw}
use collaborative_ai_whitebo.Exec.Inversion.{Splits-bind, ensure-eq-ok, or_throw-eq-ok, lift-eq-ok}
use collaborative_ai_whitebo.Security.AccessJwt.{
  Reason, Header, Claims, Segment, object, no_json, no_object, JwtPlatform, KeyCache, Moment,
  is_text, key_for, find_key, json_or_throw, three_parts, unexpired, begun, check_claims, verify,
}

-- A set of claims that is accepted.
pub record IsAccepted (issuer audience : String) (seconds : ℕ) (claims : Claims) : Type 0 where
  pub issued : is_text claims.iss issuer ≡ true
  pub meant : any (λ a. is_text a audience) claims.aud ≡ true
  pub live : unexpired claims.exp seconds ≡ true
  pub started : begun claims.nbf seconds ≡ true

object-eq-ok :
    {A : Type 0} (s : Segment A) (reason : Reason) (a : A)
    → json_or_throw s reason ≡ ok a
    → s ≡ object a
object-eq-ok no_json reason a h = cc h
object-eq-ok no_object reason a h = cc h
object-eq-ok (object b) reason a h = cc h

check_claims-IsAccepted :
    (issuer audience : String) (seconds : ℕ) (claims : Claims) {Key : Type 0} (s : KeyCache Key)
    (client : Option String)
    → (check_claims issuer audience seconds claims s).0 ≡ ok client
    → IsAccepted issuer audience seconds claims × (claims.common_name ≡ client)
unfolding check_claims pure
check_claims-IsAccepted issuer audience seconds claims s client h =
    let issued = Splits-bind _ _ s h in
    let meant = Splits-bind _ _ _ issued.second in
    let live = Splits-bind _ _ _ meant.second in
    let begun = Splits-bind _ _ _ live.second in
    (
      record {
        issued = ensure-eq-ok _ _ _ issued.first;
        meant = ensure-eq-ok _ _ _ meant.first;
        live = ensure-eq-ok _ _ _ live.first;
        started = ensure-eq-ok _ _ _ begun.first;
      },
      cc begun.second,
    )

module _ {Key : Type 0} (p : JwtPlatform Key) where
  -- A signed assertion: its three parts, the key, and the claims.
  pub record IsSigned (issuer audience : String) (m : Moment) (seconds : ℕ) (cache : KeyCache Key)
      (given client : Option String) : Type 0 where
    pub assertion : String
    pub parts : String × String × String
    pub header : Header
    pub kid : String
    pub key : Key
    pub claims : Claims
    pub present : given ≡ some assertion
    pub split : three_parts (p.split assertion) ≡ some parts
    pub headed : p.header_json parts.0 ≡ object header
    pub algorithm : is_text header.alg "RS256" ≡ true
    pub named : header.kid ≡ some kid
    pub found : (key_for p m kid cache).0 ≡ some key
    pub signed : p.verify_signature (p.joined parts.0 parts.1) key parts.2 ≡ true
    pub claimed : p.claims_json parts.1 ≡ object claims
    pub accepted : IsAccepted issuer audience seconds claims
    pub answered : claims.common_name ≡ client

  find_key-eq-ok :
      (m : Moment) (kid : String) (s : KeyCache Key) (o : Option Key)
      → (find_key p m kid s).0 ≡ ok o
      → (key_for p m kid s).0 ≡ o
  unfolding find_key
  find_key-eq-ok m kid s o h = cc h

  -- An assertion is accepted only if it is a token of three parts, signed with RS256 by the key that the
  -- cache gives for its key id, whose claims name the issuer and the audience, whose expiry passed at
  -- most thirty seconds ago and which is valid from at most thirty seconds ahead; the answer is the
  -- common name of the claims.
  pub verify-IsSigned :
      (issuer audience : String) (m : Moment) (seconds : ℕ) (given : Option String)
      (cache : KeyCache Key) (client : Option String)
      → (verify p issuer audience m seconds given cache).0 ≡ ok client
      → IsSigned issuer audience m seconds cache given client
  unfolding verify
  verify-IsSigned issuer audience m seconds given cache client h =
      let assertion = Splits-bind _ _ cache h in
      let sized = Splits-bind _ _ _ assertion.second in
      let parts = Splits-bind _ _ _ sized.second in
      let header = Splits-bind _ _ _ parts.second in
      let algorithm = Splits-bind _ _ _ header.second in
      let kid = Splits-bind _ _ _ algorithm.second in
      let found = Splits-bind _ _ _ kid.second in
      let key = Splits-bind _ _ _ found.second in
      let signed = Splits-bind _ _ _ key.second in
      let claims = Splits-bind _ _ _ signed.second in
      let (accepted, answered) =
        check_claims-IsAccepted issuer audience seconds claims.value _ client claims.second in
      record {
        assertion = assertion.value;
        parts = parts.value;
        header = header.value;
        kid = kid.value;
        key = key.value;
        claims = claims.value;
        present = or_throw-eq-ok _ _ _ assertion.first;
        split = or_throw-eq-ok _ _ _ parts.first;
        headed = object-eq-ok _ _ _ (lift-eq-ok _ _ header.first);
        algorithm = ensure-eq-ok _ _ _ algorithm.first;
        named = or_throw-eq-ok _ _ _ kid.first;
        found =
            ap (λ s. (key_for p m kid.value s).0)
              (sym (
                (ReadsOnly-or_throw _ _).same _
                ∙ (ReadsOnly-ensure _ _).same _
                ∙ (ReadsOnly-lift _).same _
                ∙ (ReadsOnly-or_throw _ _).same _
                ∙ (ReadsOnly-ensure _ _).same _
                ∙ (ReadsOnly-or_throw _ _).same _))
            ∙ find_key-eq-ok m kid.value _ found.value found.first
            ∙ or_throw-eq-ok _ _ _ key.first;
        signed = ensure-eq-ok _ _ _ signed.first;
        claimed = object-eq-ok _ _ _ (lift-eq-ok _ _ claims.first);
        accepted = accepted;
        answered = answered;
      }
