-- ===== src/Security/AccessJwt.antt =====
-- The verification of the Cloudflare Access assertion (server/access-jwt.ts): the cache of signing keys
-- and `verify`. Keys, signatures, base64url and the JSON of a segment are Node.js's, parameters here.
-- Times are numbers of milliseconds, `exp` and `nbf` of seconds.
use Prim.Native.Nat.{◌+◌, ◌-◌}
use collaborative_ai_whitebo.Prelude.{
  ℕ, String, Bool, true, false, not, ◌&&◌, Option, none, some, List, [], ◌∷◌, if◌then◌else◌, ltb,
  leb, any, is_some, Assoc, lookup, set, ◌==◌,
}
use collaborative_ai_whitebo.Exec.{Result, ok, err, Exec, pure, lift, ensure, or_throw, ◌>>=◌, ◌>>◌}

pub record Jwk : Type 0 where
  pub kid : Option String
  pub kty : Option String
  pub json : String

pub data Reason : Type 0 where
  missing_assertion : Reason
  malformed_assertion : Reason
  unsupported_algorithm : Reason
  unknown_signing_key : Reason
  bad_signature : Reason
  malformed_claims : Reason
  wrong_issuer : Reason
  wrong_audience : Reason
  expired : Reason
  not_yet_valid : Reason
  invalid_assertion : Reason

-- The fields of the header and of the claims that are looked at; one of another type is `none`. An
-- `aud` that is not a list is a list of one.
pub record Header : Type 0 where
  pub alg : Option String
  pub kid : Option String

pub record Claims : Type 0 where
  pub iss : Option String
  pub aud : List (Option String)
  pub exp : Option ℕ
  pub nbf : Option ℕ
  pub common_name : Option String

-- A segment: no JSON, JSON that is no object, or an object.
pub data Segment (A : Type 0) : Type 0 where
  no_json : Segment A
  no_object : Segment A
  object : A → Segment A

pub record JwtPlatform (Key : Type 0) : Type 0 where
  -- `createPublicKey({ key: jwk, format: 'jwk' })`, where `none` is a throw
  pub create_public_key : Jwk → Option Key
  -- `verify('RSA-SHA256', signed, key, signature)`
  pub verify_signature : String → Key → String → Bool
  -- `assertion.split('.')`, its length in UTF-16 units, and `${a}.${b}`
  pub split : String → List String
  pub units : String → ℕ
  pub joined : String → String → String
  pub header_json : String → Segment Header
  pub claims_json : String → Segment Claims

abbrev pub key_ttl_ms : ℕ
key_ttl_ms = 3600000

abbrev pub min_refresh_interval_ms : ℕ
min_refresh_interval_ms = 60000

abbrev pub max_stale_grace_ms : ℕ
max_stale_grace_ms = 86400000

pub record KeyCache (Key : Type 0) : Type 0 where
  pub keys : Assoc Key
  pub loaded_at : ℕ
  pub last_attempt_at : ℕ

-- The readings of the clock in one call of `keyFor`, and what the fetch would give: `none` is a failure.
-- `started` is the reading of the age test, `gate` that of the test of the refresh interval, `attempted`
-- the one that notes the attempt, `stored` the one that dates the fetched keys, and `ended` that of the
-- grace test.
pub record Moment : Type 0 where
  pub started : ℕ
  pub gate : ℕ
  pub attempted : ℕ
  pub stored : ℕ
  pub ended : ℕ
  pub fetched : Option (List Jwk)

abbrev pub is_text : Option String → String → Bool
is_text none s = false
is_text (some t) s = t == s

abbrev pub json_or_throw : {A : Type 0} → Segment A → Reason → Result Reason A
json_or_throw no_json reason = err invalid_assertion
json_or_throw no_object reason = err reason
json_or_throw (object a) reason = ok a

abbrev pub three_parts : List String → Option (String × String × String)
three_parts (a ∷ b ∷ c ∷ []) = some (a, b, c)
three_parts [] = none
three_parts (a ∷ []) = none
three_parts (a ∷ b ∷ []) = none
three_parts (a ∷ b ∷ c ∷ d ∷ rest) = none

-- `typeof exp !== 'number' || exp + 30 < seconds`, negated, and the same of `nbf`
abbrev pub unexpired : Option ℕ → ℕ → Bool
unexpired none seconds = false
unexpired (some exp) seconds = leb seconds (exp + 30)

abbrev pub begun : Option ℕ → ℕ → Bool
begun none seconds = true
begun (some nbf) seconds = leb nbf (seconds + 30)

module _ {Key : Type 0} where
  abbrev pub add_key : String → Option Key → Assoc Key → Assoc Key
  add_key kid none keys = keys
  add_key kid (some key) keys = set kid key keys

  abbrev pub stored_keys : Assoc Key → ℕ → KeyCache Key → KeyCache Key
  stored_keys [] at cache = cache
  stored_keys (entry ∷ rest) at cache = record cache { keys = entry ∷ rest; loaded_at = at }

  -- `known && age < KEY_TTL_MS`
  abbrev pub fresh : Moment → String → KeyCache Key → Bool
  fresh m kid cache =
      is_some (lookup kid cache.keys) && ltb (m.started - cache.loaded_at) key_ttl_ms

  -- Whether `keyFor` fetches.
  unfoldable pub refreshes : Moment → String → KeyCache Key → Bool
  refreshes m kid cache =
      not (fresh m kid cache) && leb min_refresh_interval_ms (m.gate - cache.last_attempt_at)

  abbrev pub graced : Moment → String → KeyCache Key → Option Key
  graced m kid cache =
      if ltb (m.ended - cache.loaded_at) (key_ttl_ms + max_stale_grace_ms)
      then lookup kid cache.keys
      else none

  -- The checks of the claims; `seconds` is the clock.
  unfoldable pub check_claims :
      String → String → ℕ → Claims → Exec (KeyCache Key) Reason (Option String)
  check_claims issuer audience seconds claims = do
    ensure (is_text claims.iss issuer) wrong_issuer
    ensure (any (λ a. is_text a audience) claims.aud) wrong_audience
    ensure (unexpired claims.exp seconds) expired
    ensure (begun claims.nbf seconds) not_yet_valid
    pure claims.common_name

module _ {Key : Type 0} (p : JwtPlatform Key) where
  abbrev pub with_key : Jwk → Option String → Assoc Key → Assoc Key
  with_key jwk none keys = keys
  with_key jwk (some kid) keys =
      if is_text jwk.kty "RSA" && not (kid == "")
      then add_key kid (p.create_public_key jwk) keys
      else keys

  -- The map that `refresh` builds.
  unfoldable pub usable_keys : List Jwk → Assoc Key → Assoc Key
  usable_keys [] keys = keys
  usable_keys (jwk ∷ rest) keys = usable_keys rest (with_key jwk jwk.kid keys)

  abbrev pub fetched_keys : Option (List Jwk) → Assoc Key
  unfolding usable_keys
  fetched_keys none = []
  fetched_keys (some jwks) = usable_keys jwks []

  -- `refresh`, whose errors are caught: with no usable key the cache keeps its keys.
  unfoldable pub refresh : Moment → KeyCache Key → KeyCache Key
  unfolding usable_keys
  refresh m cache =
      stored_keys (fetched_keys m.fetched) m.stored (record cache { last_attempt_at = m.attempted })

  abbrev pub after_refresh : Moment → String → KeyCache Key → KeyCache Key
  unfolding refresh refreshes
  after_refresh m kid cache = if refreshes m kid cache then refresh m cache else cache

  unfoldable pub key_for : Moment → String → KeyCache Key → Option Key × KeyCache Key
  unfolding refresh refreshes
  key_for m kid cache =
      if fresh m kid cache
      then (lookup kid cache.keys, cache)
      else (graced m kid (after_refresh m kid cache), after_refresh m kid cache)

  unfoldable pub find_key : Moment → String → Exec (KeyCache Key) Reason (Option Key)
  unfolding key_for
  find_key m kid cache = let (key, after) = key_for m kid cache in (ok key, after)

  unfoldable pub verify :
      String → String → Moment → ℕ → Option String → Exec (KeyCache Key) Reason (Option String)
  unfolding find_key check_claims
  verify issuer audience m seconds given = do
    assertion ← or_throw given missing_assertion
    ensure (not (assertion == "") && leb (p.units assertion) 8192) missing_assertion
    (one, two, three) ← or_throw (three_parts (p.split assertion)) malformed_assertion
    header ← lift (json_or_throw (p.header_json one) unsupported_algorithm)
    ensure (is_text header.alg "RS256") unsupported_algorithm
    kid ← or_throw header.kid unsupported_algorithm
    found ← find_key m kid
    key ← or_throw found unknown_signing_key
    ensure (p.verify_signature (p.joined one two) key three) bad_signature
    claims ← lift (json_or_throw (p.claims_json two) malformed_claims)
    check_claims issuer audience seconds claims
