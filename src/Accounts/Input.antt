-- ===== src/Accounts/Input.antt =====
-- The checks of server/auth.ts on what a caller sends. What the code takes from the platform (text
-- normalisation, trimming, lower case, UTF-16 lengths, the Unicode classes of the login pattern,
-- SHA-256, scrypt, JSON) is the record `Platform`.
use Prim.Native.Char.{code}
use collaborative_ai_whitebo.Prelude.{
  ℕ, String, Bool, not, Option, none, some, ◌&&◌, ◌||◌, List, [], ◌∷◌, leb, ltb, eqb, if◌then◌else◌,
  length, all, any,
}
use collaborative_ai_whitebo.Exec.{Result, ok, err}
use collaborative_ai_whitebo.Accounts.Types.{
  AuthFailure, auth, invalid_input, Parsed, json_object, json_other, UserRecord, AuthUser,
}

pub record Platform : Type 0 where
  -- `s.normalize('NFKC')`, `s.trim()`, `s.toLocaleLowerCase('en-US')`, `s.length`
  pub nfkc : String → String
  pub trim : String → String
  pub lower_case : String → String
  pub units : String → ℕ
  -- /^[\p{L}\p{N}][\p{L}\p{N}._@+-]*$/u
  pub login_shape : String → Bool
  -- the hex digest of SHA-256
  pub sha256 : String → String
  -- the encoded hash of a password under a salt, and the comparison of `verifyPassword`
  pub scrypt_encode : String → String → String
  pub scrypt_matches : String → String → Bool
  -- the size in bytes of a text
  pub byte_length : String → ℕ
  -- `JSON.parse`, where `none` is a throw
  pub json_parse : String → Option Parsed

abbrev pub codes : String → List ℕ
codes String.[] = []
codes (String.◌∷◌ c s) = code c ∷ codes s

abbrev pub between : ℕ → ℕ → ℕ → Bool
between low high n = leb low n && leb n high

-- [A-Za-z0-9_-]
unfoldable pub id_char : ℕ → Bool
id_char c =
    between b'A' b'Z' c || between b'a' b'z' c || between b'0' b'9' c || eqb c b'_' || eqb c b'-'

-- A text of that class whose length is in the range, as the anchored patterns {low,high} ask.
unfoldable pub id_text : ℕ → ℕ → String → Bool
unfolding id_char
id_text low high s = all id_char (codes s) && between low high (length (codes s))

-- [\u0000-\u001f\u007f]
unfoldable pub control_char : ℕ → Bool
control_char c = leb c 0x1f || eqb c 0x7f

abbrev pub Checked : Type 0 → Type 0
Checked A = Result AuthFailure A

unfoldable pub validate_board_id : String → Checked String
unfolding id_text
validate_board_id id = if id_text 1 80 id then ok id else err (auth invalid_input 400)

unfoldable pub valid_opaque_token : String → Bool
unfolding id_text
valid_opaque_token token = id_text 40 128 token

unfoldable pub checked_ttl : ℕ → ℕ → ℕ → Checked ℕ
checked_ttl value minimum maximum =
    if ltb value minimum || ltb maximum value then err (auth invalid_input 400) else ok value

-- The object of `parseObject`: what JSON.parse throws is caught.
abbrev pub object_or_empty : Option Parsed → String
object_or_empty none = "{}"
object_or_empty (some json_other) = "{}"
object_or_empty (some (json_object json)) = json

module _ (p : Platform) where
  abbrev pub parse_object : String → String
  parse_object json = object_or_empty (p.json_parse json)

  abbrev pub public_user : UserRecord → AuthUser
  public_user u = record {
    id = u.id;
    login = u.login;
    display_name = u.display_name;
    settings = parse_object u.settings_json;
    is_admin = u.is_admin;
    created_at = u.created_at;
    updated_at = u.updated_at;
    last_login_at = u.last_login_at;
    disabled_at = u.disabled_at;
  }

  unfoldable pub validate_password : String → Checked Unit
  validate_password password =
      if ltb (p.units password) 10 || ltb 1024 (p.units password)
      then err (auth invalid_input 400)
      else ok tt

  unfoldable pub normalize_login : String → Checked String
  normalize_login login =
      let normalized = p.lower_case (p.trim (p.nfkc login)) in
      if ltb (p.units normalized) 3 || ltb 80 (p.units normalized) || not (p.login_shape normalized)
      then err (auth invalid_input 400)
      else ok normalized

  keep_text : String → Checked String → Checked String
  keep_text cleaned (ok normalized) = ok cleaned
  keep_text cleaned (err e) = err e

  unfoldable pub clean_login : String → Checked String
  unfolding keep_text normalize_login
  clean_login login =
      let cleaned = p.trim (p.nfkc login) in keep_text cleaned (normalize_login cleaned)

  -- The display name (at most 100) and the board name (at most 120).
  unfoldable pub clean_name : ℕ → String → Checked String
  unfolding control_char
  clean_name most name =
      let cleaned = p.trim (p.nfkc name) in
      if ltb (p.units cleaned) 1 || ltb most (p.units cleaned) || any control_char (codes cleaned)
      then err (auth invalid_input 400)
      else ok cleaned

  -- `settings` is the JSON text of the object.
  unfoldable pub serialize_object : String → Checked String
  serialize_object json =
      if ltb 16384 (p.byte_length json) then err (auth invalid_input 400) else ok json
