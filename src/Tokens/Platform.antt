-- ===== src/Tokens/Platform.antt =====
-- The checks of server/token-store.mjs on names, times and labels. What the code takes from Node.js is
-- the record `TokenPlatform`. A time is a number of milliseconds from the start of the year 0000, the
-- first that the four digits of a timestamp name.
use Prim.Native.String.{slice}
use Prim.Native.String
use collaborative_ai_whitebo.Prelude.{
  ℕ, String, Bool, true, false, ◌&&◌, ◌||◌, Option, none, some, List, [], ◌∷◌, if◌then◌else◌, ltb,
  leb, eqb, take, any, all, length,
}
use collaborative_ai_whitebo.Exec.{Result, ok, err}
use collaborative_ai_whitebo.Accounts.Input.{codes, id_char, id_text, between, control_char}
use collaborative_ai_whitebo.Tokens.Types.{
  TokenFailure, store_error, invalid_expiry, invalid_display_name, invalid_creator, Value, text,
  texts, other, Json, object, FileText, serialise, raw,
}

pub record TokenPlatform : Type 0 where
  -- `JSON.parse(source)` of a text that the code did not write, where `none` is a throw
  pub json_parse : String → Option Json
  -- the hex digest of SHA-256
  pub sha256 : String → String
  -- `Date.parse(value)`, where `none` is NaN, and `new Date(at).toISOString()`
  pub date_parse : String → Option ℕ
  pub to_iso : ℕ → String
  -- `s.trim()`, `s.length`
  pub trim : String → String
  pub units : String → ℕ

abbrev pub Checked : Type 0 → Type 0
Checked A = Result TokenFailure A

-- A pattern of digits and fixed characters, matched at the start of a text.
pub data Pattern : Type 0 where
  digit : Pattern
  char : ℕ → Pattern

abbrev pub fits : Pattern → ℕ → Bool
fits digit c = between b'0' b'9' c
fits (char d) c = eqb c d

abbrev pub match_codes : List Pattern → List ℕ → Option (List ℕ)
match_codes [] cs = some cs
match_codes (p ∷ ps) [] = none
match_codes (p ∷ ps) (c ∷ cs) = let rest = match_codes ps cs in if fits p c then rest else none

-- \d{4}-\d{2}-\d{2}T\d{2}:\d{2}:\d{2}
abbrev pub date_and_time : List Pattern
date_and_time =
    digit
    ∷ digit
    ∷ digit
    ∷ digit
    ∷ char b'-'
    ∷ digit
    ∷ digit
    ∷ char b'-'
    ∷ digit
    ∷ digit
    ∷ char b'T'
    ∷ digit
    ∷ digit
    ∷ char b':'
    ∷ digit
    ∷ digit
    ∷ char b':'
    ∷ digit
    ∷ digit
    ∷ []

-- (?:\.\d{1,3})?Z$
abbrev pub ends_in_z : List ℕ → Bool
ends_in_z (z ∷ []) = eqb z b'Z'
ends_in_z (dot ∷ a ∷ z ∷ []) = eqb dot b'.' && fits digit a && eqb z b'Z'
ends_in_z (dot ∷ a ∷ b ∷ z ∷ []) = eqb dot b'.' && fits digit a && fits digit b && eqb z b'Z'
ends_in_z (dot ∷ a ∷ b ∷ c ∷ z ∷ []) =
    eqb dot b'.' && fits digit a && fits digit b && fits digit c && eqb z b'Z'
ends_in_z cs = false

abbrev pub ends_after : Option (List ℕ) → Bool
ends_after none = false
ends_after (some rest) = ends_in_z rest

unfoldable pub timestamp_format : String → Bool
timestamp_format s = ends_after (match_codes date_and_time (codes s))

abbrev pub same_codes : List ℕ → List ℕ → Bool
same_codes [] [] = true
same_codes [] (c ∷ cs) = false
same_codes (c ∷ cs) [] = false
same_codes (c ∷ cs) (d ∷ ds) = eqb c d && same_codes cs ds

pub data ExpiryStatus : Type 0 where
  no_expiry : ExpiryStatus
  active : ExpiryStatus
  expired : ExpiryStatus
  invalid : ExpiryStatus

-- The expiry that a caller asks for: a `Date` (`none` is one whose time is NaN) or any other value.
pub data ExpiryRequest : Type 0 where
  date : Option ℕ → ExpiryRequest
  value : Value → ExpiryRequest

-- [A-Za-z0-9:_.-]{1,128}
unfoldable pub creator_id : String → Bool
creator_id s =
    all (λ c. id_char c || eqb c b':' || eqb c b'.') (codes s) && between 1 128 (length (codes s))

module _ (p : TokenPlatform) where
  abbrev pub parse_json : FileText → Option Json
  parse_json (serialise store) = some (object store)
  parse_json (raw source) = p.json_parse source

  unfoldable pub client_fingerprint : String → String
  client_fingerprint token_hash =
      slice (p.sha256 (Prim.Native.String.◌++◌ "agent-ref:" token_hash)) 0 16

  abbrev pub calendar_valid : String → Option ℕ → Option ℕ
  calendar_valid s none = none
  calendar_valid s (some at) =
      if same_codes (take 19 (codes (p.to_iso at))) (take 19 (codes s)) then some at else none

  unfoldable pub parse_timestamp : Value → Option ℕ
  unfolding timestamp_format
  parse_timestamp (text s) = if timestamp_format s then calendar_valid s (p.date_parse s) else none
  parse_timestamp (texts items) = none
  parse_timestamp other = none

  abbrev pub status_at : ℕ → Option ℕ → ExpiryStatus
  status_at now none = invalid
  status_at now (some at) = if ltb now at then active else expired

  unfoldable pub evaluate_expiry : Option Value → ℕ → ExpiryStatus
  unfolding parse_timestamp
  evaluate_expiry none now = no_expiry
  evaluate_expiry (some expires_at) now = status_at now (parse_timestamp expires_at)

  abbrev pub future : ℕ → Option ℕ → Checked (Option Value)
  future now none = err (store_error invalid_expiry)
  future now (some at) =
      if leb at now then err (store_error invalid_expiry) else ok (some (text (p.to_iso at)))

  unfoldable pub normalise_expiry : Option ExpiryRequest → ℕ → Checked (Option Value)
  unfolding parse_timestamp
  normalise_expiry none now = ok none
  normalise_expiry (some (date at)) now = future now at
  normalise_expiry (some (value v)) now = future now (parse_timestamp v)

  abbrev pub trimmed : Value → String
  trimmed (text s) = p.trim s
  trimmed (texts items) = ""
  trimmed other = ""

  unfoldable pub normalise_display_name : Option Value → Checked (Option Value)
  unfolding control_char
  normalise_display_name none = ok none
  normalise_display_name (some v) =
      let label = trimmed v in
      if ltb (p.units label) 1 || ltb 80 (p.units label) || any control_char (codes label)
      then err (store_error invalid_display_name)
      else ok (some (text label))

unfoldable pub normalise_creator : Option Value → Checked (Option Value)
unfolding creator_id
normalise_creator none = ok none
normalise_creator (some (text s)) =
    if creator_id s then ok (some (text s)) else err (store_error invalid_creator)
normalise_creator (some (texts items)) = err (store_error invalid_creator)
normalise_creator (some other) = err (store_error invalid_creator)

-- {1,64} and {1,80} of [A-Za-z0-9_-]
unfoldable pub is_valid_client_name : String → Bool
is_valid_client_name s = id_text 1 64 s

unfoldable pub is_valid_room_id : String → Bool
is_valid_room_id s = id_text 1 80 s
