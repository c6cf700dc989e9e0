-- ===== src/Security/Examples.antt =====
-- A limiter of two calls in ten milliseconds, and a verifier with one signing key.
use collaborative_ai_whitebo.Prelude.{
  ℕ, String, ◌≡◌, refl, List, [], ◌∷◌, Option, none, some, arith, ◌==◌, lookup, set,
}
use collaborative_ai_whitebo.Exec.{pure, lift, ensure, or_throw, ◌>>=◌}
use collaborative_ai_whitebo.Security.Runs.{
  answers, promised, allowed_calls, Ordered, Bounded, answers-promised, allowed_calls-Bounded,
}
use collaborative_ai_whitebo.Security.Budgets.{Limiter, Spend}
use collaborative_ai_whitebo.Security.Spending.{InOrder, spendings, spendings-Bounded}
use collaborative_ai_whitebo.Security.AccessJwt.{
  Jwk, Segment, JwtPlatform, KeyCache, Moment, key_for, verify,
}
use collaborative_ai_whitebo.Security.Assertions.{IsSigned, verify-IsSigned}
use collaborative_ai_whitebo.Security.KeyRefresh.{Spaced, fetches, fetches-Spaced, key_for-stale}

abbrev calls : List (String × ℕ)
calls = ("a", 1) ∷ ("a", 2) ∷ ("b", 3) ∷ ("a", 4) ∷ ("a", 12) ∷ []

calls_in_order : Ordered 0 calls
calls_in_order = (omega arith, (omega arith, (omega arith, (omega arith, (omega arith, tt)))))

answers-promised_example : answers 2 10 calls [] ≡ promised 2 10 calls []
answers-promised_example = answers-promised 2 10 calls calls_in_order

allowed_calls-Bounded_example : Bounded 2 10 12 (allowed_calls 2 10 calls [] [])
allowed_calls-Bounded_example = allowed_calls-Bounded 2 10 calls calls_in_order

abbrev one_creation : Limiter
one_creation = record { limit = 1; window_ms = 10 }

abbrev creation : ℕ → Spend
creation time = record {
  client_name = "agent";
  owner_user_id = "guest";
  credential_check = time;
  owner_check = time;
  credential_charge = time;
  owner_charge = time;
}

creations-InOrder : InOrder 0 (creation 1 ∷ creation 5 ∷ creation 12 ∷ [])
creations-InOrder = (
  omega arith,
  omega arith,
  omega arith,
  omega arith,
  (
    omega arith,
    omega arith,
    omega arith,
    omega arith,
    (omega arith, omega arith, omega arith, omega arith, tt),
  ),
)

-- The second creation is refused.
spendings-Bounded_example :
    let all =
      spendings one_creation one_creation
        (creation 1 ∷ creation 5 ∷ creation 12 ∷ [])
        (record { credential = []; owner = [] })
        (record { credential = []; owner = [] }) in
    Bounded 1 10 12 all.credential × Bounded 1 10 12 all.owner
spendings-Bounded_example =
    spendings-Bounded one_creation one_creation (creation 1 ∷ creation 5 ∷ creation 12 ∷ [])
      creations-InOrder

-- A key is a text; a signature is good when it is the key.
abbrev keys_as_texts : JwtPlatform String
keys_as_texts = record {
  create_public_key = λ jwk. some jwk.json;
  verify_signature = λ signed key signature. key == signature;
  split = λ s. "head" ∷ "body" ∷ "key" ∷ [];
  units = λ s. 13;
  joined = λ a b. a;
  header_json = λ s. Segment.object (record { alg = some "RS256"; kid = some "one" });
  claims_json = λ s. Segment.object (record {
    iss = some "https://team.example";
    aud = some "boards" ∷ [];
    exp = some 200;
    nbf = none;
    common_name = some "agent";
  });
}

abbrev one_key : Jwk
one_key = record { kid = some "one"; kty = some "RSA"; json = "key" }

abbrev no_keys : KeyCache String
no_keys = record { keys = []; loaded_at = 0; last_attempt_at = 0 }

abbrev at : ℕ → Option (List Jwk) → Moment
at time fetched = record {
  started = time;
  gate = time;
  attempted = time;
  stored = time;
  ended = time;
  fetched = fetched;
}

verify-IsSigned_example :
    IsSigned keys_as_texts "https://team.example" "boards"
      (at 100000 (some (one_key ∷ [])))
      100
      no_keys
      (some "head.body.key")
      (some "agent")
unfolding verify ◌>>=◌ or_throw ensure lift pure lookup set
verify-IsSigned_example =
    verify-IsSigned keys_as_texts "https://team.example" "boards" (at 100000 (some (one_key ∷ [])))
      100 (some "head.body.key") no_keys (some "agent") refl

fetches-Spaced_example : Spaced 0 (
    fetches keys_as_texts
      ((at 70000 none, "one") ∷ (at 80000 none, "one") ∷ (at 140000 none, "two") ∷ [])
      no_keys)
fetches-Spaced_example =
    fetches-Spaced keys_as_texts
      ((at 70000 none, "one") ∷ (at 80000 none, "one") ∷ (at 140000 none, "two") ∷ []) no_keys
      (omega arith, (omega arith, (omega arith, tt)))

-- Keys that were stored at 0 and cannot be fetched again.
key_for-stale_example :
    (key_for keys_as_texts
      (at 90000000 none)
      "one"
      (record no_keys { keys = ("one", "key") ∷ [] })).0
    ≡ none
unfolding key_for lookup
key_for-stale_example =
    key_for-stale keys_as_texts (at 90000000 none) "one"
      (record no_keys { keys = ("one", "key") ∷ [] }) (omega arith) (omega arith)
