-- ===== src/Security/Budgets.antt =====
-- The hourly budgets of board creation by machine clients, `spend` in server/app.ts. Each read of the
-- clock is a time of its own.
use collaborative_ai_whitebo.Prelude.{ℕ, String, Bool, if◌then◌else◌}
use collaborative_ai_whitebo.Security.RateLimiter.{Attempts, allow, would_allow}

pub record Limiter : Type 0 where
  pub limit : ℕ
  pub window_ms : ℕ

-- What `agentBoardCredentialLimiter` and `agentBoardOwnerLimiter` have recorded.
pub record Budgets : Type 0 where
  pub credential : Attempts
  pub owner : Attempts

pub data Spent : Type 0 where
  ok credential_limit owner_limit : Spent

-- A call, with the clock at the two `wouldAllow` and at the two `allow`.
pub record Spend : Type 0 where
  pub client_name : String
  pub owner_user_id : String
  pub credential_check : ℕ
  pub owner_check : ℕ
  pub credential_charge : ℕ
  pub owner_charge : ℕ

abbrev pub prefixed : String → String → String
prefixed String.[] s = s
prefixed (String.◌∷◌ c cs) s = String.◌∷◌ c (prefixed cs s)

abbrev pub credential_key : Spend → String
credential_key s = prefixed "credential:" s.client_name

abbrev pub owner_key : Spend → String
owner_key s = prefixed "owner:" s.owner_user_id

module _ (c o : Limiter) where
  -- Both limiters record the call. What `allow` answers is not looked at.
  unfoldable pub charge : Spend → Budgets → Budgets
  unfolding allow
  charge s b = record {
    credential = (allow c.limit c.window_ms (credential_key s) s.credential_charge b.credential).1;
    owner = (allow o.limit o.window_ms (owner_key s) s.owner_charge b.owner).1;
  }

  abbrev pub spare_credential : Spend → Budgets → Bool
  unfolding would_allow
  spare_credential s b =
      would_allow c.limit c.window_ms (credential_key s) s.credential_check b.credential

  abbrev pub spare_owner : Spend → Budgets → Bool
  unfolding would_allow
  spare_owner s b = would_allow o.limit o.window_ms (owner_key s) s.owner_check b.owner

  unfoldable pub spend : Spend → Budgets → Spent × Budgets
  unfolding would_allow charge
  spend s b =
      if spare_credential s b
      then (if spare_owner s b then (ok, charge s b) else (owner_limit, b))
      else (credential_limit, b)
