-- ===== src/Config/Redis.antt =====
-- What src/config.rs and src/bin/postfix-ratelimitd.rs use of the redis crate's `ConnectionInfo`.
use postfix_ratelimitd.Base.{ℤ, Bool, true, Option, ◌≡◌}
use postfix_ratelimitd.Base.Text.{Text}

-- `same_db` and the others are `==` on what the getters of that name return.
pub record RedisApi : Type 1 where
  pub Info : Type 0
  pub Settings : Type 0
  -- `str::into_connection_info`
  pub parse_url : Text → Option Info
  pub redis_settings : Info → Settings
  pub set_redis_settings : Settings → Info → Info
  pub set_db : ℤ → Settings → Settings
  pub password : Settings → Option Text
  pub set_password : Text → Settings → Settings
  pub same_addr : Info → Info → Bool
  pub same_db : Settings → Settings → Bool
  pub same_username : Settings → Settings → Bool
  pub same_password : Settings → Settings → Bool
  pub same_protocol : Settings → Settings → Bool

abbrev pub IsEquality : {A : Type 0} → (A → A → Bool) → Type 0
IsEquality {A} same =
    ((a : A) → same a a ≡ true)
    × ((a b : A) → same a b ≡ true → same b a ≡ true)
    × ((a b c : A) → same a b ≡ true → same b c ≡ true → same a c ≡ true)

-- The comparisons are equalities of the crate's types.
pub record IsRedisApi (R : RedisApi) : Type 0 where
  pub addr : IsEquality R.same_addr
  pub db : IsEquality R.same_db
  pub username : IsEquality R.same_username
  pub password : IsEquality R.same_password
  pub protocol : IsEquality R.same_protocol
