-- ===== src/Daemon/Reload.antt =====
-- src/state.rs and src/bin/postfix-ratelimitd.rs: `RuntimeState`, `same_redis_connection` and `reload_config`.
pub mod Worker
pub mod Store
use postfix_ratelimitd.Base.{
  ◌>>◌, ◌>>=◌, ◌≡◌, ◌⊎◌, Bool, true, false, not, ◌&&◌, ◌||◌, Option, none, some, Outcome, ok, err,
  refl, sym, ◌∙◌, arith, if◌then◌else◌, inl, inr, Bool-cases, Outcome-cases,
}
use postfix_ratelimitd.Base.Text.{Text, text_eq, text_eq_sound}
use postfix_ratelimitd.Config.Error.{ConfigError}
use postfix_ratelimitd.Config.Redis.{RedisApi, IsRedisApi}
use postfix_ratelimitd.Config.Rules.{RegexApi}
use postfix_ratelimitd.Config.Load.{Config}
use postfix_ratelimitd.Limiter.Connect.{Reach, LimiterError, connect_and_check}

-- `==` of optional paths
pub path_eq : Option Text → Option Text → Bool
path_eq none none = true
path_eq (some a) (some b) = text_eq a b
path_eq _ _ = false

path_eq_sound : (a b : Option Text) → path_eq a b ≡ true → a ≡ b
unfolding path_eq
path_eq_sound none none h = refl
path_eq_sound (some a) (some b) h = ground (arith, text_eq_sound a b h)
path_eq_sound none (some b) h = cc
path_eq_sound (some a) none h = cc

pub data ReloadOutcome : Type 0 where
  not_loaded : ConfigError → ReloadOutcome
  socket_changed control_socket_changed reloaded : ReloadOutcome
  not_connected : LimiterError → ReloadOutcome

module _ (R : RedisApi) (X : RegexApi) where
  -- What a limiter was built from.
  pub record Limiter : Type 0 where
    pub connection_info : R.Info
    pub key_prefix : Text

  pub record RuntimeState : Type 0 where
    pub config : Config R X
    pub limiter : Limiter

  -- Once `Limiter::new` has succeeded with the configuration's settings.
  abbrev pub initial_state : Config R X → RuntimeState
  initial_state config = record {
    config = config;
    limiter = record {
      connection_info = config.redis_connection_info;
      key_prefix = config.redis_key_prefix;
    };
  }

  unfoldable pub same_redis_connection : R.Info → R.Info → Bool
  same_redis_connection a b =
      let a_redis = R.redis_settings a in
      let b_redis = R.redis_settings b in
      R.same_addr a b
      && R.same_db a_redis b_redis
      && R.same_username a_redis b_redis
      && R.same_password a_redis b_redis
      && R.same_protocol a_redis b_redis

  -- `Limiter::new`
  pub new_limiter : Reach → R.Info → Text → Outcome LimiterError Limiter
  unfolding connect_and_check
  new_limiter reach connection_info key_prefix = do
    connect_and_check reach
    ok (record { connection_info = connection_info; key_prefix = key_prefix })

  pub store_reloaded :
      Config R X → Outcome LimiterError Limiter → RuntimeState → ReloadOutcome × RuntimeState
  store_reloaded config (err e) current = (not_connected e, current)
  store_reloaded config (ok limiter) current =
      (reloaded, record { config = config; limiter = limiter })

  pub needs_limiter : Config R X → Config R X → Bool
  unfolding same_redis_connection
  needs_limiter new_config old_config =
      not (same_redis_connection new_config.redis_connection_info old_config.redis_connection_info)
      || not (text_eq new_config.redis_key_prefix old_config.redis_key_prefix)

  -- `loaded` is what `Config::load` returns, and `reach` what a connection with the new
  -- settings meets.
  unfoldable pub reload_config :
      Outcome ConfigError (Config R X) → Reach → RuntimeState → ReloadOutcome × RuntimeState
  unfolding path_eq new_limiter store_reloaded needs_limiter
  reload_config (err e) reach current = (not_loaded e, current)
  reload_config (ok new_config) reach current =
      if not (text_eq new_config.socket current.config.socket)
      then (socket_changed, current)
      else if not (path_eq new_config.control_socket current.config.control_socket)
      then (control_socket_changed, current)
      else if needs_limiter new_config current.config
      then store_reloaded new_config
          (new_limiter reach new_config.redis_connection_info new_config.redis_key_prefix) current
      else store_reloaded new_config (ok current.limiter) current

  -- The limiter is one that the configuration's settings would build.
  pub record IsMatched (s : RuntimeState) : Type 0 where
    pub key_prefix : s.limiter.key_prefix ≡ s.config.redis_key_prefix
    pub connection :
        same_redis_connection s.config.redis_connection_info s.limiter.connection_info ≡ true

  pub same_trans :
      (laws : IsRedisApi R) (a b c : R.Info)
      → same_redis_connection a b ≡ true
      → same_redis_connection b c ≡ true
      → same_redis_connection a c ≡ true
  unfolding same_redis_connection
  same_trans laws a b c h k =
      let x = R.redis_settings a in
      let y = R.redis_settings b in
      let z = R.redis_settings c in
      let addr = laws.addr.2 a b c in
      let db = laws.db.2 x y z in
      let username = laws.username.2 x y z in
      let password = laws.password.2 x y z in
      let protocol = laws.protocol.2 x y z in
      ground (arith, addr, db, username, password, protocol, h, k)

  pub same_refl : (laws : IsRedisApi R) (a : R.Info) → same_redis_connection a a ≡ true
  unfolding same_redis_connection
  same_refl laws a =
      rw
        (
          laws.addr.0 a,
          laws.db.0 (R.redis_settings a),
          laws.username.0 (R.redis_settings a),
          laws.password.0 (R.redis_settings a),
          laws.protocol.0 (R.redis_settings a),
        )
        refl

  pub same_sym :
      (laws : IsRedisApi R) (a b : R.Info)
      → same_redis_connection a b ≡ true
      → same_redis_connection b a ≡ true
  unfolding same_redis_connection
  same_sym laws a b h =
      let x = R.redis_settings a in
      let y = R.redis_settings b in
      let addr = laws.addr.1 a b in
      let db = laws.db.1 x y in
      let username = laws.username.1 x y in
      let password = laws.password.1 x y in
      let protocol = laws.protocol.1 x y in
      ground (arith, addr, db, username, password, protocol, h)

  needs_limiter-kept :
      (a b : Config R X)
      → needs_limiter a b ≡ false
      → (same_redis_connection a.redis_connection_info b.redis_connection_info ≡ true)
        × (text_eq a.redis_key_prefix b.redis_key_prefix ≡ true)
  unfolding needs_limiter
  needs_limiter-kept a b h = ground (arith, h)

  pub reload_config-IsMatched :
      (laws : IsRedisApi R) (loaded : Outcome ConfigError (Config R X)) (reach : Reach)
      (current : RuntimeState)
      → IsMatched current
      → IsMatched (reload_config loaded reach current).1
        × ((reload_config loaded reach current).1.config.socket ≡ current.config.socket)
        × ((reload_config loaded reach current).1.config.control_socket
            ≡ current.config.control_socket)
        × (((reload_config loaded reach current).1 ≡ current)
            ⊎ (((reload_config loaded reach current).0 ≡ reloaded)
                × (loaded ≡ ok (reload_config loaded reach current).1.config)))
  unfolding reload_config new_limiter store_reloaded
  reload_config-IsMatched laws (err e) reach current m = (m, refl, refl, inl refl)
  reload_config-IsMatched laws (ok new_config) reach current m =
      elim (Bool-cases (text_eq new_config.socket current.config.socket)) [
        | inr e ↦ rw e (m, refl, refl, inl refl)
        | inl e ↦
            elim (Bool-cases (path_eq new_config.control_socket current.config.control_socket)) [
              | inr f ↦ rw (e, f) (m, refl, refl, inl refl)
              | inl f ↦
                  let socket = text_eq_sound _ _ e in
                  let control = path_eq_sound _ _ f in
                  elim (Bool-cases (needs_limiter new_config current.config)) [
                    | inl g ↦ elim (Outcome-cases (connect_and_check reach)) [
                      | inr (x, h) ↦ rw (e, f, g, h) (m, refl, refl, inl refl)
                      | inl (_, h) ↦
                          rw (e, f, g, h)
                            (
                              record {
                                key_prefix = refl;
                                connection = same_refl laws new_config.redis_connection_info;
                              },
                              socket,
                              control,
                              inr (refl, refl),
                            )
                    ]
                    | inr g ↦
                        let kept = needs_limiter-kept new_config current.config g in
                        rw (e, f, g)
                          (
                            record {
                              key_prefix = m.key_prefix ∙ sym (text_eq_sound _ _ kept.1);
                              connection =
                                  same_trans laws _ current.config.redis_connection_info _ kept.0
                                    m.connection;
                            },
                            socket,
                            control,
                            inr (refl, refl),
                          )
                  ]
            ]
      ]
