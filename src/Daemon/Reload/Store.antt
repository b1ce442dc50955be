-- ===== src/Daemon/Reload/Store.antt =====
-- src/bin/postfix-ratelimitd.rs: which ends of `reload_config` store a state.
use postfix_ratelimitd.Base.{◌≡◌, refl, inl, inr, Outcome, ok, err, Bool-cases, Outcome-cases}
use postfix_ratelimitd.Base.Text.{text_eq}
use postfix_ratelimitd.Config.Error.{ConfigError}
use postfix_ratelimitd.Config.Redis.{RedisApi}
use postfix_ratelimitd.Config.Rules.{RegexApi}
use postfix_ratelimitd.Config.Load.{Config}
use postfix_ratelimitd.Limiter.Connect.{Reach, connect_and_check}
use postfix_ratelimitd.Daemon.Reload.{
  path_eq, ReloadOutcome, reloaded, RuntimeState, new_limiter, store_reloaded, needs_limiter,
  reload_config,
}

module _ (R : RedisApi) (X : RegexApi) where
  -- Only a reload that succeeds stores its state; any other leaves the one that is there.
  unfoldable pub store : ReloadOutcome × RuntimeState R X → RuntimeState R X → RuntimeState R X
  store (reloaded, new) present = new
  store (_, unchanged) present = present

  -- On the state that is there, it makes no difference.
  pub store-reload_config :
      (loaded : Outcome ConfigError (Config R X)) (reach : Reach) (c : RuntimeState R X)
      → store (reload_config R X loaded reach c) c ≡ (reload_config R X loaded reach c).1
  unfolding store reload_config store_reloaded new_limiter
  store-reload_config (err e) reach c = refl
  store-reload_config (ok config) reach c =
      elim (Bool-cases (text_eq config.socket c.config.socket)) [
        | inr e ↦ rw (e, store) refl
        | inl e ↦ elim (Bool-cases (path_eq config.control_socket c.config.control_socket)) [
          | inr f ↦ rw (e, f, store) refl
          | inl f ↦ elim (Bool-cases (needs_limiter R X config c.config)) [
            | inr g ↦ rw (e, f, g, store) refl
            | inl g ↦ elim (Outcome-cases (connect_and_check reach)) [
              | inl (_, h) ↦ rw (e, f, g, h, store) refl
              | inr (_, h) ↦ rw (e, f, g, h, store) refl
            ]
          ]
        ]
      ]
