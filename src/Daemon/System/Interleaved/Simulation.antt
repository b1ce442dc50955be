-- ===== src/Daemon/System/Interleaved/Simulation.antt =====
-- src/bin/postfix-ratelimitd.rs: there is one reload worker at most, and so a reload in steps is a reload.
use mathlib.Core.Option.{some-injective}
use postfix_ratelimitd.Base.{
  ℕ, ◌==◌, zero, suc, ◌≡◌, ◌∙◌, refl, sym, ap, subst, Bool, true, false, List, [], ◌∷◌, ◌++◌, some,
  Outcome, inl, inr, Bool-cases, Option-cases,
}
use postfix_ratelimitd.Base.Text.{Text}
use postfix_ratelimitd.Config.Error.{ConfigError}
use postfix_ratelimitd.Config.Redis.{RedisApi}
use postfix_ratelimitd.Config.Rules.{RegexApi}
use postfix_ratelimitd.Config.Load.{Config, Files, returned, load}
use postfix_ratelimitd.Valkey.{Valkey}
use postfix_ratelimitd.Limiter.Connect.{Reach}
use postfix_ratelimitd.Daemon.Stats.{Journal}
use postfix_ratelimitd.Daemon.Reload.{RuntimeState, reload_config}
use postfix_ratelimitd.Daemon.Reload.Store.{store, store-reload_config}
use postfix_ratelimitd.Daemon.Reload.Worker.{MainTask}
use postfix_ratelimitd.Daemon.System.{
  take_at, System, Occurrence, receive, answer, hangup, elapse, answered, reloads, occur, occur_all,
  started,
}
use postfix_ratelimitd.Daemon.System.Interleaved.{
  Worker, starting, counted, fetched, done, leaving, Tasks, launched, swap_flag, finish_reload,
  look_again, IsOther, Step, other, sighup, claim, begin, fetch, finish, look, release, Run, here,
  then,
}

module _ (R : RedisApi) (X : RegexApi) (V : Valkey) where
  -- The state that a worker has loaded is the present one.
  abbrev pub IsCurrent : System R X V → Worker R X V → Type 0
  IsCurrent s (fetched generation seen) = seen ≡ s.current
  IsCurrent s _ = Unit {0}

  -- No worker and a clear flag, or one worker and a set flag.
  abbrev pub IsSolo : Bool → System R X V → List (Worker R X V) → Type 0
  IsSolo flag s [] = flag ≡ false
  IsSolo flag s (w ∷ []) = (flag ≡ true) × IsCurrent s w
  IsSolo flag s (v ∷ w ∷ ws) = ⊥

  abbrev pub AreSolo : Tasks R X V → Type 0
  AreSolo t = IsSolo t.in_progress t.system t.workers

  pub taken-IsSolo :
      (flag : Bool) (s : System R X V) (i : ℕ) (ws : List (Worker R X V)) (w : Worker R X V)
      (rest : List (Worker R X V))
      → IsSolo flag s ws
      → take_at i ws ≡ some (w, rest)
      → (flag ≡ true) × IsCurrent s w × (rest ≡ [])
  taken-IsSolo flag s i [] w rest solo e = absurd (cc)
  taken-IsSolo flag s zero (v ∷ []) w rest solo e =
      let same = some-injective (v, []) (w, rest) e in
      (solo.0, subst (IsCurrent s) (ap (λ p. p.0) same) solo.1, sym (ap (λ p. p.1) same))
  taken-IsSolo flag s (suc i) (v ∷ []) w rest solo e = absurd (cc)
  taken-IsSolo flag s i (v ∷ u ∷ ws) w rest solo e = absurd solo

  other-current :
      (s : System R X V) (o : Occurrence R X V)
      → IsOther R X V o
      → (occur R X V s o).current ≡ s.current
  unfolding occur answered
  other-current s (receive request) h = refl
  other-current s (answer i delivery) h = elim (Option-cases (take_at i s.in_flight)) [
    | inl e ↦ rw (e, occur) refl
    | inr (found, e) ↦ rw (e, occur) refl
  ]
  other-current s (hangup files path reach) h = absurd h
  other-current s (elapse seconds) h = refl

  moved-IsCurrent :
      (s after : System R X V) (w : Worker R X V)
      → after.current ≡ s.current
      → IsCurrent s w
      → IsCurrent after w
  moved-IsCurrent s after starting same h = h
  moved-IsCurrent s after (counted generation) same h = h
  moved-IsCurrent s after (fetched generation seen) same h = h ∙ sym same
  moved-IsCurrent s after (done generation) same h = h
  moved-IsCurrent s after leaving same h = h

  moved-IsSolo :
      (flag : Bool) (s after : System R X V) (ws : List (Worker R X V))
      → after.current ≡ s.current
      → IsSolo flag s ws
      → IsSolo flag after ws
  moved-IsSolo flag s after [] same h = h
  moved-IsSolo flag s after (w ∷ []) same h = (h.0, moved-IsCurrent s after w same h.1)
  moved-IsSolo flag s after (v ∷ w ∷ ws) same h = h

  -- Stated of the fields, so that the flag can be split on.
  swap_flag-simulates :
      (flag : Bool) (s : System R X V) (requests : ℕ) (main : MainTask) (ws : List (Worker R X V))
      (t : Tasks R X V)
      → t
        ≡ record { system = s; requests = requests; in_progress = flag; main = main; workers = ws }
      → IsSolo flag s ws
      → AreSolo (swap_flag R X V t) × ((swap_flag R X V t).system ≡ s)
  unfolding swap_flag
  swap_flag-simulates true s requests main ws t same h = rw same (h, refl)
  swap_flag-simulates false s requests main [] t same h = rw same ((refl, tt), refl)
  swap_flag-simulates false s requests main (w ∷ []) t same h = absurd (cc)
  swap_flag-simulates false s requests main (v ∷ w ∷ ws) t same h = absurd h

  look_again-IsCurrent :
      (s : System R X V) (generation requests : ℕ)
      → IsCurrent s (look_again R X V generation requests)
  look_again-IsCurrent s generation requests = elim (Bool-cases (requests == generation)) [
    | inl e ↦ rw e tt
    | inr e ↦ rw e tt
  ]

  -- The worker that takes a step goes on alone.
  goes_on :
      (flag : Bool) (s after : System R X V) (w : Worker R X V) (rest : List (Worker R X V))
      → flag ≡ true
      → rest ≡ []
      → IsCurrent after w
      → IsSolo flag after (w ∷ rest)
  goes_on flag s after w rest set alone h = rw alone (set, h)

  finish_reload-same :
      (loaded : Outcome ConfigError (Config R X)) (reach : Reach) (seen : RuntimeState R X)
      (s : System R X V) (files : Files R X) (path : Text)
      → load R X files path ≡ returned loaded
      → seen ≡ s.current
      → finish_reload R X V loaded reach seen s ≡ occur R X V s (hangup files path reach)
  unfolding finish_reload occur reloads
  finish_reload-same loaded reach seen s files path e same =
      ap (λ c. record s { current = c })
        (subst
          (λ c.
            store R X (reload_config R X loaded reach c) s.current
            ≡ (reload_config R X loaded reach s.current).1)
          (sym same) (store-reload_config R X loaded reach s.current))
      ∙ sym (ap (λ l. reloads R X V s l reach) e)

  step-simulates :
      (t u : Tasks R X V) (os : List (Occurrence R X V))
      → Step R X V t os u
      → AreSolo t
      → AreSolo u × (u.system ≡ occur_all R X V t.system os)
  unfolding occur_all
  step-simulates t _ _ (other o h) solo = (
    moved-IsSolo t.in_progress t.system (occur R X V t.system o) t.workers
        (other-current t.system o h) solo,
    refl,
  )
  step-simulates t _ _ (sighup e lt) solo = (solo, refl)
  step-simulates t _ _ (claim e) solo =
      swap_flag-simulates t.in_progress t.system t.requests t.main t.workers t refl solo
  step-simulates t _ _ (begin i rest e) solo =
      let (set, _, alone) = taken-IsSolo t.in_progress t.system i t.workers starting rest solo e in
      (goes_on t.in_progress t.system t.system (counted t.requests) rest set alone tt, refl)
  step-simulates t _ _ (fetch i g rest e) solo =
      let (set, _, alone) =
        taken-IsSolo t.in_progress t.system i t.workers (counted g) rest solo e in
      (
        goes_on t.in_progress t.system t.system (fetched g t.system.current) rest set alone refl,
        refl,
      )
  step-simulates t _ _ (finish i g rest seen files path reach loaded e is_loaded) solo =
      let (set, present, alone) =
        taken-IsSolo t.in_progress t.system i t.workers (fetched g seen) rest solo e in
      let after = finish_reload R X V loaded reach seen t.system in
      (
        goes_on t.in_progress t.system after (done g) rest set alone tt,
        finish_reload-same loaded reach seen t.system files path is_loaded present,
      )
  step-simulates t _ _ (look i g rest e) solo =
      let (set, _, alone) = taken-IsSolo t.in_progress t.system i t.workers (done g) rest solo e in
      (
        goes_on t.in_progress t.system t.system (look_again R X V g t.requests) rest set alone
            (look_again-IsCurrent t.system g t.requests),
        refl,
      )
  step-simulates t _ _ (release i rest e) solo =
      let (set, _, alone) = taken-IsSolo t.in_progress t.system i t.workers leaving rest solo e in
      (rw alone refl, refl)

  occur_all-append :
      (s : System R X V) (os more : List (Occurrence R X V))
      → occur_all R X V s (os ++ more) ≡ occur_all R X V (occur_all R X V s os) more
  unfolding occur_all
  occur_all-append s [] more = refl
  occur_all-append s (o ∷ os) more = occur_all-append (occur R X V s o) os more

  Run-simulates :
      (first t : Tasks R X V) (os : List (Occurrence R X V))
      → AreSolo first
      → Run R X V first os t
      → AreSolo t × (t.system ≡ occur_all R X V first.system os)
  unfolding occur_all
  Run-simulates first _ _ solo here = (solo, refl)
  Run-simulates first _ _ solo (then os more t u run step) =
      let (before, same) = Run-simulates first t os solo run in
      let (after, stepped) = step-simulates t u more step before in
      (
        after,
        stepped
            ∙ ap (λ s. occur_all R X V s more) same
            ∙ sym (occur_all-append first.system os more),
      )

  -- However SIGHUPs, the workers' steps, requests, answers and time interleave from startup on, at most
  -- one reload worker runs at a time, and one runs exactly while `reload_in_progress` is set; the state
  -- that it has loaded is still the present one when it stores; and the daemon is as if each reload were one
  -- step, at the moment at which it stores or gives up.
  pub Run-refines :
      (config : Config R X) (j : Journal) (t : Tasks R X V) (os : List (Occurrence R X V))
      → Run R X V (launched R X V config j) os t
      → AreSolo t × (t.system ≡ occur_all R X V (started R X V config j) os)
  Run-refines config j t os run = Run-simulates (launched R X V config j) t os refl run
