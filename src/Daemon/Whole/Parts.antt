-- ===== src/Daemon/Whole/Parts.antt =====
-- What a step of one part of src/bin/postfix-ratelimitd.rs does to the requests in flight.
use mathlib.Core.Option.{some-injective}
use postfix_ratelimitd.Base.{
  ℕ, zero, suc, ◌+◌, ◌≡◌, refl, ap, subst, List, [], ◌∷◌, Option, some, inl, inr, arith, length,
  Option-cases,
}
use postfix_ratelimitd.Config.Redis.{RedisApi}
use postfix_ratelimitd.Config.Rules.{RegexApi}
use postfix_ratelimitd.Valkey.{Valkey}
use postfix_ratelimitd.Limiter.Check.{Delivery}
use postfix_ratelimitd.Daemon.Connections as Connections
use postfix_ratelimitd.Daemon.Connections.{
  Daemon, drained, max_connections, raise, decide, take_request, write_answer, lose_answer,
  drop_guard, idle,
}
use postfix_ratelimitd.Daemon.System.{take_at, System, InFlight, answer, answered, occur}
use postfix_ratelimitd.Daemon.System.Interleaved as Interleaved
use postfix_ratelimitd.Daemon.System.Interleaved.{Tasks, launched, swap_flag, finish_reload}
use postfix_ratelimitd.Daemon.Whole.{IsOfMain, Happenings, IsSignal, IsWork}

pub IsOfMain-answering :
    (d e : Daemon) (step : Connections.Step d e) → IsOfMain step → e.answering ≡ d.answering
unfolding raise decide
IsOfMain-answering d _ (Connections.arrive _ source h) m = refl
IsOfMain-answering d _ (Connections.branch _ source previous h) m = ground arith
IsOfMain-answering d _ (Connections.fail _ h) m = refl
IsOfMain-answering d _ (Connections.shut_down _ h) m = refl
IsOfMain-answering d _ (Connections.finish _ h none_left) m = refl
IsOfMain-answering d _ (Connections.give_up _ h) m = refl
IsOfMain-answering d _ (Connections.take _ _ _) m = absurd m
IsOfMain-answering d _ (Connections.reply _ _ _) m = absurd m
IsOfMain-answering d _ (Connections.lose _ _ _) m = absurd m
IsOfMain-answering d _ (Connections.close _ _ _) m = absurd m

module _ {A : Type 0} where
  pub empty_of_length : (xs : List A) → length xs ≡ 0 → xs ≡ []
  empty_of_length [] e = refl
  empty_of_length (x ∷ xs) e = absurd (omega (arith, e))

  pub length-take_at :
      (i : ℕ) (xs : List A) (found : A × List A)
      → take_at i xs ≡ some found
      → length xs ≡ length found.1 + 1
  length-take_at i [] found e = absurd (cc)
  length-take_at zero (x ∷ xs) found e =
      subst (λ f. suc (length xs) ≡ length f.1 + 1) (some-injective (x, xs) found e) (omega arith)
  length-take_at (suc i) (x ∷ xs) found e = elim (Option-cases (take_at i xs)) [
    | inl f ↦ absurd ground (arith, e, f)
    | inr (g, f) ↦
        let shorter = length-take_at i xs g f in
        let same : ◌≡◌ {A = Option (A × List A)} (some (g.0, x ∷ g.1)) (some found) =
          ground (arith, e, f) in
        subst (λ r. suc (length xs) ≡ length r.1 + 1) (some-injective _ found same)
          (omega (arith, shorter))
  ]

module _ (R : RedisApi) (X : RegexApi) (V : Valkey) where
  swap_flag-system : (t : Tasks R X V) → (swap_flag R X V t).system ≡ t.system
  unfolding swap_flag
  swap_flag-system t = ground arith

  pub IsSignal-in_flight :
      (t u : Tasks R X V) (os : Happenings R X V) (step : Interleaved.Step R X V t os u)
      → IsSignal R X V step
      → u.system.in_flight ≡ t.system.in_flight
  IsSignal-in_flight t _ _ (Interleaved.sighup h lt) m = refl
  IsSignal-in_flight t _ _ (Interleaved.claim h) m = ap (λ s. s.in_flight) (swap_flag-system t)
  IsSignal-in_flight t _ _ (Interleaved.other o _) m = absurd m
  IsSignal-in_flight t _ _ (Interleaved.begin i rest _) m = absurd m
  IsSignal-in_flight t _ _ (Interleaved.fetch i g rest _) m = absurd m
  IsSignal-in_flight t _ _ (Interleaved.finish i g rest seen files path reach loaded _ _) m =
      absurd m
  IsSignal-in_flight t _ _ (Interleaved.look i g rest _) m = absurd m
  IsSignal-in_flight t _ _ (Interleaved.release i rest _) m = absurd m

  pub IsWork-in_flight :
      (t u : Tasks R X V) (os : Happenings R X V) (step : Interleaved.Step R X V t os u)
      → IsWork R X V step
      → u.system.in_flight ≡ t.system.in_flight
  unfolding finish_reload
  IsWork-in_flight t _ _ (Interleaved.begin i rest h) m = refl
  IsWork-in_flight t _ _ (Interleaved.fetch i g rest h) m = refl
  IsWork-in_flight t _ _ (Interleaved.finish i g rest seen files path reach loaded h e) m = refl
  IsWork-in_flight t _ _ (Interleaved.look i g rest h) m = refl
  IsWork-in_flight t _ _ (Interleaved.release i rest h) m = refl
  IsWork-in_flight t _ _ (Interleaved.other o _) m = absurd m
  IsWork-in_flight t _ _ (Interleaved.sighup _ _) m = absurd m
  IsWork-in_flight t _ _ (Interleaved.claim _) m = absurd m

  pub occur-answer :
      (s : System R X V) (i : ℕ) (delivery : Delivery)
      (found : InFlight R X V × List (InFlight R X V))
      → take_at i s.in_flight ≡ some found
      → (occur R X V s (answer i delivery)).in_flight ≡ found.1
  unfolding occur answered
  occur-answer s i delivery found e = rw (e, occur) refl
