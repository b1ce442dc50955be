-- ===== src/Daemon/System/Interleaved/Requests.antt =====
-- src/bin/postfix-ratelimitd.rs: a run of the daemon, seen from the counter and the flag alone, is a run
-- of the main loop's SIGHUP arm and its worker.
use postfix_ratelimitd.Base.{
  ℕ, zero, suc, arith, ◌==◌, ◌≡◌, ◌+◌, refl, ap, subst, Bool, true, false, List, [], ◌∷◌, some, inl,
  inr, Bool-cases,
}
use postfix_ratelimitd.Config.Redis.{RedisApi}
use postfix_ratelimitd.Config.Rules.{RegexApi}
use postfix_ratelimitd.Config.Load.{Config}
use postfix_ratelimitd.Valkey.{Valkey}
use postfix_ratelimitd.Daemon.Stats.{Journal}
use postfix_ratelimitd.Daemon.Reload.Worker.{
  Phase, absent, loaded, reloaded, MainTask, waiting, Reloading, Reachable, then_step, is_leaving,
  bump, swap, served_when_quiet,
}
use postfix_ratelimitd.Daemon.Reload.Worker as Sighup
use postfix_ratelimitd.Daemon.System.{take_at, System, Occurrence}
use postfix_ratelimitd.Daemon.System.Interleaved.{
  Worker, starting, counted, fetched, done, leaving, Tasks, launched, swap_flag, look_again, Step,
  other, sighup, claim, begin, fetch, finish, look, release, Run, here, then,
}
use postfix_ratelimitd.Daemon.System.Interleaved.Simulation.{
  IsSolo, AreSolo, taken-IsSolo, Run-refines,
}

module _ (R : RedisApi) (X : RegexApi) (V : Valkey) where
  abbrev phase_of : Worker R X V → Phase
  phase_of starting = Phase.starting
  phase_of (counted g) = loaded g
  phase_of (fetched g seen) = loaded g
  phase_of (done g) = reloaded g
  phase_of leaving = Phase.leaving

  abbrev phase_among : List (Worker R X V) → Phase
  phase_among [] = absent
  phase_among (w ∷ ws) = phase_of w

  abbrev seen_as : Tasks R X V → ℕ → ℕ → Reloading
  seen_as t served late = record {
    requests = t.requests;
    in_progress = t.in_progress;
    phase = phase_among t.workers;
    main = t.main;
    served = served;
    late = late;
  }

  -- Some number was served, and some came late.
  abbrev IsSeen : Tasks R X V → Type 0
  IsSeen t = (served : ℕ) × (late : ℕ) × Reachable (seen_as t served late)

  -- The phase of a worker that is taken is the one that is seen.
  taken-phase :
      (t : Tasks R X V) (i : ℕ) (w : Worker R X V) (rest : List (Worker R X V))
      → AreSolo R X V t
      → take_at i t.workers ≡ some (w, rest)
      → phase_among t.workers ≡ phase_of w
  taken-phase t i w rest solo e = alone t.workers i solo e
    where
      alone :
          (ws : List (Worker R X V)) (i : ℕ)
          → IsSolo R X V t.in_progress t.system ws
          → take_at i ws ≡ some (w, rest)
          → phase_among ws ≡ phase_of w
      alone [] i h e = absurd (cc)
      alone (v ∷ []) zero h e = ap phase_of (ground (arith, e))
      alone (v ∷ []) (suc i) h e = absurd (cc)
      alone (v ∷ u ∷ ws) i h e = absurd h

  -- Stated of the fields, so that the flag can be split on.
  swap-seen :
      (t : Tasks R X V) (flag : Bool) (s : System R X V) (requests : ℕ) (main : MainTask)
      (ws : List (Worker R X V)) (served late : ℕ)
      → t
        ≡ record { system = s; requests = requests; in_progress = flag; main = main; workers = ws }
      → swap (seen_as t served late) ≡ seen_as (swap_flag R X V t) served late
  unfolding swap swap_flag
  swap-seen t true s requests main ws served late same = rw same refl
  swap-seen t false s requests main ws served late same = rw same refl

  look_again-seen :
      (t : Tasks R X V) (g : ℕ) (rest : List (Worker R X V)) (served late : ℕ)
      → Sighup.look_again g (seen_as t served late)
        ≡ seen_as (record t { workers = look_again R X V g t.requests ∷ rest }) served late
  unfolding Sighup.look_again
  look_again-seen t g rest served late = elim (Bool-cases (t.requests == g)) [
    | inl e ↦ rw (e, Sighup.look_again) refl
    | inr e ↦ rw (e, Sighup.look_again) refl
  ]

  step-IsSeen :
      (t u : Tasks R X V) (os : List (Occurrence R X V))
      → Step R X V t os u
      → AreSolo R X V t
      → IsSeen t
      → IsSeen u
  unfolding bump swap swap_flag
  step-IsSeen t _ _ (other o h) solo seen = seen
  step-IsSeen t _ _ (sighup e lt) solo (served, late, r) =
      let before = seen_as t served late in
      (served, _, then_step before (bump before) r (Sighup.sighup before e lt))
  step-IsSeen t _ _ (claim e) solo (served, late, r) =
      let before = seen_as t served late in
      let after = then_step before (swap before) r (Sighup.claim before e) in
      (
        served,
        late,
        subst Reachable
            (swap-seen t t.in_progress t.system t.requests t.main t.workers served late refl) after,
      )
  step-IsSeen t _ _ (begin i rest e) solo (served, late, r) =
      let before = seen_as t served late in
      let phase = taken-phase t i starting rest solo e in
      (served, 0, then_step before _ r (Sighup.load before phase))
  step-IsSeen t _ _ (fetch i g rest e) solo (served, late, r) =
      let phase = taken-phase t i (counted g) rest solo e in
      (served, late, subst (λ p. Reachable (record (seen_as t served late) { phase = p })) phase r)
  step-IsSeen t _ _ (finish i g rest now files path reach got e is_loaded) solo (served, late, r) =
      let before = seen_as t served late in
      let phase = taken-phase t i (fetched g now) rest solo e in
      (g, late, then_step before _ r (Sighup.reload before g phase))
  step-IsSeen t _ _ (look i g rest e) solo (served, late, r) =
      let before = seen_as t served late in
      let phase = taken-phase t i (done g) rest solo e in
      let after = then_step before (Sighup.look_again g before) r (Sighup.look before g phase) in
      (served, late, subst Reachable (look_again-seen t g rest served late) after)
  step-IsSeen t _ _ (release i rest e) solo (served, late, r) =
      let before = seen_as t served late in
      let phase = taken-phase t i leaving rest solo e in
      let (_, _, alone) =
        taken-IsSolo R X V t.in_progress t.system i t.workers leaving rest solo e in
      let after = then_step before _ r (Sighup.release before phase) in
      (served, late, rw alone after)

  Run-IsSeen :
      (config : Config R X) (j : Journal) (t : Tasks R X V) (os : List (Occurrence R X V))
      → Run R X V (launched R X V config j) os t
      → IsSeen t
  Run-IsSeen config j _ _ here = (0, 0, Sighup.begin)
  Run-IsSeen config j _ _ (then os more t u run step) =
      step-IsSeen t u more step (Run-refines R X V config j t os run).0
        (Run-IsSeen config j t os run)

  -- While the daemon is at rest, with no reload worker and no SIGHUP half taken in, the next SIGHUP
  -- spawns a worker, and in the run of the SIGHUP arm that is seen, every SIGHUP was served by a reload
  -- that started after it or came between the last worker's second look and its clearing of the flag.
  Run-served :
      (config : Config R X) (j : Journal) (t : Tasks R X V) (os : List (Occurrence R X V))
      → Run R X V (launched R X V config j) os t
      → t.workers ≡ []
      → t.main ≡ waiting
      → (t.in_progress ≡ false)
        × ((served : ℕ) × (late : ℕ) × Reachable (seen_as t served late)
            × (t.requests ≡ served + late))
  Run-served config j t os run gone quiet =
      let (served, late, r) = Run-IsSeen config j t os run in
      let (clear, within) =
        served_when_quiet (seen_as t served late) r (ap phase_among gone) quiet in
      (clear, (served, late, r, within))
