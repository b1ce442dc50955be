-- ===== src/Daemon/Reload/Worker.antt =====
-- src/bin/postfix-ratelimitd.rs: the main loop's SIGHUP arm and the reload worker that it spawns, as
-- steps of two tasks that share `reload_requests` and `reload_in_progress`.
use postfix_ratelimitd.Base.{
  ℕ, ◌+◌, ◌≡◌, ◌<◌, inl, inr, Bool, true, false, refl, subst, arith, ◌==◌, if◌then◌else◌,
  Bool-cases,
}

-- Where the worker is: not spawned, before its load of the counter, before `reload_config`, before
-- its second look at the counter, or before it clears the flag.
pub data Phase : Type 0 where
  absent starting : Phase
  loaded reloaded : ℕ → Phase
  leaving : Phase

-- Whether the main task has raised the counter for a SIGHUP and not yet swapped the flag.
pub data MainTask : Type 0 where
  waiting bumped : MainTask

-- `served` is how many of the requests came before the last start of `reload_config`, and `late` how
-- many came, since the last load of the counter, while the worker was about to clear the flag.
pub record Reloading : Type 0 where
  pub requests : ℕ
  pub in_progress : Bool
  pub phase : Phase
  pub main : MainTask
  pub served : ℕ
  pub late : ℕ

abbrev pub at_start : Reloading
at_start = record {
  requests = 0;
  in_progress = false;
  phase = absent;
  main = waiting;
  served = 0;
  late = 0;
}

abbrev pub is_leaving : Phase → Bool
is_leaving leaving = true
is_leaving _ = false

-- `fetch_add` of the counter, which does not wrap before 2^64 requests
unfoldable pub bump : Reloading → Reloading
bump s = record s {
  requests = s.requests + 1;
  main = bumped;
  late = if is_leaving s.phase then s.late + 1 else s.late;
}

-- `swap` of the flag, and the spawn
unfoldable pub swap : Reloading → Reloading
swap s =
    if s.in_progress
    then record s { main = waiting }
    else record s { main = waiting; in_progress = true; phase = starting }

-- The worker's second look
unfoldable pub look_again : ℕ → Reloading → Reloading
look_again generation s = record s {
  phase = if s.requests == generation then leaving else starting;
}

-- One atomic step of either task.
pub data Step : Reloading → Reloading → Type 0 where
  sighup : (s : Reloading) → s.main ≡ waiting → s.requests < 18446744073709551615 → Step s (bump s)
  claim : (s : Reloading) → s.main ≡ bumped → Step s (swap s)
  load :
      (s : Reloading)
      → s.phase ≡ starting
      → Step s (record s { phase = loaded s.requests; late = 0 })
  reload :
      (s : Reloading) (generation : ℕ)
      → s.phase ≡ loaded generation
      → Step s (record s { phase = reloaded generation; served = generation })
  look :
      (s : Reloading) (generation : ℕ)
      → s.phase ≡ reloaded generation
      → Step s (look_again generation s)
  release :
      (s : Reloading)
      → s.phase ≡ leaving
      → Step s (record s { phase = absent; in_progress = false })

pub data Reachable : Reloading → Type 0 where
  begin : Reachable at_start
  then_step : (s t : Reloading) → Reachable s → Step s t → Reachable t

-- What each phase knows; an absent worker only while the main task waits.
abbrev InPhase : Reloading → Phase → MainTask → Type 0
InPhase s absent waiting = (s.in_progress ≡ false) × (s.requests ≡ s.served + s.late)
InPhase s absent bumped = s.in_progress ≡ false
InPhase s starting m = s.in_progress ≡ true
InPhase s (loaded g) m = (s.in_progress ≡ true) × (s.late ≡ 0)
InPhase s (reloaded g) m = (s.in_progress ≡ true) × (s.late ≡ 0) × (g ≡ s.served)
InPhase s leaving m = (s.in_progress ≡ true) × (s.requests ≡ s.served + s.late)

abbrev Inv : Reloading → Type 0
Inv s = InPhase s s.phase s.main

-- Stated of the fields, so that each can be split on.
bump-Inv :
    (r : ℕ) (f : Bool) (p : Phase) (served late : ℕ)
    → Inv (record {
      requests = r;
      in_progress = f;
      phase = p;
      main = waiting;
      served = served;
      late = late;
    })
    → Inv (
        bump (record {
          requests = r;
          in_progress = f;
          phase = p;
          main = waiting;
          served = served;
          late = late;
        }))
unfolding bump
bump-Inv r f absent served late v = v.0
bump-Inv r f starting served late v = v
bump-Inv r f (loaded g) served late v = v
bump-Inv r f (reloaded g) served late v = v
bump-Inv r f leaving served late v = (v.0, omega (arith, v.1))

swap-Inv :
    (r : ℕ) (f : Bool) (p : Phase) (served late : ℕ)
    → Inv (record {
      requests = r;
      in_progress = f;
      phase = p;
      main = bumped;
      served = served;
      late = late;
    })
    → Inv (
        swap (record {
          requests = r;
          in_progress = f;
          phase = p;
          main = bumped;
          served = served;
          late = late;
        }))
unfolding swap
swap-Inv r true absent served late v = absurd (cc)
swap-Inv r true starting served late v = refl
swap-Inv r true (loaded g) served late v = v
swap-Inv r true (reloaded g) served late v = v
swap-Inv r true leaving served late v = v
swap-Inv r false absent served late v = refl
swap-Inv r false starting served late v = refl
swap-Inv r false (loaded g) served late v = refl
swap-Inv r false (reloaded g) served late v = refl
swap-Inv r false leaving served late v = refl

look-Inv : (s : Reloading) (g : ℕ) → InPhase s (reloaded g) s.main → Inv (look_again g s)
unfolding look_again
look-Inv s g v = elim (Bool-cases (s.requests == g)) [
  | inl e ↦ rw e (v.0, ground (arith, e, v))
  | inr e ↦ rw e v.0
]

release-Inv :
    (s : Reloading) (m : MainTask)
    → InPhase s leaving s.main
    → InPhase (record s { phase = absent; in_progress = false }) absent m
release-Inv s waiting v = (refl, v.1)
release-Inv s bumped v = refl

step-Inv : (s t : Reloading) → Step s t → Inv s → Inv t
unfolding bump swap
step-Inv _ _ (sighup s e lt) v =
    bump-Inv s.requests s.in_progress s.phase s.served s.late (subst (λ m. InPhase s s.phase m) e v)
step-Inv _ _ (claim s e) v =
    swap-Inv s.requests s.in_progress s.phase s.served s.late (subst (λ m. InPhase s s.phase m) e v)
step-Inv _ _ (load s e) v = (subst (λ p. InPhase s p s.main) e v, refl)
step-Inv _ _ (reload s g e) v =
    let known = subst (λ p. InPhase s p s.main) e v in (known.0, known.1, refl)
step-Inv _ _ (look s g e) v = look-Inv s g (subst (λ p. InPhase s p s.main) e v)
step-Inv _ _ (release s e) v = release-Inv s s.main (subst (λ p. InPhase s p s.main) e v)

Reachable-Inv : (s : Reloading) → Reachable s → Inv s
Reachable-Inv _ begin = (refl, omega arith)
Reachable-Inv _ (then_step s t r step) = step-Inv s t step (Reachable-Inv s r)

-- When no worker is left and the main task waits, the next SIGHUP can spawn a worker, and the SIGHUPs
-- so far are those that came before the last load of the counter, which a reload followed, and those,
-- if any, that came after it while that worker was between its second look at the counter and its
-- clearing of the flag: no other SIGHUP goes without a reload.
pub served_when_quiet :
    (s : Reloading)
    → Reachable s
    → s.phase ≡ absent
    → s.main ≡ waiting
    → (s.in_progress ≡ false) × (s.requests ≡ s.served + s.late)
served_when_quiet s r gone quiet =
    let v = Reachable-Inv s r in
    subst (λ m. InPhase s absent m) quiet (subst (λ p. InPhase s p s.main) gone v)
