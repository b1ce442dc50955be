-- ===== src/Examples/Reloading.antt =====
-- The SIGHUP arm and the reload worker of src/bin/postfix-ratelimitd.rs.
use postfix_ratelimitd.Base.{◌+◌, ◌≡◌, ◌<◌, refl, true, false, arith}
use postfix_ratelimitd.Daemon.Reload.Worker.{
  Reloading, absent, starting, loaded, reloaded, leaving, waiting, bumped, bump, swap, look_again,
  Reachable, at_start, begin, then_step, sighup, claim, load, reload, look, release,
  served_when_quiet,
}

-- One SIGHUP, and its worker from the spawn to the end.
abbrev hup : Reloading
hup = record at_start { requests = 1; main = bumped }

abbrev spawned : Reloading
spawned = record at_start { requests = 1; in_progress = true; phase = starting }

abbrev looking : Reloading
looking = record spawned { phase = loaded 1 }

abbrev did_reload : Reloading
did_reload = record spawned { phase = reloaded 1; served = 1 }

abbrev done : Reloading
done = record did_reload { phase = leaving }

abbrev over : Reloading
over = record did_reload { phase = absent; in_progress = false }

leaving-Reachable : Reachable done
unfolding bump swap look_again
leaving-Reachable =
    then_step did_reload done
      (then_step looking did_reload
        (then_step spawned looking
          (then_step hup spawned (then_step at_start hup begin (sighup at_start refl (omega arith)))
            (claim hup refl))
          (load spawned refl))
        (reload looking 1 refl))
      (look did_reload 1 refl)

over-Reachable : Reachable over
over-Reachable = then_step done over leaving-Reachable (release done refl)

served_when_quiet_example : (over.in_progress ≡ false) × (over.requests ≡ over.served + over.late)
served_when_quiet_example = served_when_quiet over over-Reachable refl refl

-- A SIGHUP between the worker's second look and its clearing of the flag: the daemon is at rest with
-- a request that no reload has served.
abbrev missed : Reloading
missed = record over { requests = 2; late = 1 }

abbrev late_hup : Reloading
late_hup = record done { requests = 2; main = bumped; late = 1 }

abbrev late_claim : Reloading
late_claim = record late_hup { main = waiting }

missed-Reachable :
    Reachable missed × (missed.served < missed.requests) × (missed.in_progress ≡ false)
unfolding bump swap
missed-Reachable = (
  then_step late_claim missed
      (then_step late_hup late_claim
        (then_step done late_hup leaving-Reachable (sighup done refl (omega arith)))
        (claim late_hup refl))
      (release late_claim refl),
  omega arith,
  refl,
)
