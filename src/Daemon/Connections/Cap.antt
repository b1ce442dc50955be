-- ===== src/Daemon/Connections/Cap.antt =====
-- The cap of src/bin/postfix-ratelimitd.rs on connections holds, and a shutdown drops no request.
use postfix_ratelimitd.Base.{
  true, ℕ, ◌+◌, ◌≡◌, ◌≤◌, ◌<◌, refl, subst, arith, leb, Bool-cases, inl, inr,
}
use postfix_ratelimitd.Daemon.Stats.{accept_errors, Journal, count}
use postfix_ratelimitd.Daemon.Connections.{
  Accepted, max_connections, MainTask, selecting, raised, draining, drained, timed_out, is_running,
  Daemon, raise, decide, drop_guard, take_request, write_answer, lose_answer, Step, arrive, branch,
  fail, take, reply, lose, close, shut_down, finish, give_up, Reachable, begin, then_step,
}

abbrev InTask : Daemon → MainTask → Type 0
InTask d selecting = d.active ≡ d.served
InTask d (raised source previous) = (d.active ≡ d.served + 1) × (d.served ≤ previous)
InTask d draining = d.active ≡ d.served
InTask d drained = (d.active ≡ d.served) × (d.served ≡ 0)
InTask d timed_out = d.active ≡ d.served

-- Whatever the main task does.
record IsCounted (d : Daemon) : Type 0 where
  capped : d.served ≤ 512
  within : d.answering ≤ d.served
  sums : d.taken ≡ d.answered + d.lost + d.answering
  task : InTask d d.main

decide-IsCounted :
    (d : Daemon) (source : Accepted) (previous : ℕ)
    → InTask d (raised source previous)
    → IsCounted d
    → IsCounted (decide source previous d)
unfolding decide
decide-IsCounted d source previous v h = elim (Bool-cases (leb max_connections previous)) [
  | inl e ↦
      rw e
        (record { capped = h.capped; within = h.within; sums = h.sums; task = omega (arith, v.0) })
  | inr e ↦ rw e (record {
    capped = ground (arith, e, v.1);
    within = omega (arith, h.within);
    sums = h.sums;
    task = omega (arith, v.0);
  })
]

-- A connection ends.
drop-InTask :
    (d : Daemon) (m : MainTask)
    → is_running m ≡ true
    → 0 < d.served
    → InTask d m
    → InTask (drop_guard d) m
unfolding drop_guard
drop-InTask d selecting r h v = omega (arith, v)
drop-InTask d (raised source previous) r h v = (omega (arith, v.0), omega (arith, v.1))
drop-InTask d draining r h v = omega (arith, v)
drop-InTask d drained r h v = cc
drop-InTask d timed_out r h v = cc

-- The main task is not concerned with answers.
answer-InTask :
    (d e : Daemon) (m : MainTask)
    → d.active ≡ e.active
    → d.served ≡ e.served
    → InTask d m
    → InTask e m
answer-InTask d e selecting a s v = omega (arith, a, s, v)
answer-InTask d e (raised source previous) a s v = (omega (arith, a, s, v.0), omega (arith, s, v.1))
answer-InTask d e draining a s v = omega (arith, a, s, v)
answer-InTask d e drained a s v = (omega (arith, a, s, v.0), omega (arith, s, v.1))
answer-InTask d e timed_out a s v = omega (arith, a, s, v)

step-IsCounted : (d e : Daemon) → Step d e → IsCounted d → IsCounted e
unfolding raise drop_guard take_request write_answer lose_answer
step-IsCounted _ _ (arrive d source e) h =
    let v = subst (λ m. InTask d m) e h.task in
    record {
      capped = h.capped;
      within = h.within;
      sums = h.sums;
      task = (omega (arith, v), omega (arith, v));
    }
step-IsCounted _ _ (branch d source previous e) h =
    decide-IsCounted d source previous (subst (λ m. InTask d m) e h.task) h
step-IsCounted _ _ (fail d e) h = record {
  capped = h.capped;
  within = h.within;
  sums = h.sums;
  task =
      answer-InTask d (record d { journal = count accept_errors d.journal }) d.main refl refl
        h.task;
}
step-IsCounted _ _ (take d r lt) h = record {
  capped = h.capped;
  within = omega (arith, lt);
  sums = omega (arith, h.sums);
  task = answer-InTask d (take_request d) d.main refl refl h.task;
}
step-IsCounted _ _ (reply d r lt) h = record {
  capped = h.capped;
  within = omega (arith, h.within);
  sums = omega (arith, h.sums, lt);
  task = answer-InTask d (write_answer d) d.main refl refl h.task;
}
step-IsCounted _ _ (lose d r lt) h = record {
  capped = omega (arith, h.capped);
  within = omega (arith, h.within, lt);
  sums = omega (arith, h.sums, lt);
  task =
      answer-InTask (drop_guard d) (lose_answer d) d.main refl refl
        (drop-InTask d d.main r (omega (arith, lt, h.within)) h.task);
}
step-IsCounted _ _ (close d r lt) h = record {
  capped = omega (arith, h.capped);
  within = omega (arith, lt);
  sums = h.sums;
  task = drop-InTask d d.main r (omega (arith, lt)) h.task;
}
step-IsCounted _ _ (shut_down d e) h = record {
  capped = h.capped;
  within = h.within;
  sums = h.sums;
  task = subst (λ m. InTask d m) e h.task;
}
step-IsCounted _ _ (finish d e none_left) h = record {
  capped = h.capped;
  within = h.within;
  sums = h.sums;
  task = (subst (λ m. InTask d m) e h.task, none_left);
}
step-IsCounted _ _ (give_up d e) h = record {
  capped = h.capped;
  within = h.within;
  sums = h.sums;
  task = subst (λ m. InTask d m) e h.task;
}

Reachable-IsCounted : {j : Journal} (d : Daemon) → Reachable j d → IsCounted d
Reachable-IsCounted _ begin = record {
  capped = omega arith;
  within = omega arith;
  sums = refl;
  task = refl;
}
Reachable-IsCounted _ (then_step d e r step) = step-IsCounted d e step (Reachable-IsCounted d r)

pub answering-le-served : (j : Journal) (d : Daemon) → Reachable j d → d.answering ≤ d.served
answering-le-served j d r = (Reachable-IsCounted d r).within

-- The counts, from the steps of the main task and the connections alone
pub connections-le-max :
    (j : Journal) (d : Daemon)
    → Reachable j d
    → (d.served ≤ max_connections)
      × (d.served ≤ d.active)
      × (d.active ≤ d.served + 1)
      × (d.taken ≡ d.answered + d.lost + d.answering)
      × (d.main ≡ drained → d.taken ≡ d.answered + d.lost)
connections-le-max j d r =
    let h = Reachable-IsCounted d r in
    let b = bounds d.main h.task in
    (
      h.capped,
      b.0,
      b.1,
      h.sums,
      λ e. let v = subst (λ m. InTask d m) e h.task in omega (arith, h.sums, h.within, v.1),
    )
  where
    bounds : (m : MainTask) → InTask d m → (d.served ≤ d.active) × (d.active ≤ d.served + 1)
    bounds selecting v = (omega (arith, v), omega (arith, v))
    bounds (raised source previous) v = (omega (arith, v.0), omega (arith, v.0))
    bounds draining v = (omega (arith, v), omega (arith, v))
    bounds drained v = (omega (arith, v.0), omega (arith, v.0))
    bounds timed_out v = (omega (arith, v), omega (arith, v))
