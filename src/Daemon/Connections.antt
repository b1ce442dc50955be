-- ===== src/Daemon/Connections.antt =====
-- src/bin/postfix-ratelimitd.rs: the accept loop's cap on concurrent connections and the shutdown, as
-- steps of the main task and of the connections that are served beside it.
pub mod Cap
pub mod Loop
use postfix_ratelimitd.Base.{
  Bool, true, false, ℕ, ◌+◌, ◌-◌, ◌≡◌, ◌≤◌, ◌<◌, refl, subst, arith, leb, if◌then◌else◌, Bool-cases,
  inl, inr,
}
use postfix_ratelimitd.Daemon.Stats.{
  connection_limit, connections_accepted, connections_rejected, accept_errors, Journal, count,
  log_throttled,
}

abbrev pub max_connections : ℕ
max_connections = 512

-- Which listener a connection came from.
pub data Accepted : Type 0 where
  policy control : Accepted

-- Whether the main task selects, has raised `ACTIVE_CONNECTIONS` from a number for a connection, waits
-- for the connections after a shutdown request, or has ended, with all of them done or at the timeout.
pub data MainTask : Type 0 where
  selecting : MainTask
  raised : Accepted → ℕ → MainTask
  draining drained timed_out : MainTask

abbrev pub is_running : MainTask → Bool
is_running drained = false
is_running timed_out = false
is_running _ = true

-- `served` is how many connections are being served, and `answering` how many of them are between a
-- request that they have read and its answer. Of the requests that were `taken`, some were `answered`
-- and for some the answer was `lost`.
pub record Daemon : Type 0 where
  pub active : ℕ
  pub served : ℕ
  pub main : MainTask
  pub journal : Journal
  pub answering : ℕ
  pub taken : ℕ
  pub answered : ℕ
  pub lost : ℕ

-- `fetch_add` of the counter, which remembers what it was
unfoldable pub raise : Accepted → Daemon → Daemon
raise source d = record d { active = d.active + 1; main = raised source d.active }

pub note_rejected : Accepted → Journal → Journal
note_rejected policy j = log_throttled connections_rejected connection_limit j
note_rejected control j = j

pub note_accepted : Accepted → Journal → Journal
note_accepted policy j = count connections_accepted j
note_accepted control j = j

-- The branch on the number before, and the spawn.
unfoldable pub decide : Accepted → ℕ → Daemon → Daemon
unfolding note_rejected note_accepted
decide source previous d =
    if leb max_connections previous
    then record d {
      active = d.active - 1;
      main = selecting;
      journal = note_rejected source d.journal;
    }
    else record d {
      served = d.served + 1;
      main = selecting;
      journal = note_accepted source d.journal;
    }

-- `ConnectionGuard::drop`
unfoldable pub drop_guard : Daemon → Daemon
drop_guard d = record d { active = d.active - 1; served = d.served - 1 }

-- A request is read, and its answer is written.
unfoldable pub take_request : Daemon → Daemon
take_request d = record d { answering = d.answering + 1; taken = d.taken + 1 }

unfoldable pub write_answer : Daemon → Daemon
write_answer d = record d { answering = d.answering - 1; answered = d.answered + 1 }

-- The answer cannot be written, or the task panics.
unfoldable pub lose_answer : Daemon → Daemon
unfolding drop_guard
lose_answer d = drop_guard (record d { answering = d.answering - 1; lost = d.lost + 1 })

pub data Step : Daemon → Daemon → Type 0 where
  arrive : (d : Daemon) (source : Accepted) → d.main ≡ selecting → Step d (raise source d)
  branch :
      (d : Daemon) (source : Accepted) (previous : ℕ)
      → d.main ≡ raised source previous
      → Step d (decide source previous d)
  fail :
      (d : Daemon)
      → d.main ≡ selecting
      → Step d (record d { journal = count accept_errors d.journal })
  take : (d : Daemon) → is_running d.main ≡ true → d.answering < d.served → Step d (take_request d)
  reply : (d : Daemon) → is_running d.main ≡ true → 0 < d.answering → Step d (write_answer d)
  lose : (d : Daemon) → is_running d.main ≡ true → 0 < d.answering → Step d (lose_answer d)
  -- The peer has closed, reading fails, or a connection that waits for a request sees the shutdown.
  close : (d : Daemon) → is_running d.main ≡ true → d.answering < d.served → Step d (drop_guard d)
  shut_down : (d : Daemon) → d.main ≡ selecting → Step d (record d { main = draining })
  finish : (d : Daemon) → d.main ≡ draining → d.served ≡ 0 → Step d (record d { main = drained })
  give_up : (d : Daemon) → d.main ≡ draining → Step d (record d { main = timed_out })

abbrev pub idle : Journal → Daemon
idle j = record {
  active = 0;
  served = 0;
  main = selecting;
  journal = j;
  answering = 0;
  taken = 0;
  answered = 0;
  lost = 0;
}

pub data Reachable (j : Journal) : Daemon → Type 0 where
  begin : Reachable j (idle j)
  then_step : (d e : Daemon) → Reachable j d → Step d e → Reachable j e
