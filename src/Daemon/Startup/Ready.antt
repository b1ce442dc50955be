-- ===== src/Daemon/Startup/Ready.antt =====
-- What a start of src/bin/postfix-ratelimitd.rs that succeeds leaves: locks, a server, listeners.
use postfix_ratelimitd.Base.{
  ℕ, ◌≡◌, ◌∙◌, ap, refl, none, sym, Bool, true, false, Option, some, ok, [],
}
use postfix_ratelimitd.Base.Text.{Text, text_eq}
use postfix_ratelimitd.Limiter.Connect.{Reach, connect_and_check}
use postfix_ratelimitd.Daemon.Startup.{
  live, Host, Faults, lock_path, optional, startup, socket_mode, control_socket_mode, lock_at,
  connect_and_bind, lock_control_and_go,
}
use postfix_ratelimitd.Daemon.Startup.Locking.{
  acquire_startup_lock-IsLocked, optional-IsControlLocked,
}
use postfix_ratelimitd.Daemon.Startup.Binding.{and_next-ok, connect_and_bind-IsBound}

was_false : (a b : Bool) → (a ≡ true → b ≡ true) → b ≡ false → a ≡ false
was_false true b h k = sym (h refl) ∙ k
was_false false b h k = refl

-- The lock is held, and the path has a listener of this mode; whoever listened there before could not
-- be connected to.
pub record Listens (faults : Text → Faults) (socket : Text) (mode : ℕ) (before after : Host)
    : Type 0 where
  pub free : before.locked (lock_path socket) ≡ false
  pub held : after.locked (lock_path socket) ≡ true
  pub unused : (m : ℕ) → before.node socket ≡ live m → (faults socket).connect_fails ≡ true
  pub listening : after.node socket ≡ live mode

-- The control socket, if there is one
abbrev pub ControlListens : (Text → Faults) → Option Text → Host → Host → Type 0
ControlListens faults none before after = Unit {0}
ControlListens faults (some c) before after = Listens faults c control_socket_mode before after

control_listens :
    (faults : Text → Faults) (control_socket : Option Text) (before after : Host)
    → ((c : Text) → control_socket ≡ some c → Listens faults c control_socket_mode before after)
    → ControlListens faults control_socket before after
control_listens faults none before after h = tt
control_listens faults (some c) before after h = h c refl

module _ (socket : Text) (control_socket : Option Text) (reach : Reach) (faults : Text → Faults)
    (before : Host) where
  -- The server can be used, the umask is as before, and the sockets listen.
  pub record IsReady (after : Host) : Type 0 where
    pub connected : connect_and_check reach ≡ ok tt
    pub umask : after.umask ≡ before.umask
    pub policy : Listens faults socket socket_mode before after
    pub control : ControlListens faults control_socket before after

  pub startup-IsReady :
      ((c : Text) → control_socket ≡ some c → text_eq c socket ≡ false)
      → (startup socket control_socket reach faults before).0 ≡ ok tt
      → IsReady (startup socket control_socket reach faults before).1
  unfolding startup lock_control_and_go lock_at
  startup-IsReady apart h =
      let lock = lock_at socket control_socket reach faults in
      let go = connect_and_bind socket control_socket reach faults in
      let fresh : Host = record before { announced = [] } in
      let (done, then, same) =
        and_next-ok (lock socket fresh) (lock_control_and_go socket control_socket reach faults)
          h in
      let a = (lock socket fresh).1 in
      let locked = acquire_startup_lock-IsLocked socket (faults socket) fresh done in
      let (done₂, then₂, same₂) = and_next-ok (optional control_socket lock a) go then in
      let b = (optional control_socket lock a).1 in
      let control_locked = optional-IsControlLocked control_socket faults a done₂ in
      let (connected, bound) =
        connect_and_bind-IsBound socket control_socket reach faults b apart then₂ in
      let kept : (q : Text) (m : ℕ) → before.node q ≡ live m → b.node q ≡ live m =
        λ q m p. control_locked.live_there q m (locked.live_there q m p) in
      rw (same, same₂)
        (record {
          connected = connected;
          umask = bound.umask ∙ control_locked.umask ∙ locked.umask;
          policy = record {
            free = locked.free;
            held =
                ap (λ f. f (lock_path socket)) bound.locked
                ∙ control_locked.kept (lock_path socket) locked.held;
            unused = λ m there. bound.unused m (kept socket m there);
            listening = bound.policy;
          };
          control = control_listens faults control_socket before _ λ c e. record {
            free = was_false _ _ (locked.kept (lock_path c)) (control_locked.free c e);
            held = ap (λ f. f (lock_path c)) bound.locked ∙ control_locked.held c e;
            unused = λ m there. bound.control_unused c e m (kept c m there);
            listening = bound.control c e;
          };
        })
