-- ===== src/Daemon/Startup/Binding.antt =====
-- The server and the listeners of src/bin/postfix-ratelimitd.rs, where connecting and binding succeed.
use postfix_ratelimitd.Base.{
  ℕ, ◌≡◌, ◌∙◌, refl, sym, subst, ap, inl, inr, true, false, ◌∷◌, Option, none, some, ok, err, arith,
  Outcome-cases,
}
use postfix_ratelimitd.Base.Text.{Text, text_eq, text_eq_apart}
use postfix_ratelimitd.Limiter.Connect.{Reach, connect_and_check}
use postfix_ratelimitd.Daemon.Startup.{
  live, Announcement, listening, listening_control, Host, Faults, Startup, announce, socket_is_live,
  bind_socket, and_next, optional, socket_mode, control_socket_mode, bind_control, connect_limiter,
  bind_both, connect_and_bind,
}
use postfix_ratelimitd.Daemon.Startup.Safety.{bind_socket-KeepsRest, bind_socket-ok}

-- A chain of steps succeeds only if both do, and ends where the second one does.
pub and_next-ok :
    (first : Startup (Unit {0})) (next : Host → Startup (Unit {0}))
    → (and_next first next).0 ≡ ok tt
    → (first.0 ≡ ok tt) × ((next first.1).0 ≡ ok tt) × ((and_next first next).1 ≡ (next first.1).1)
unfolding and_next
and_next-ok (ok tt, h) next p = (refl, p, refl)
and_next-ok (err e, h) next p = absurd ground (arith, p)

-- Who listens where nobody is seen to could not be connected to.
socket_is_live-not :
    (socket : Text) (faults : Faults) (host : Host) (m : ℕ)
    → socket_is_live socket faults host ≡ false
    → host.node socket ≡ live m
    → faults.connect_fails ≡ true
unfolding socket_is_live
socket_is_live-not socket faults host m h k = ground (arith, h, k)

-- An announcement changes nothing else.
announce-ok :
    (line : Announcement) (r : Startup (Unit {0}))
    → (announce line r).0 ≡ ok tt
    → (r.0 ≡ ok tt) × ((announce line r).1 ≡ record r.1 { announced = line ∷ r.1.announced })
unfolding announce
announce-ok line (ok tt, h) p = (refl, refl)
announce-ok line (err e, h) p = absurd ground (arith, p)

module _ (socket : Text) (control_socket : Option Text) (reach : Reach)
    (faults : Text → Faults) where
  connect_limiter-ok :
      (h : Host)
      → (connect_limiter socket control_socket reach faults h).0 ≡ ok tt
      → (connect_and_check reach ≡ ok tt)
        × ((connect_limiter socket control_socket reach faults h).1 ≡ h)
  unfolding connect_limiter
  connect_limiter-ok h p = elim (Outcome-cases (connect_and_check reach)) [
    | inl (tt, e) ↦ (e, rw (e, connect_limiter) refl)
    | inr (x, e) ↦ absurd ground (arith, e, p)
  ]

  -- Binding both listeners
  pub record IsBound (before after : Host) : Type 0 where
    pub locked : after.locked ≡ before.locked
    pub umask : after.umask ≡ before.umask
    pub policy : after.node socket ≡ live socket_mode
    pub unused : (m : ℕ) → before.node socket ≡ live m → (faults socket).connect_fails ≡ true
    pub control : (c : Text) → control_socket ≡ some c → after.node c ≡ live control_socket_mode
    pub control_unused :
        (c : Text)
        → control_socket ≡ some c
        → (m : ℕ) → before.node c ≡ live m
        → (faults c).connect_fails ≡ true

bind_both-IsBound :
    (socket : Text) (control_socket : Option Text) (reach : Reach) (faults : Text → Faults)
    (host : Host)
    → ((c : Text) → control_socket ≡ some c → text_eq c socket ≡ false)
    → (bind_both socket control_socket reach faults host).0 ≡ ok tt
    → IsBound socket control_socket reach faults host
        (bind_both socket control_socket reach faults host).1
unfolding bind_both bind_control optional
bind_both-IsBound socket none reach faults host apart h =
    let first = bind_socket socket socket_mode (faults socket) host in
    let (done, _, same) =
      and_next-ok (announce (listening socket) first)
        (optional none (bind_control socket none reach faults)) h in
    let (bound_first, said) = announce-ok (listening socket) first done in
    let bound = bind_socket-ok socket socket_mode (faults socket) host bound_first in
    let rest = bind_socket-KeepsRest socket socket_mode (faults socket) host in
    rw (same, said)
      (record {
        locked = rest.locked;
        umask = rest.umask;
        policy = bound.0;
        unused = λ m. socket_is_live-not socket (faults socket) host m bound.1;
        control = λ c e. cc;
        control_unused = λ c e. cc;
      })
bind_both-IsBound socket (some c) reach faults host apart h =
    let first = bind_socket socket socket_mode (faults socket) host in
    let (done, then, same) =
      and_next-ok (announce (listening socket) first)
        (optional (some c) (bind_control socket (some c) reach faults)) h in
    let (bound_first, said) = announce-ok (listening socket) first done in
    let between = (announce (listening socket) first).1 in
    let bound = bind_socket-ok socket socket_mode (faults socket) host bound_first in
    let rest = bind_socket-KeepsRest socket socket_mode (faults socket) host in
    let second = bind_socket c control_socket_mode (faults c) between in
    let (bound_second, control_said) = announce-ok (listening_control c) second then in
    let control_bound = bind_socket-ok c control_socket_mode (faults c) between bound_second in
    let control_rest = bind_socket-KeepsRest c control_socket_mode (faults c) between in
    let node : between.node ≡ first.1.node = rw said refl in
    rw (same, control_said)
      (record {
        locked = control_rest.locked ∙ ap (λ b. b.locked) said ∙ rest.locked;
        umask = control_rest.umask ∙ ap (λ b. b.umask) said ∙ rest.umask;
        policy = control_rest.rest socket (apart c refl) ∙ ap (λ f. f socket) node ∙ bound.0;
        unused = λ m. socket_is_live-not socket (faults socket) host m bound.1;
        control = λ d e.
            let at : c ≡ d = ground (arith, e) in
            subst (λ x. second.1.node x ≡ live control_socket_mode) at control_bound.0;
        control_unused = λ d e m there.
            let at : c ≡ d = ground (arith, e) in
            let other = text_eq_apart c socket (apart c refl) in
            let seen =
              ap (λ f. f c) node
              ∙ rest.rest c other
              ∙ subst (λ x. host.node x ≡ live m) (sym at) there in
            subst (λ x. (faults x).connect_fails ≡ true) at
              (socket_is_live-not c (faults c) between m control_bound.1 seen);
      })

pub connect_and_bind-IsBound :
    (socket : Text) (control_socket : Option Text) (reach : Reach) (faults : Text → Faults)
    (host : Host)
    → ((c : Text) → control_socket ≡ some c → text_eq c socket ≡ false)
    → (connect_and_bind socket control_socket reach faults host).0 ≡ ok tt
    → (connect_and_check reach ≡ ok tt)
      × IsBound socket control_socket reach faults host
          (connect_and_bind socket control_socket reach faults host).1
unfolding connect_and_bind
connect_and_bind-IsBound socket control_socket reach faults host apart h =
    let bind = bind_both socket control_socket reach faults in
    let connect = connect_limiter socket control_socket reach faults host in
    let (done, then, same) = and_next-ok connect bind h in
    let connected = connect_limiter-ok socket control_socket reach faults host done in
    let bound = bind_both-IsBound socket control_socket reach faults connect.1 apart then in
    (
      connected.0,
      rw same (
          subst (λ g. IsBound socket control_socket reach faults g (bind connect.1).1) connected.1
            bound),
    )
