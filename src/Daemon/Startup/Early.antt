-- ===== src/Daemon/Startup/Early.antt =====
-- What a start of src/bin/postfix-ratelimitd.rs that fails early has done to the files.
use postfix_ratelimitd.Limiter.Connect.{Reach, connect_and_check}
use postfix_ratelimitd.Base.{
  Outcome-cases, ℕ, ◌≡◌, ◌⊎◌, ◌∙◌, refl, sym, subst, [], inl, inr, Option, none, some, Outcome, ok,
  err, arith,
}
use postfix_ratelimitd.Base.Text.{Text}
use postfix_ratelimitd.Daemon.Startup.{
  Node, Announcement, listening, listening_control, announce, lock_path, acquire_startup_lock, Host,
  Faults, Fatal, lock_held, lock_failed, limiter_failed, in_use, remove_failed, bind_failed,
  chmod_failed, Startup, bind_and_chmod, bind_socket, and_next, optional, startup, socket_mode,
  control_socket_mode, lock_at, bind_control, connect_limiter, bind_both, connect_and_bind,
  lock_control_and_go,
}
use postfix_ratelimitd.Daemon.Startup.Safety.{Creates, acquire_startup_lock-Creates}

-- A lock could not be taken, or the server not be used.
abbrev pub IsEarly : Fatal → Type 0
IsEarly (lock_held s) = Unit {0}
IsEarly (lock_failed s) = Unit {0}
IsEarly (limiter_failed e) = Unit {0}
IsEarly _ = ⊥

-- Success, or a failure that has to do with a socket.
abbrev IsLate : Outcome Fatal (Unit {0}) → Type 0
IsLate (ok u) = Unit {0}
IsLate (err (lock_held s)) = ⊥
IsLate (err (lock_failed s)) = ⊥
IsLate (err (limiter_failed e)) = ⊥
IsLate (err _) = Unit {0}

Creates-refl : (P : Text → Type 0) (a : Text → Node) → Creates P a a
Creates-refl P a q = inl refl

Creates-trans :
    (P : Text → Type 0) (a b c : Text → Node) → Creates P a b → Creates P b c → Creates P a c
Creates-trans P a b c ab bc q = elim (bc q) [
  | inl same ↦ elim (ab q) [
    | inl before ↦ inl (same ∙ before)
    | inr (p, gone, made) ↦ inr (p, gone, same ∙ made)
  ]
  | inr (p, gone, made) ↦ elim (ab q) [
    | inl before ↦ inr (p, sym before ∙ gone, made)
    | inr (_, _, there) ↦ absurd ground (arith, gone, there)
  ]
]

Creates-weaken :
    (P Q : Text → Type 0) (a b : Text → Node)
    → ((q : Text) → P q → Q q)
    → Creates P a b
    → Creates Q a b
Creates-weaken P Q a b h c q = elim (c q) [
  | inl same ↦ inl same
  | inr (p, gone, made) ↦ inr (h q p, gone, made)
]

abbrev IsCalm : (Text → Type 0) → (Text → Node) → Startup (Unit {0}) → Type 0
IsCalm P node r = Creates P node r.1.node ⊎ IsLate r.0

and_next-IsCalm :
    (P : Text → Type 0) (node : Text → Node) (first : Startup (Unit {0}))
    (next : Host → Startup (Unit {0}))
    → Creates P node first.1.node
    → ((h : Host) → Creates P node h.node → IsCalm P node (next h))
    → IsCalm P node (and_next first next)
unfolding and_next
and_next-IsCalm P node (ok tt, h) next p q = q h p
and_next-IsCalm P node (err e, h) next p q = inl p

announce-IsLate :
    (line : Announcement) (r : Startup (Unit {0})) → IsLate r.0 → IsLate (announce line r).0
unfolding announce
announce-IsLate line (ok tt, h) p = tt
announce-IsLate line (err e, h) p = p

and_next-IsLate :
    (first : Startup (Unit {0})) (next : Host → Startup (Unit {0}))
    → IsLate first.0
    → ((h : Host) → IsLate (next h).0)
    → IsLate (and_next first next).0
unfolding and_next
and_next-IsLate (ok tt, h) next p q = q h
and_next-IsLate (err e, h) next p q = p

optional-IsLate :
    (path : Option Text) (f : Text → Host → Startup (Unit {0})) (h : Host)
    → ((c : Text) (g : Host) → IsLate (f c g).0)
    → IsLate (optional path f h).0
unfolding optional
optional-IsLate none f h q = tt
optional-IsLate (some c) f h q = q c h

bind_socket-IsLate :
    (socket : Text) (mode : ℕ) (faults : Faults) (h : Host)
    → IsLate (bind_socket socket mode faults h).0
unfolding bind_socket bind_and_chmod
bind_socket-IsLate socket mode faults h = ground arith

module _ (socket : Text) (control_socket : Option Text) where
  -- A lock file of one of the sockets
  abbrev pub IsLockFile : Text → Type 0
  IsLockFile q =
      (q ≡ lock_path socket) ⊎ ((c : Text) × (control_socket ≡ some c) × (q ≡ lock_path c))

module _ (socket : Text) (control_socket : Option Text) (reach : Reach)
    (faults : Text → Faults) where
  lock_at-Creates :
      (node : Text → Node) (c : Text) (h : Host)
      → ((q : Text) → q ≡ lock_path c → IsLockFile socket control_socket q)
      → Creates (IsLockFile socket control_socket) node h.node
      → Creates
          (IsLockFile socket control_socket)
          node
          (lock_at socket control_socket reach faults c h).1.node
  unfolding lock_at
  lock_at-Creates node c h is_lock before =
      let made = (acquire_startup_lock-Creates c (faults c) h).0 in
      Creates-trans (IsLockFile socket control_socket) node h.node
        (acquire_startup_lock c (faults c) h).1.node before
        (Creates-weaken (λ q. q ≡ lock_path c) (IsLockFile socket control_socket) h.node _ is_lock
          made)

  optional-Creates :
      (node : Text → Node) (path : Option Text) (h : Host)
      → control_socket ≡ path
      → Creates (IsLockFile socket control_socket) node h.node
      → Creates
          (IsLockFile socket control_socket)
          node
          (optional path (lock_at socket control_socket reach faults) h).1.node
  unfolding optional
  optional-Creates node none h e before = before
  optional-Creates node (some c) h e before = lock_at-Creates node c h (λ q p. inr (c, e, p)) before

  connect_limiter-node :
      (h : Host) → (connect_limiter socket control_socket reach faults h).1.node ≡ h.node
  unfolding connect_limiter
  connect_limiter-node h = elim (Outcome-cases (connect_and_check reach)) [
    | inl (_, e) ↦ rw (e, connect_limiter) refl
    | inr (_, e) ↦ rw (e, connect_limiter) refl
  ]

  bind_both-IsLate : (h : Host) → IsLate (bind_both socket control_socket reach faults h).0
  unfolding bind_both bind_control
  bind_both-IsLate h =
      let first = bind_socket socket socket_mode (faults socket) h in
      and_next-IsLate (announce (listening socket) first)
        (optional control_socket (bind_control socket control_socket reach faults))
        (announce-IsLate (listening socket) first
          (bind_socket-IsLate socket socket_mode (faults socket) h))
        λ g.
          optional-IsLate control_socket (bind_control socket control_socket reach faults) g λ c k.
            announce-IsLate (listening_control c) (bind_socket c control_socket_mode (faults c) k)
              (bind_socket-IsLate c control_socket_mode (faults c) k)

  startup-IsCalm :
      (host : Host)
      → IsCalm
          (IsLockFile socket control_socket)
          host.node
          (startup socket control_socket reach faults host)
  unfolding startup lock_control_and_go connect_and_bind
  startup-IsCalm host =
      let lock = lock_at socket control_socket reach faults in
      let fresh : Host = record host { announced = [] } in
      let P = IsLockFile socket control_socket in
      and_next-IsCalm P host.node (lock socket fresh)
        (lock_control_and_go socket control_socket reach faults)
        (lock_at-Creates host.node socket fresh (λ q e. inl e) (Creates-refl P host.node))
        λ g p.
          and_next-IsCalm P host.node (optional control_socket lock g)
            (connect_and_bind socket control_socket reach faults)
            (optional-Creates host.node control_socket g refl p)
            λ h q.
              and_next-IsCalm P host.node (connect_limiter socket control_socket reach faults h)
                (bind_both socket control_socket reach faults)
                (subst (Creates P host.node) (sym (connect_limiter-node h)) q)
                λ k r. inr (bind_both-IsLate k)

  -- A start that fails because a lock is held or cannot be taken, for either socket, or because the
  -- server cannot be used, leaves every file as it was, but that lock files of the configured sockets,
  -- where nothing was, may have been created and stay.
  pub startup_early :
      (host : Host) (e : Fatal)
      → IsEarly e
      → (startup socket control_socket reach faults host).0 ≡ err e
      → Creates
          (IsLockFile socket control_socket)
          host.node
          (startup socket control_socket reach faults host).1.node
  startup_early host e early failed = elim (startup-IsCalm host) [
    | inl same ↦ same
    | inr late ↦ absurd (not_both e early (subst IsLate failed late))
  ]
    where
      not_both : (f : Fatal) → IsEarly f → IsLate (err f) → ⊥
      not_both (lock_held s) a b = b
      not_both (lock_failed s) a b = b
      not_both (limiter_failed e) a b = b
      not_both (in_use s) a b = a
      not_both (remove_failed s) a b = a
      not_both (bind_failed s) a b = a
      not_both (chmod_failed s) a b = a
