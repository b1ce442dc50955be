-- ===== src/Daemon/Startup/Safety.antt =====
-- What `bind_socket` and `main` of src/bin/postfix-ratelimitd.rs do to sockets that others listen on.
use mathlib.Core.Option.{some-injective}
use postfix_ratelimitd.Limiter.Connect.{Reach, connect_and_check}
use postfix_ratelimitd.Base.{
  [], Outcome-cases, Option-cases, ◌⊎◌, sym, subst, ℕ, ◌≡◌, inl, inr, refl, ap, ◌∙◌, false, Option,
  none, some, ok, err, arith, Bool-cases,
}
use postfix_ratelimitd.Base.Text.{Text, text_eq, text_eq_refl, text_eq_sound}
use postfix_ratelimitd.Daemon.Startup.{
  Node, absent, live, stale, other, Announcement, listening, listening_control, Host, Faults,
  Startup, put, lock_path, create_and_open, open_lock_file, try_lock, announce,
  acquire_startup_lock, socket_is_live, removable, bind_and_chmod, bind_socket, and_next, optional,
  startup, socket_mode, control_socket_mode, lock_at, bind_control, connect_limiter, bind_both,
  connect_and_bind, lock_control_and_go,
}

-- Everywhere but at the socket the files are as they were, and so are the locks, the umask and what
-- has been announced.
pub record KeepsRest (socket : Text) (before after : Host) : Type 0 where
  pub umask : after.umask ≡ before.umask
  pub locked : after.locked ≡ before.locked
  pub announced : after.announced ≡ before.announced
  pub rest : (q : Text) → text_eq socket q ≡ false → after.node q ≡ before.node q

module _ (socket : Text) (mode : ℕ) (faults : Faults) (host : Host) where
  abbrev pub bound : Startup (Unit {0})
  bound = bind_socket socket mode faults host

  -- On every branch, also where the bind or the chmod fails, the umask is what it was, and no lock and
  -- no file at another path has changed, and nothing is announced.
  pub bind_socket-KeepsRest : KeepsRest socket host bound.1
  unfolding bind_socket bind_and_chmod put
  bind_socket-KeepsRest = elim (Bool-cases (socket_is_live socket faults host)) [
    | inl a ↦ rw a (record { umask = refl; locked = refl; announced = refl; rest = λ q h. refl })
    | inr a ↦ elim (Bool-cases (removable (host.node socket) faults)) [
      | inr b ↦
          rw (a, b) (record { umask = refl; locked = refl; announced = refl; rest = λ q h. refl })
      | inl b ↦ elim (Bool-cases faults.bind_fails) [
        | inl c ↦
            rw (a, b, c)
              (record { umask = refl; locked = refl; announced = refl; rest = λ q h. rw h refl })
        | inr c ↦ elim (Bool-cases faults.chmod_fails) [
          | inl d ↦
              rw (a, b, c, d)
                (record { umask = refl; locked = refl; announced = refl; rest = λ q h. rw h refl })
          | inr d ↦
              rw (a, b, c, d)
                (record { umask = refl; locked = refl; announced = refl; rest = λ q h. rw h refl })
        ]
      ]
    ]
  ]

  -- Where binding succeeds, nobody was seen to listen at the path before, and it now holds a listening
  -- socket of exactly the given mode.
  pub bind_socket-ok :
      bound.0 ≡ ok tt
      → (bound.1.node socket ≡ live mode) × (socket_is_live socket faults host ≡ false)
  unfolding bind_socket bind_and_chmod put
  bind_socket-ok h = elim (Bool-cases (socket_is_live socket faults host)) [
    | inl a ↦ absurd ground (arith, a, h)
    | inr a ↦ elim (Bool-cases (removable (host.node socket) faults)) [
      | inr b ↦ absurd ground (arith, a, b, h)
      | inl b ↦ elim (Bool-cases faults.bind_fails) [
        | inl c ↦ absurd ground (arith, a, b, c, h)
        | inr c ↦ elim (Bool-cases faults.chmod_fails) [
          | inl d ↦ absurd ground (arith, a, b, c, d, h)
          | inr d ↦ (rw (a, b, c, d, text_eq_refl socket) refl, a)
        ]
      ]
    ]
  ]

  -- A socket with a listener stays, at this path or another, if its path could be connected to.
  bind_socket-keeps_live :
      (q : Text) (m : ℕ)
      → (socket ≡ q → faults.connect_fails ≡ false)
      → host.node q ≡ live m
      → bound.1.node q ≡ live m
  unfolding bind_socket socket_is_live
  bind_socket-keeps_live q m heard h = elim (Bool-cases (text_eq socket q)) [
    | inr e ↦ bind_socket-KeepsRest.rest q e ∙ h
    | inl e ↦
        let same = text_eq_sound socket q e in
        let here : host.node socket ≡ live m = rw same h in
        ground (arith, here, h, same, heard same)
  ]

and_next-keeps :
    (P : Host → Type 0) (first : Startup (Unit {0})) (next : Host → Startup (Unit {0}))
    → P first.1
    → ((h : Host) → P h → P (next h).1)
    → P (and_next first next).1
unfolding and_next
and_next-keeps P (ok tt, h) next p q = q h p
and_next-keeps P (err e, h) next p q = p

optional-keeps :
    (P : Host → Type 0) (path : Option Text) (f : Text → Host → Startup (Unit {0})) (host : Host)
    → P host
    → ((c : Text) (h : Host) → P h → P (f c h).1)
    → P (optional path f host).1
unfolding optional
optional-keeps P none f host p q = p
optional-keeps P (some c) f host p q = q c host p

-- Some missing files at such paths may have become ordinary files; all else is as it was.
abbrev pub Creates : (Text → Type 0) → (Text → Node) → (Text → Node) → Type 0
Creates P before after =
    (q : Text) → (after q ≡ before q) ⊎ (P q × (before q ≡ absent) × (after q ≡ other))

pub Creates-live :
    (P : Text → Type 0) (before after : Text → Node) (q : Text) (m : ℕ)
    → Creates P before after
    → before q ≡ live m
    → after q ≡ live m
Creates-live P before after q m c h = elim (c q) [
  | inl same ↦ same ∙ h
  | inr (_, gone, _) ↦ absurd ground (arith, gone, h)
]

create_and_open-Creates :
    (path : Text) (node : Node) (host opened : Host)
    → host.node path ≡ node
    → create_and_open path node host ≡ some opened
    → Creates (λ q. q ≡ path) host.node opened.node
      × (opened.locked ≡ host.locked)
      × (opened.umask ≡ host.umask)
      × (opened.announced ≡ host.announced)
unfolding create_and_open put
create_and_open-Creates path absent host opened here e =
    let same = sym (some-injective _ opened e) in
    rw same (
      λ q. elim (Bool-cases (text_eq path q)) [
        | inl at ↦
            let there = text_eq_sound path q at in
            rw at (inr (sym there, ap host.node (sym there) ∙ here, refl))
        | inr at ↦ rw at (inl refl)
      ],
      refl,
      refl,
      refl,
    )
create_and_open-Creates path (live mode) host opened here e = absurd (cc)
create_and_open-Creates path (stale mode) host opened here e = absurd (cc)
create_and_open-Creates path other host opened here e =
    let same = sym (some-injective _ opened e) in rw same (λ q. inl refl, refl, refl, refl)

pub open_lock_file-Creates :
    (path : Text) (faults : Faults) (host opened : Host)
    → open_lock_file path faults host ≡ some opened
    → Creates (λ q. q ≡ path) host.node opened.node
      × (opened.locked ≡ host.locked)
      × (opened.umask ≡ host.umask)
      × (opened.announced ≡ host.announced)
unfolding open_lock_file
open_lock_file-Creates path faults host opened e = elim (Bool-cases faults.open_fails) [
  | inl f ↦ absurd ground (arith, e, f)
  | inr f ↦ create_and_open-Creates path (host.node path) host opened refl (ground (arith, e, f))
]

try_lock-keeps :
    (socket : Text) (faults : Faults) (host : Host)
    → ((try_lock socket faults host).1.node ≡ host.node)
      × ((try_lock socket faults host).1.announced ≡ host.announced)
unfolding try_lock
try_lock-keeps socket faults host = (ground arith, ground arith)

-- Whatever comes of a lock, no file changes but the lock file, which is there afterwards.
pub acquire_startup_lock-Creates :
    (socket : Text) (faults : Faults) (host : Host)
    → Creates (λ q. q ≡ lock_path socket) host.node (acquire_startup_lock socket faults host).1.node
      × ((acquire_startup_lock socket faults host).1.announced ≡ host.announced)
unfolding acquire_startup_lock
acquire_startup_lock-Creates socket faults host =
    let path = lock_path socket in
    elim (Option-cases (open_lock_file path faults host)) [
      | inl e ↦ rw (e, acquire_startup_lock) (λ q. inl refl, refl)
      | inr (opened, e) ↦
          let (files, _, _, announced) = open_lock_file-Creates path faults host opened e in
          let (node, said) = try_lock-keeps socket faults opened in
          rw (e, acquire_startup_lock)
            (subst (λ n. Creates (λ q. q ≡ path) host.node n) (sym node) files, said ∙ announced)
    ]

announce-keeps_live :
    (line : Announcement) (r : Startup (Unit {0})) (q : Text) (m : ℕ)
    → r.1.node q ≡ live m
    → (announce line r).1.node q ≡ live m
unfolding announce
announce-keeps_live line (ok tt, h) q m p = p
announce-keeps_live line (err e, h) q m p = p

module _ (socket : Text) (control_socket : Option Text) (reach : Reach) (faults : Text → Faults)
    (q : Text) (m : ℕ) (heard : (faults q).connect_fails ≡ false) where
  abbrev StaysLive : Host → Type 0
  StaysLive h = h.node q ≡ live m

  connect_limiter-StaysLive :
      (h : Host) → StaysLive h → StaysLive (connect_limiter socket control_socket reach faults h).1
  unfolding connect_limiter
  connect_limiter-StaysLive h p = elim (Outcome-cases (connect_and_check reach)) [
    | inl (_, e) ↦ rw (e, connect_limiter) p
    | inr (_, e) ↦ rw (e, connect_limiter) p
  ]

  lock_at-StaysLive :
      (c : Text) (h : Host)
      → StaysLive h
      → StaysLive (lock_at socket control_socket reach faults c h).1
  unfolding lock_at
  lock_at-StaysLive c h p =
      Creates-live (λ r. r ≡ lock_path c) h.node (acquire_startup_lock c (faults c) h).1.node q m
        (acquire_startup_lock-Creates c (faults c) h).0 p

  heard_at : (c : Text) → c ≡ q → (faults c).connect_fails ≡ false
  heard_at c e = ap (λ p. (faults p).connect_fails) e ∙ heard

  bind_both-StaysLive :
      (h : Host) → StaysLive h → StaysLive (bind_both socket control_socket reach faults h).1
  unfolding bind_both bind_control
  bind_both-StaysLive h p =
      let first = bind_socket socket socket_mode (faults socket) h in
      and_next-keeps StaysLive (announce (listening socket) first)
        (optional control_socket (bind_control socket control_socket reach faults))
        (announce-keeps_live (listening socket) first q m
          (bind_socket-keeps_live socket socket_mode (faults socket) h q m (heard_at socket) p))
        λ g r.
          optional-keeps StaysLive control_socket (bind_control socket control_socket reach faults)
            g r
            λ c k s.
              announce-keeps_live (listening_control c)
                (bind_socket c control_socket_mode (faults c) k) q m
                (bind_socket-keeps_live c control_socket_mode (faults c) k q m (heard_at c) s)

  -- Whatever else fails on the way, and whichever paths are configured, starting the daemon removes no
  -- socket that another process listens on, and changes no such socket's mode, where connecting to it
  -- does not fail with another error than a missing permission.
  pub startup-keeps_live :
      (host : Host)
      → host.node q ≡ live m
      → (startup socket control_socket reach faults host).1.node q ≡ live m
  unfolding startup lock_control_and_go connect_and_bind
  startup-keeps_live host p =
      let lock = lock_at socket control_socket reach faults in
      let rest = connect_and_bind socket control_socket reach faults in
      and_next-keeps StaysLive (lock socket (record host { announced = [] }))
        (lock_control_and_go socket control_socket reach faults)
        (lock_at-StaysLive socket (record host { announced = [] }) p)
        λ g r.
          and_next-keeps StaysLive (optional control_socket lock g) rest
            (optional-keeps StaysLive control_socket lock g r lock_at-StaysLive)
            λ h s.
              and_next-keeps StaysLive (connect_limiter socket control_socket reach faults h)
                (bind_both socket control_socket reach faults) (connect_limiter-StaysLive h s)
                bind_both-StaysLive
