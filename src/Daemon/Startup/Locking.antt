-- ===== src/Daemon/Startup/Locking.antt =====
-- The startup locks of src/bin/postfix-ratelimitd.rs, where they are acquired.
use postfix_ratelimitd.Base.{
  ℕ, ◌≡◌, ◌∙◌, ap, sym, refl, subst, inl, inr, true, false, Option, none, some, ok, arith,
  Bool-cases, Option-cases,
}
use postfix_ratelimitd.Base.Text.{Text, text_eq, text_eq_refl}
use postfix_ratelimitd.Daemon.Startup.{
  live, Host, Faults, lock_path, open_lock_file, try_lock, acquire_startup_lock, optional,
}
use postfix_ratelimitd.Daemon.Startup.Safety.{Creates-live, open_lock_file-Creates}

-- The lock was free and is held, other locks are held as before, and who listened still does.
pub record IsLocked (socket : Text) (before after : Host) : Type 0 where
  pub live_there : (q : Text) (m : ℕ) → before.node q ≡ live m → after.node q ≡ live m
  pub umask : after.umask ≡ before.umask
  pub free : before.locked (lock_path socket) ≡ false
  pub held : after.locked (lock_path socket) ≡ true
  pub kept : (q : Text) → before.locked q ≡ true → after.locked q ≡ true

pub acquire_startup_lock-IsLocked :
    (socket : Text) (faults : Faults) (host : Host)
    → (acquire_startup_lock socket faults host).0 ≡ ok tt
    → IsLocked socket host (acquire_startup_lock socket faults host).1
unfolding acquire_startup_lock try_lock
acquire_startup_lock-IsLocked socket faults host h =
    let path = lock_path socket in
    elim (Option-cases (open_lock_file path faults host)) [
      | inl o ↦ absurd ground (arith, o, h)
      | inr (opened, o) ↦ elim (Bool-cases faults.lock_fails) [
        | inl a ↦ absurd ground (arith, o, a, h)
        | inr a ↦ elim (Bool-cases (opened.locked path)) [
          | inl b ↦ absurd ground (arith, o, a, b, h)
          | inr b ↦
              let (files, locked, umask, _) = open_lock_file-Creates path faults host opened o in
              rw (o, acquire_startup_lock, try_lock, a, b)
                (record {
                  live_there = λ q m. Creates-live (λ r. r ≡ path) host.node opened.node q m files;
                  umask = umask;
                  free = ap (λ f. f path) (sym locked) ∙ b;
                  held = rw (text_eq_refl path) refl;
                  kept = λ q k. elim (Bool-cases (text_eq path q)) [
                    | inl c ↦ rw c refl
                    | inr c ↦ rw c (ap (λ f. f q) locked ∙ k)
                  ];
                })
        ]
      ]
    ]

-- The control socket's lock, if there is such a socket
pub record IsControlLocked (control_socket : Option Text) (before after : Host) : Type 0 where
  pub live_there : (q : Text) (m : ℕ) → before.node q ≡ live m → after.node q ≡ live m
  pub umask : after.umask ≡ before.umask
  pub free : (c : Text) → control_socket ≡ some c → before.locked (lock_path c) ≡ false
  pub held : (c : Text) → control_socket ≡ some c → after.locked (lock_path c) ≡ true
  pub kept : (q : Text) → before.locked q ≡ true → after.locked q ≡ true

pub optional-IsControlLocked :
    (control_socket : Option Text) (faults : Text → Faults) (host : Host)
    → (optional control_socket (λ c h. acquire_startup_lock c (faults c) h) host).0 ≡ ok tt
    → IsControlLocked control_socket host
        (optional control_socket (λ c h. acquire_startup_lock c (faults c) h) host).1
unfolding optional
optional-IsControlLocked none faults host h = record {
  live_there = λ q m p. p;
  umask = refl;
  free = λ c e. cc;
  held = λ c e. cc;
  kept = λ q k. k;
}
optional-IsControlLocked (some c) faults host h =
    let after = (acquire_startup_lock c (faults c) host).1 in
    let locked = acquire_startup_lock-IsLocked c (faults c) host h in
    record {
      live_there = locked.live_there;
      umask = locked.umask;
      free = λ d e.
          let at : c ≡ d = ground (arith, e) in
          subst (λ x. host.locked (lock_path x) ≡ false) at locked.free;
      held = λ d e.
          let at : c ≡ d = ground (arith, e) in
          subst (λ x. after.locked (lock_path x) ≡ true) at locked.held;
      kept = locked.kept;
    }
