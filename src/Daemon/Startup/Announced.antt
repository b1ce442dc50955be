-- ===== src/Daemon/Startup/Announced.antt =====
-- Which listeners a start of src/bin/postfix-ratelimitd.rs has announced when it ends.
use postfix_ratelimitd.Base.{
  ◌≡◌, ◌∙◌, ◌⊎◌, refl, ap, inl, inr, List, [], ◌∷◌, Option, none, some, Outcome, ok, err,
  Outcome-cases,
}
use postfix_ratelimitd.Base.Text.{Text}
use postfix_ratelimitd.Limiter.Connect.{Reach, connect_and_check}
use postfix_ratelimitd.Daemon.Startup.{
  Announcement, listening, listening_control, Host, Faults, Fatal, Startup, announce, bind_socket,
  and_next, optional, startup, socket_mode, control_socket_mode, lock_at, bind_control,
  connect_limiter, bind_both, connect_and_bind, lock_control_and_go,
}
use postfix_ratelimitd.Daemon.Startup.Safety.{bind_socket-KeepsRest, acquire_startup_lock-Creates}

-- Both listeners, the newest line first
abbrev pub both_listening : Text → Option Text → List Announcement
both_listening socket none = listening socket ∷ []
both_listening socket (some c) = listening_control c ∷ listening socket ∷ []

-- A start that succeeds has announced its listeners, and one that fails at most the policy socket's.
abbrev pub IsAnnounced : Text → Option Text → Outcome Fatal (Unit {0}) → List Announcement → Type 0
IsAnnounced socket control_socket (ok u) said = said ≡ both_listening socket control_socket
IsAnnounced socket control_socket (err e) said = (said ≡ []) ⊎ (said ≡ listening socket ∷ [])

module _ (socket : Text) (control_socket : Option Text) where
  abbrev Told : Startup (Unit {0}) → Type 0
  Told r = IsAnnounced socket control_socket r.0 r.1.announced

  and_next-Told :
      (first : Startup (Unit {0})) (next : Host → Startup (Unit {0}))
      → first.1.announced ≡ []
      → ((h : Host) → h.announced ≡ [] → Told (next h))
      → Told (and_next first next)
  unfolding and_next
  and_next-Told (ok tt, h) next p q = q h p
  and_next-Told (err e, h) next p q = inl p

  announce_policy-Told :
      (first : Startup (Unit {0})) (next : Host → Startup (Unit {0}))
      → first.1.announced ≡ []
      → ((h : Host) → h.announced ≡ listening socket ∷ [] → Told (next h))
      → Told (and_next (announce (listening socket) first) next)
  unfolding and_next announce
  announce_policy-Told (ok tt, h) next p q =
      q (record h { announced = listening socket ∷ h.announced }) (ap (λ l. listening socket ∷ l) p)
  announce_policy-Told (err e, h) next p q = inl p

announce_control-Told :
    (socket c : Text) (r : Startup (Unit {0}))
    → r.1.announced ≡ listening socket ∷ []
    → Told socket (some c) (announce (listening_control c) r)
unfolding announce
announce_control-Told socket c (ok tt, h) p = ap (λ l. listening_control c ∷ l) p
announce_control-Told socket c (err e, h) p = inr p

module _ (reach : Reach) (faults : Text → Faults) where
  lock_at-announced :
      (socket : Text) (control_socket : Option Text) (c : Text) (h : Host)
      → (lock_at socket control_socket reach faults c h).1.announced ≡ h.announced
  unfolding lock_at
  lock_at-announced socket control_socket c h = (acquire_startup_lock-Creates c (faults c) h).1

  optional-announced :
      (path : Option Text) (f : Text → Host → Startup (Unit {0})) (h : Host)
      → ((c : Text) (g : Host) → (f c g).1.announced ≡ g.announced)
      → (optional path f h).1.announced ≡ h.announced
  unfolding optional
  optional-announced none f h q = refl
  optional-announced (some c) f h q = q c h

  connect_limiter-announced :
      (socket : Text) (control_socket : Option Text) (h : Host)
      → (connect_limiter socket control_socket reach faults h).1.announced ≡ h.announced
  unfolding connect_limiter
  connect_limiter-announced socket control_socket h =
      elim (Outcome-cases (connect_and_check reach)) [
        | inl (_, e) ↦ rw (e, connect_limiter) refl
        | inr (_, e) ↦ rw (e, connect_limiter) refl
      ]

  control-Told :
      (socket : Text) (control_socket : Option Text) (h : Host)
      → h.announced ≡ listening socket ∷ []
      → Told socket control_socket
          (optional control_socket (bind_control socket control_socket reach faults) h)
  unfolding optional bind_control
  control-Told socket none h p = p
  control-Told socket (some c) h p =
      announce_control-Told socket c (bind_socket c control_socket_mode (faults c) h)
        ((bind_socket-KeepsRest c control_socket_mode (faults c) h).announced ∙ p)

  bind_both-Told :
      (socket : Text) (control_socket : Option Text) (h : Host)
      → h.announced ≡ []
      → Told socket control_socket (bind_both socket control_socket reach faults h)
  unfolding bind_both
  bind_both-Told socket control_socket h p =
      announce_policy-Told socket control_socket (bind_socket socket socket_mode (faults socket) h)
        (optional control_socket (bind_control socket control_socket reach faults))
        ((bind_socket-KeepsRest socket socket_mode (faults socket) h).announced ∙ p)
        (control-Told socket control_socket)

  pub startup-IsAnnounced :
      (socket : Text) (control_socket : Option Text) (host : Host)
      → IsAnnounced socket control_socket
          (startup socket control_socket reach faults host).0
          (startup socket control_socket reach faults host).1.announced
  unfolding startup lock_control_and_go connect_and_bind
  startup-IsAnnounced socket control_socket host =
      let lock = lock_at socket control_socket reach faults in
      let fresh : Host = record host { announced = [] } in
      and_next-Told socket control_socket (lock socket fresh)
        (lock_control_and_go socket control_socket reach faults)
        (lock_at-announced socket control_socket socket fresh)
        λ g p.
          and_next-Told socket control_socket (optional control_socket lock g)
            (connect_and_bind socket control_socket reach faults)
            (optional-announced control_socket lock g (lock_at-announced socket control_socket) ∙ p)
            λ h q.
              and_next-Told socket control_socket
                (connect_limiter socket control_socket reach faults h)
                (bind_both socket control_socket reach faults)
                (connect_limiter-announced socket control_socket h ∙ q)
                (bind_both-Told socket control_socket)
