-- ===== src/Control/Client/Shown.antt =====
-- What an operator reads from the lines of src/bin/postfix-ratelimitctl.rs, described on its own.
use postfix_ratelimitd.Base.{
  ℕ, ◌≡◌, ◌≢◌, refl, ap, inl, inr, List, [], ◌∷◌, map, Option, none, some, ◌==◌, arith, All,
  Bool-cases,
}
use postfix_ratelimitd.Control.Status.{WindowStatus}
use postfix_ratelimitd.Control.Client.{
  Printed, socket_is_up, raw, is_unrestricted, windows_as_of, zero_limit_line, window_line,
  print_windows,
}

-- The window, the total and the limit that a line of a window states.
abbrev pub reading : {Value : Type 0} → Printed Value → Option (ℕ × ℕ × ℕ)
reading (socket_is_up text) = none
reading (raw value) = none
reading (is_unrestricted user) = none
reading (windows_as_of user at) = none
reading (zero_limit_line span total) = some (span, total, 0)
reading (window_line span total limit) = some (span, total, limit)

abbrev pub reported : WindowStatus → Option (ℕ × ℕ × ℕ)
reported w = some (w.span_secs, w.current_total, w.limit)

-- No percentage of nothing
abbrev pub IsDefined : {Value : Type 0} → Printed Value → Type 0
IsDefined (window_line span total limit) = limit ≢ 0
IsDefined _ = Unit {0}

pub print_windows-reported :
    (Value : Type 0) (windows : List WindowStatus)
    → (map reading (print_windows {Value = Value} windows) ≡ map reported windows)
      × All IsDefined (print_windows {Value = Value} windows)
print_windows-reported Value [] = (refl, tt)
print_windows-reported Value (w ∷ windows) =
    let rest = print_windows-reported Value windows in
    elim (Bool-cases (w.limit == 0)) [
      | inl e ↦ rw e (ground (arith, e, rest.0), (tt, rest.1))
      | inr e ↦ rw e (ap (λ l. reported w ∷ l) rest.0, (λ zero_limit. ground (arith, e), rest.1))
    ]
