-- ===== src/Examples/Limits.antt =====
-- The limiter of src/limiter.rs on a server in memory: a sender with a limit of 10 recipients an hour.
use postfix_ratelimitd.Base.{
  ◌++◌, ℕ, ◌+◌, ◌≡◌, ◌↔◌, refl, Bool, true, false, not, is_empty, pos, List, [], ◌∷◌, none, ok,
  arith, All,
}
use postfix_ratelimitd.Base.Text.{Text, codes, text_eq}
use postfix_ratelimitd.Base.Decimal.{decimal}
use postfix_ratelimitd.Config.Plan.{
  new, position, raise_at, merge_window, plan_at, push_key, add_window, add_windows,
}
use postfix_ratelimitd.Limiter.Keys.{
  sasl_identity_kind, contains_char, replace_char, escape_identity_value, identity, bucket_key,
}
use postfix_ratelimitd.Limiter.Keys.Injective.{bucket_key-injective}
use postfix_ratelimitd.Limiter.Script.{
  lower, min_id, stale, may_be_stale, prune, record_key, record_keys, run_script, check_windows,
  window_total, add_counted,
}
use postfix_ratelimitd.Limiter.Check.{answered, lost_reply, check_sasl, deliver, read_reply}
use postfix_ratelimitd.Limiter.Connect.{
  connect_and_check, called_commands, server, connect_and_check_needs,
}
use postfix_ratelimitd.Limiter.World.{
  Call, check, elapse, start, run, step, check_step, elapse_step, recorded,
}
use postfix_ratelimitd.Config.Window.{Window, from_hours, from_secs}
use postfix_ratelimitd.Config.Bucket.{bucket_size}
use postfix_ratelimitd.Config.Plan.Shape.{HasRow}
use postfix_ratelimitd.Config.Plan.Admission.{AdmitsWindow}
use postfix_ratelimitd.Valkey.Memory.{memory, memory-IsValkey}
use postfix_ratelimitd.Limiter.Check.Atomic.{checked, rejected_unchanged, accepted-Recorded}
use postfix_ratelimitd.Limiter.Script.Recording.{Recorded}
use postfix_ratelimitd.Limiter.Script.Prune.{prune_shortcut}
use postfix_ratelimitd.Limiter.Script.Fresh.{IsFresh}
use postfix_ratelimitd.Limiter.Log.{recorded_between}
use postfix_ratelimitd.Limiter.World.Recovery.{IsOver, next_reply-recovers}
use postfix_ratelimitd.Limiter.World.Sliding.{sliding_limit}
use postfix_ratelimitd.Limiter.World.Verdict.{
  next_reply, recent_total, accepted_within, accepts_with_room,
}

abbrev prefix : Text
prefix = codes "p"

abbrev alice : Text
alice = codes "alice"

abbrev ten_an_hour : List Window
ten_an_hour = record { count = 10; duration = from_hours 1 } ∷ []

abbrev limits : Text → List Window
limits user = ten_an_hour

abbrev calls : List Call
calls = check alice 3 answered ∷ elapse 60 ∷ check alice 4 lost_reply ∷ elapse 60 ∷ []

sliding_limit_example :
    All
      (AdmitsWindow (λ span.
        recorded_between (run memory prefix limits (start memory) calls).log alice 5 (5 + span)))
      (limits alice)
sliding_limit_example = sliding_limit memory memory-IsValkey prefix limits calls alice 5

fits : next_reply memory memory-IsValkey prefix limits calls alice 2 ≡ ok true
unfolding run step check_step elapse_step recorded check_sasl run_script memory new add_windows
    add_window plan_at push_key position merge_window raise_at bucket_size bucket_key identity
    escape_identity_value contains_char replace_char decimal check_windows window_total add_counted
    record_keys record_key prune stale may_be_stale min_id lower text_eq deliver read_reply
fits = refl

exceeds_ten : next_reply memory memory-IsValkey prefix limits calls alice 4 ≡ ok false
unfolding run step check_step elapse_step recorded check_sasl run_script memory new add_windows
    add_window plan_at push_key position merge_window raise_at bucket_size bucket_key identity
    escape_identity_value contains_char replace_char decimal check_windows window_total add_counted
    record_keys record_key prune stale may_be_stale min_id lower text_eq deliver read_reply
exceeds_ten = refl

accepted_within_example :
    All
      (AdmitsWindow (recent_total memory memory-IsValkey prefix limits calls alice 2))
      (limits alice)
accepted_within_example = accepted_within memory memory-IsValkey prefix limits calls alice 2 fits

has_room :
    All
      (AdmitsWindow (λ span.
        recent_total memory memory-IsValkey prefix limits calls alice 2
          (span + bucket_size (from_secs span))))
      (limits alice)
unfolding run step check_step elapse_step recorded check_sasl run_script memory new add_windows
    add_window plan_at push_key position merge_window raise_at bucket_size bucket_key identity
    escape_identity_value contains_char replace_char decimal check_windows window_total add_counted
    record_keys record_key prune stale may_be_stale min_id lower text_eq deliver read_reply
has_room = (omega arith, tt)

accepts_with_room_example : next_reply memory memory-IsValkey prefix limits calls alice 2 ≡ ok true
accepts_with_room_example =
    accepts_with_room memory memory-IsValkey prefix limits calls alice 2 has_room

rested : All (IsOver memory memory-IsValkey prefix limits calls alice 10 4000) (limits alice)
unfolding bucket_size
rested = ((omega arith, omega arith), tt)

next_reply-recovers_example :
    next_reply memory memory-IsValkey prefix limits (calls ++ elapse 4000 ∷ []) alice 10 ≡ ok true
next_reply-recovers_example =
    next_reply-recovers memory memory-IsValkey prefix limits calls alice 10 4000 rested

abbrev used : memory.Db
used = (run memory prefix limits (start memory) calls).db

over : (check_sasl memory prefix alice 4 (new ten_an_hour) none answered used).0 ≡ ok false
unfolding run step check_step elapse_step recorded check_sasl run_script memory new add_windows
    add_window plan_at push_key position merge_window raise_at bucket_size bucket_key identity
    escape_identity_value contains_char replace_char decimal check_windows window_total add_counted
    record_keys record_key prune stale may_be_stale min_id lower text_eq deliver read_reply
over = refl

rejected_unchanged_example :
    (check_sasl memory prefix alice 4 (new ten_an_hour) none answered used).1 ≡ used
rejected_unchanged_example =
    rejected_unchanged memory prefix alice 4 (new ten_an_hour) none used answered over

hourly : HasRow (new ten_an_hour) 64 3600
unfolding run step check_step elapse_step recorded check_sasl run_script memory new add_windows
    add_window plan_at push_key position merge_window raise_at bucket_size bucket_key identity
    escape_identity_value contains_char replace_char decimal check_windows window_total add_counted
    record_keys record_key prune stale may_be_stale min_id lower text_eq deliver read_reply
hourly = record { index = 0; size_at = refl; kept_at = refl }

accepted : (checked memory memory-IsValkey prefix alice 2 ten_an_hour none used).0 ≡ ok true
unfolding run step check_step elapse_step recorded check_sasl run_script memory new add_windows
    add_window plan_at push_key position merge_window raise_at bucket_size bucket_key identity
    escape_identity_value contains_char replace_char decimal check_windows window_total add_counted
    record_keys record_key prune stale may_be_stale min_id lower text_eq deliver read_reply
accepted = refl

abbrev alices_key : Text
alices_key = bucket_key prefix (identity sasl_identity_kind alice) 64

accepted-Recorded_example :
    Recorded memory alices_key 64 3600 120 2 used
      (checked memory memory-IsValkey prefix alice 2 ten_an_hour none used).1
    × IsFresh memory memory-IsValkey 120 2 alices_key 64 3600
        (checked memory memory-IsValkey prefix alice 2 ten_an_hour none used).1
unfolding run step check_step elapse_step recorded check_sasl run_script memory new add_windows
    add_window plan_at push_key position merge_window raise_at bucket_size bucket_key identity
    escape_identity_value contains_char replace_char decimal check_windows window_total add_counted
    record_keys record_key prune stale may_be_stale min_id lower text_eq deliver read_reply
accepted-Recorded_example =
    accepted-Recorded memory memory-IsValkey prefix alice 2 ten_an_hour none used 64 3600 hourly
      accepted

prune_shortcut_example :
    may_be_stale (pos 6400) 64 (min_id none ((99, 3) ∷ (100, 4) ∷ []))
    ≡ not (is_empty (stale (pos 6400) 64 ((99, 3) ∷ (100, 4) ∷ [])))
prune_shortcut_example = prune_shortcut (pos 6400) 64 ((99, 3) ∷ (100, 4) ∷ [])

abbrev odd_name : Text
odd_name = codes "a:b"

bucket_key-injective_example :
    (sasl_identity_kind ≡ sasl_identity_kind) × (odd_name ≡ odd_name) × ◌≡◌ {A = ℕ} 64 64
bucket_key-injective_example =
    bucket_key-injective prefix sasl_identity_kind sasl_identity_kind odd_name odd_name 64 64
      (omega arith) (omega arith) refl

-- A server from before HINCRBY
abbrev has_old : Text → Bool
has_old name = not (text_eq name (codes "HINCRBY"))

connect_and_check_needs_example : (connect_and_check (server has_old true true) ≡ ok tt) ↔ (
    ◌≡◌ {A = Bool} true true
    × ◌≡◌ {A = Bool} true true
    × All (λ name. has_old name ≡ true) called_commands)
connect_and_check_needs_example = connect_and_check_needs has_old true true
