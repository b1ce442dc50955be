-- ===== src/Limiter/Script/Prune.antt =====
-- The pruning of lua/check_and_record.lua: its `min_id` shortcut, and what it removes.
use postfix_ratelimitd.Base.{
  ℕ, ◌+◌, ◌*◌, ◌≤◌, ◌≡◌, is_empty, refl, ◌∙◌, Bool, true, false, not, ◌||◌, [], ◌∷◌, Option, none,
  some, arith, ℤ, pos, negsuc, at_most,
}
use postfix_ratelimitd.Valkey.{Entries, member}
use postfix_ratelimitd.Limiter.Script.{lower, min_id, stale, may_be_stale}

abbrev pub any_stale : ℤ → ℕ → Entries → Bool
any_stale oldest size [] = false
any_stale oldest size ((id, c) ∷ rest) =
    at_most ((id + 1) * size) oldest || any_stale oldest size rest

scaled_mono : (a b size : ℕ) → a ≤ b → (a + 1) * size ≤ (b + 1) * size
scaled_mono a b size h = grind arith

may_be_stale-lower :
    (oldest : ℤ) (size : ℕ) (least : Option ℕ) (id : ℕ)
    → may_be_stale oldest size (lower least id)
      ≡ (may_be_stale oldest size least || at_most ((id + 1) * size) oldest)
unfolding may_be_stale lower
may_be_stale-lower (pos m) size none id = ground arith
may_be_stale-lower (pos m) size (some least) id =
    ground (arith, scaled_mono id least size, scaled_mono least id size)
may_be_stale-lower (negsuc m) size none id = refl
may_be_stale-lower (negsuc m) size (some least) id = ground arith

may_be_stale-min_id :
    (oldest : ℤ) (size : ℕ) (least : Option ℕ) (l : Entries)
    → may_be_stale oldest size (min_id least l)
      ≡ (may_be_stale oldest size least || any_stale oldest size l)
unfolding min_id
may_be_stale-min_id oldest size least [] = ground arith
may_be_stale-min_id oldest size least ((id, c) ∷ rest) = ground (
  arith,
  may_be_stale-min_id oldest size (lower least id) rest,
  may_be_stale-lower oldest size least id,
)

any_stale-stale :
    (oldest : ℤ) (size : ℕ) (l : Entries)
    → any_stale oldest size l ≡ not (is_empty (stale oldest size l))
unfolding stale
any_stale-stale oldest size [] = refl
any_stale-stale oldest size ((id, c) ∷ rest) = ground (arith, any_stale-stale oldest size rest)

-- The shortcut of the script is exact: by the smallest bucket id alone it runs HDEL exactly when
-- the list of stale ids has an element, whatever the entries and their order.
pub prune_shortcut :
    (oldest : ℤ) (size : ℕ) (l : Entries)
    → may_be_stale oldest size (min_id none l) ≡ not (is_empty (stale oldest size l))
unfolding may_be_stale
prune_shortcut oldest size l =
    may_be_stale-min_id oldest size none l ∙ any_stale-stale oldest size l

pub stale_sound :
    (oldest : ℤ) (size : ℕ) (l : Entries) (id : ℕ)
    → member id (stale oldest size l) ≡ true
    → at_most ((id + 1) * size) oldest ≡ true
unfolding stale
stale_sound oldest size [] id h = cc
stale_sound oldest size ((j, c) ∷ rest) id h = ground (arith, stale_sound oldest size rest id)
