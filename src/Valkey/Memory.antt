-- ===== src/Valkey/Memory.antt =====
-- A server in memory that has the laws of `IsValkey`: they can hold together, and programs can run.
use postfix_ratelimitd.Base.{
  ℕ, ◌+◌, ◌≤◌, ◌≡◌, ◌≢◌, refl, ◌⊎◌, inl, inr, Bool, true, false, List, [], ◌∷◌, Option, none, some,
  ◌==◌, leb, if◌then◌else◌, or_else, All, Distinct, arith, Bool-cases, ℕ_discrete,
}
use postfix_ratelimitd.Base.Text.{Text, text_eq, text_eq_refl}
use postfix_ratelimitd.Valkey.{Entries, field, member, ids, Valkey, IsValkey}

pub record MemoryDb : Type 0 where
  pub clock : ℕ
  pub hashes : Text → Entries
  pub deadlines : Text → Option ℕ

bump : ℕ → ℕ → Entries → Entries
bump f n [] = (f, n) ∷ []
bump f n ((id, c) ∷ rest) = if id == f then (id, c + n) ∷ rest else (id, c) ∷ bump f n rest

without : List ℕ → Entries → Entries
without fs [] = []
without fs ((id, c) ∷ rest) =
    let kept = without fs rest in if member id fs then kept else (id, c) ∷ kept

-- The first entry of each id.
first_of_each : Entries → Entries
first_of_each [] = []
first_of_each ((id, c) ∷ rest) = (id, c) ∷ without (id ∷ []) (first_of_each rest)

has_passed : Option ℕ → ℕ → Bool
has_passed none now = false
has_passed (some at) now = leb at now

unfoldable pub memory : Valkey
unfolding bump without first_of_each has_passed
memory = record {
  Db = MemoryDb;
  empty = record { clock = 0; hashes = λ k. []; deadlines = λ k. none };
  time = λ d. d.clock;
  hgetall = λ d k. first_of_each (d.hashes k);
  deadline = λ d k. d.deadlines k;
  hincrby = λ k f n d. record d {
    hashes = λ j. if text_eq k j then bump f n (d.hashes j) else d.hashes j;
  };
  hdel = λ k fs d. record d {
    hashes = λ j. if text_eq k j then without fs (d.hashes j) else d.hashes j;
  };
  expire = λ k ttl d. record d {
    deadlines = λ j. if text_eq k j then some (d.clock + ttl) else d.deadlines j;
  };
  elapse = λ n d. record {
    clock = d.clock + n;
    hashes = λ j. if has_passed (d.deadlines j) (d.clock + n) then [] else d.hashes j;
    deadlines = λ j. if has_passed (d.deadlines j) (d.clock + n) then none else d.deadlines j;
  };
}

field-bump :
    (f n g : ℕ) (l : Entries)
    → field g (bump f n l) ≡ (if f == g then some (or_else (field g l) 0 + n) else field g l)
unfolding bump
field-bump f n g [] = ground arith
field-bump f n g ((id, c) ∷ rest) = ground (arith, field-bump f n g rest)

field-without :
    (fs : List ℕ) (g : ℕ) (l : Entries)
    → field g (without fs l) ≡ (if member g fs then none else field g l)
unfolding without
field-without fs g [] = ground arith
field-without fs g ((id, c) ∷ rest) = elim (ℕ_discrete id g) [
  | yes e ↦ rw e (ground (arith, field-without fs g rest))
  | no ne ↦ ground (arith, field-without fs g rest)
]

field-first_of_each : (g : ℕ) (l : Entries) → field g (first_of_each l) ≡ field g l
unfolding first_of_each
field-first_of_each g [] = refl
field-first_of_each g ((id, c) ∷ rest) =
    ground (arith, field-without (id ∷ []) g (first_of_each rest), field-first_of_each g rest)

All-without :
    (P : ℕ → Type 0) (fs : List ℕ) (l : Entries) → All P (ids l) → All P (ids (without fs l))
unfolding without
All-without P fs [] h = tt
All-without P fs ((id, c) ∷ rest) h = ground (arith, All-without P fs rest h.1)

Distinct-without : (fs : List ℕ) (l : Entries) → Distinct (ids l) → Distinct (ids (without fs l))
unfolding without
Distinct-without fs [] h = tt
Distinct-without fs ((id, c) ∷ rest) h =
    ground (arith, Distinct-without fs rest h.1, All-without (λ y. id ≢ y) fs rest h.0)

without-All-ne : (id : ℕ) (l : Entries) → All (λ y. id ≢ y) (ids (without (id ∷ []) l))
unfolding without
without-All-ne id [] = tt
without-All-ne id ((j, c) ∷ rest) = elim (Bool-cases (member j (id ∷ []))) [
  | inl e ↦ rw (e, without) (without-All-ne id rest)
  | inr e ↦ rw (e, without) (λ p. ground arith, without-All-ne id rest)
]

Distinct-first_of_each : (l : Entries) → Distinct (ids (first_of_each l))
unfolding first_of_each
Distinct-first_of_each [] = tt
Distinct-first_of_each ((id, c) ∷ rest) = (
  without-All-ne id (first_of_each rest),
  Distinct-without (id ∷ []) (first_of_each rest) (Distinct-first_of_each rest),
)

passed_cases :
    (o : Option ℕ) (now : ℕ)
    → (has_passed o now ≡ false)
      ⊎ ((at : ℕ) × (o ≡ some at) × (at ≤ now) × (has_passed o now ≡ true))
unfolding has_passed
passed_cases none now = inl refl
passed_cases (some at) now = elim (Bool-cases (leb at now)) [
  | inl e ↦ inr (at, refl, ground arith, e)
  | inr e ↦ inl e
]

memory-elapse-keeps :
    (n : ℕ) (d : memory.Db) (k : Text)
    → (((f : ℕ) → field f (memory.hgetall (memory.elapse n d) k) ≡ field f (memory.hgetall d k))
        × (memory.deadline (memory.elapse n d) k ≡ memory.deadline d k))
      ⊎ ((at : ℕ) × (memory.deadline d k ≡ some at)
          × (at ≤ memory.time d + n)
          × ((f : ℕ) → field f (memory.hgetall (memory.elapse n d) k) ≡ none)
          × (memory.deadline (memory.elapse n d) k ≡ none))
unfolding memory
memory-elapse-keeps n d k = elim (passed_cases (d.deadlines k) (d.clock + n)) [
  | inl e ↦ rw e (inl (λ f. refl, refl))
  | inr (at, e, le, t) ↦ rw t (inr (at, e, le, λ f. refl, refl))
]

pub memory-IsValkey : IsValkey memory
unfolding memory
memory-IsValkey = record {
  distinct = λ d k. Distinct-first_of_each (d.hashes k);
  field-empty = λ k f. refl;
  deadline-empty = λ k. refl;
  field-hincrby =
      λ k f n d j g. simp field-first_of_each (ground (arith, field-bump f n g (d.hashes j)));
  time-hincrby = λ k f n d. refl;
  deadline-hincrby = λ k f n d j. refl;
  field-hdel =
      λ k fs d j g. simp field-first_of_each (ground (arith, field-without fs g (d.hashes j)));
  time-hdel = λ k fs d. refl;
  deadline-hdel_kept = λ k fs d f n h. refl;
  deadline-hdel_ne = λ k fs d j ne. refl;
  field-expire = λ k ttl d j g p. refl;
  time-expire = λ k ttl d. refl;
  deadline-expire_self = λ k ttl d f n p e. rw text_eq_refl;
  deadline-expire_ne = λ k ttl d j ne. rw ne;
  time-elapse = λ n d. refl;
  elapse-keeps = memory-elapse-keeps;
}
