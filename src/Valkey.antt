-- ===== src/Valkey.antt =====
-- The Valkey server that src/limiter.rs and lua/check_and_record.lua talk to. It is not part of the
-- repository: its commands are parameters, and what the code relies on is stated as laws.
pub mod Memory
use postfix_ratelimitd.Base.{
  ℕ, ◌+◌, ◌≤◌, ◌<◌, ◌≡◌, ◌⊎◌, Bool, false, ◌&&◌, ◌||◌, List, [], ◌∷◌, map, Option, none, some, ◌==◌,
  if◌then◌else◌, or_else, Distinct,
}
use postfix_ratelimitd.Base.Text.{Text, text_eq}

-- The fields of a hash: a bucket id and its count.
abbrev pub Entries : Type 0
Entries = List (ℕ × ℕ)

abbrev pub field : ℕ → Entries → Option ℕ
field f [] = none
field f ((id, count) ∷ rest) = if id == f then some count else field f rest

abbrev pub member : ℕ → List ℕ → Bool
member f [] = false
member f (g ∷ gs) = g == f || member f gs

abbrev pub ids : Entries → List ℕ
ids = map λ e. e.0

-- `hgetall`, `hincrby`, `hdel`, `expire` and `time` are the commands that the script calls, `TIME`
-- in whole seconds. `deadline` is EXPIRETIME, and `elapse` lets time pass and keys expire.
pub record Valkey : Type 1 where
  pub Db : Type 0
  pub empty : Db
  pub time : Db → ℕ
  pub hgetall : Db → Text → Entries
  pub deadline : Db → Text → Option ℕ
  pub hincrby : Text → ℕ → ℕ → Db → Db
  pub hdel : Text → List ℕ → Db → Db
  pub expire : Text → ℕ → Db → Db
  pub elapse : ℕ → Db → Db

-- What the server's documentation says of them. A clock that is set back is excluded by `elapse`.
pub record IsValkey (V : Valkey) : Type 0 where
  pub distinct : (d : V.Db) (k : Text) → Distinct (ids (V.hgetall d k))
  pub field-empty : (k : Text) (f : ℕ) → field f (V.hgetall V.empty k) ≡ none
  pub deadline-empty : (k : Text) → V.deadline V.empty k ≡ none
  pub field-hincrby :
      (k : Text) (f n : ℕ) (d : V.Db) (j : Text) (g : ℕ)
      → field g (V.hgetall (V.hincrby k f n d) j) ≡ (
          if text_eq k j && f == g
          then some (or_else (field g (V.hgetall d j)) 0 + n)
          else field g (V.hgetall d j))
  pub time-hincrby : (k : Text) (f n : ℕ) (d : V.Db) → V.time (V.hincrby k f n d) ≡ V.time d
  pub deadline-hincrby :
      (k : Text) (f n : ℕ) (d : V.Db) (j : Text) → V.deadline (V.hincrby k f n d) j ≡ V.deadline d j
  pub field-hdel :
      (k : Text) (fs : List ℕ) (d : V.Db) (j : Text) (g : ℕ)
      → field g (V.hgetall (V.hdel k fs d) j)
        ≡ (if text_eq k j && member g fs then none else field g (V.hgetall d j))
  pub time-hdel : (k : Text) (fs : List ℕ) (d : V.Db) → V.time (V.hdel k fs d) ≡ V.time d
  -- A hash that loses its last field is gone, and its deadline with it; one that is left a field keeps
  -- its deadline.
  pub deadline-hdel_kept :
      (k : Text) (fs : List ℕ) (d : V.Db) (f n : ℕ)
      → field f (V.hgetall (V.hdel k fs d) k) ≡ some n
      → V.deadline (V.hdel k fs d) k ≡ V.deadline d k
  pub deadline-hdel_ne :
      (k : Text) (fs : List ℕ) (d : V.Db) (j : Text)
      → text_eq k j ≡ false
      → V.deadline (V.hdel k fs d) j ≡ V.deadline d j
  -- EXPIRE with a positive time to live keeps the fields, and sets the deadline of a key that is
  -- there.
  pub field-expire :
      (k : Text) (ttl : ℕ) (d : V.Db) (j : Text) (g : ℕ)
      → 0 < ttl
      → field g (V.hgetall (V.expire k ttl d) j) ≡ field g (V.hgetall d j)
  pub time-expire : (k : Text) (ttl : ℕ) (d : V.Db) → V.time (V.expire k ttl d) ≡ V.time d
  pub deadline-expire_self :
      (k : Text) (ttl : ℕ) (d : V.Db) (f n : ℕ)
      → 0 < ttl
      → field f (V.hgetall d k) ≡ some n
      → V.deadline (V.expire k ttl d) k ≡ some (V.time d + ttl)
  pub deadline-expire_ne :
      (k : Text) (ttl : ℕ) (d : V.Db) (j : Text)
      → text_eq k j ≡ false
      → V.deadline (V.expire k ttl d) j ≡ V.deadline d j
  -- Time passes; a key stays as it is, or it has reached its deadline and is gone.
  pub time-elapse : (n : ℕ) (d : V.Db) → V.time (V.elapse n d) ≡ V.time d + n
  pub elapse-keeps :
      (n : ℕ) (d : V.Db) (k : Text)
      → (((f : ℕ) → field f (V.hgetall (V.elapse n d) k) ≡ field f (V.hgetall d k))
          × (V.deadline (V.elapse n d) k ≡ V.deadline d k))
        ⊎ ((at : ℕ) × (V.deadline d k ≡ some at)
            × (at ≤ V.time d + n)
            × ((f : ℕ) → field f (V.hgetall (V.elapse n d) k) ≡ none)
            × (V.deadline (V.elapse n d) k ≡ none))
