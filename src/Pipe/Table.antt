-- ===== src/Pipe/Table.antt =====
-- The tables of pipe.c under all of its calls: allocation, the invariant, and isolation of slots.
use os_itsc.Base.{
  ℕ, zero, suc, ◌+◌, ◌≤◌, ◌<◌, ◌≡◌, ◌≢◌, refl, ap, ◌⊎◌, inl, inr, true, false, ◌||◌, List, ℤ, pos,
  negsuc, minus_one, arith, Bool-cases, eq_refl, update, for_range, ◌==◌,
}
use os_itsc.Pipe.{
  Pipe, Pipes, max_pipes, reset, alloc_from, pipe_init, pipe_alloc, pipe_free, pipe_write,
  pipe_read, pipe_close,
}
use os_itsc.Pipe.Ring.{IsRing, write_from-Wrote, read_from-Took}
use os_itsc.Pipe.Channel.{open_channel}
use os_itsc.Pipe.Refine.{Implements, Serves, live}

-- A pipe in use has its positions in range and an end that is open.
pub record IsUsable (p : Pipe) : Type 0 where
  pub ring : IsRing p
  pub some_end : (p.read_open || p.write_open) ≡ true

pub record IsPipes (s : Pipes) : Type 0 where
  pub usable : (id : ℕ) → id < max_pipes → s.pipe_used id ≡ true → IsUsable (s.pipes id)

-- Every call of pipe.c that changes the tables.
pub data Op : Type 0 where
  alloc : Op
  free : ℤ → Op
  write : ℤ → List ℕ → Op
  read : ℤ → ℕ → Op
  close : ℤ → ℕ → Op

unfoldable pub after : Op → Pipes → Pipes
after alloc s = (pipe_alloc s).1
after (free id) s = pipe_free id s
after (write id bytes) s = (pipe_write id bytes s).1
after (read id len) s = (pipe_read id len s).2
after (close id end) s = pipe_close id end s

-- What slot `k` becomes when it is taken.
abbrev pub taken : Pipes → ℕ → Pipes
taken s k = record s {
  pipes = update s.pipes k (reset (s.pipes k));
  pipe_used = update s.pipe_used k true;
}

-- The first slot that is not in use is taken, or there is none and nothing changes.
pub data Outcome (s : Pipes) (i n : ℕ) (out : ℤ × Pipes) : Type 0 where
  took :
      (k : ℕ)
      → i ≤ k
      → k < i + n
      → s.pipe_used k ≡ false
      → ((j : ℕ) → i ≤ j → j < k → s.pipe_used j ≡ true)
      → out ≡ (pos k, taken s k)
      → Outcome s i n out
  full :
      ((j : ℕ) → i ≤ j → j < i + n → s.pipe_used j ≡ true)
      → out ≡ (minus_one, s)
      → Outcome s i n out

same_index :
    (s : Pipes) (i j : ℕ)
    → s.pipe_used i ≡ true
    → i ≤ j
    → ((i + 1 ≤ j) → s.pipe_used j ≡ true)
    → s.pipe_used j ≡ true
same_index s i j u h f = grind arith

skip :
    (s : Pipes) (i n : ℕ) (out : ℤ × Pipes)
    → s.pipe_used i ≡ true
    → Outcome s (i + 1) n out
    → Outcome s i (suc n) out
skip s i n out u (took k lo hi free_k before e) =
    took k (omega arith) (omega arith) free_k (λ j a b. same_index s i j u a (λ c. before j c b)) e
skip s i n out u (full before e) =
    full (λ j a b. same_index s i j u a (λ c. before j c (omega arith))) e

alloc_from-Outcome : (n i : ℕ) (s : Pipes) → Outcome s i n (alloc_from n i s)
unfolding alloc_from
alloc_from-Outcome zero i s = full (λ j a b. absurd (omega arith)) refl
alloc_from-Outcome (suc n) i s = elim (Bool-cases (s.pipe_used i)) [
  | inl u ↦ rw u (skip s i n _ u (alloc_from-Outcome n (i + 1) s))
  | inr f ↦ rw f (took i (omega arith) (omega arith) f (λ j a b. absurd (omega arith)) refl)
]

pub pipe_alloc-Outcome : (s : Pipes) → Outcome s 0 max_pipes (pipe_alloc s)
unfolding pipe_alloc
pipe_alloc-Outcome s = alloc_from-Outcome max_pipes 0 s

reset-Serves : (p : Pipe) → Serves (reset p) open_channel
unfolding reset
reset-Serves p = record { ring = omega arith; holds = refl; read_end = refl; write_end = refl }

pub taken-Implements : (s : Pipes) (k : ℕ) → k < max_pipes → Implements (taken s k) k open_channel
taken-Implements s k lt = live lt (rw (eq_refl k)) (rw (eq_refl k) (reset-Serves (s.pipes k))) refl

-- An allocation gives a slot that was not in use and stands for an open, empty channel; or -1, if
-- all sixteen are in use, and nothing changes.
pub pipe_alloc-Implements :
    (s : Pipes)
    → ((k : ℕ) × ((pipe_alloc s).0 ≡ pos k)
        × (s.pipe_used k ≡ false)
        × Implements (pipe_alloc s).1 k open_channel)
      ⊎ (((pipe_alloc s).0 ≡ minus_one)
          × ((pipe_alloc s).1 ≡ s)
          × ((j : ℕ) → j < max_pipes → s.pipe_used j ≡ true))
pipe_alloc-Implements s = elim (pipe_alloc-Outcome s) [
  | took k lo hi free_k before e ↦ inl (k, rw e, free_k, rw e (taken-Implements s k hi))
  | full before e ↦ inr (rw e, rw e, λ j lt. before j (omega arith) lt)
]

pub pipe_init-unused : (s : Pipes) (j : ℕ) → j < max_pipes → (pipe_init s).pipe_used j ≡ false
unfolding pipe_init for_range
pipe_init-unused s j lt = ground arith

pub pipe_init-IsPipes : (s : Pipes) → IsPipes (pipe_init s)
pipe_init-IsPipes s = record { usable = λ j lt used. ground (arith, pipe_init-unused s j lt) }

module _ {s : Pipes} (v : IsPipes s) where
  pub free-IsPipes : (id : ℤ) → IsPipes (pipe_free id s)
  unfolding pipe_free
  free-IsPipes (negsuc n) = v
  free-IsPipes (pos n) = record { usable = λ j lt used. ground (arith, v.usable j) }

  pub write-IsPipes : (id : ℤ) (bytes : List ℕ) → IsPipes (pipe_write id bytes s).1
  unfolding pipe_write
  write-IsPipes (negsuc n) bytes = v
  write-IsPipes (pos n) bytes = record {
    usable = λ j lt used.
        ground (arith, v.usable j, v.usable n, write_from-Wrote bytes 0 {p = s.pipes n});
  }

  pub read-IsPipes : (id : ℤ) (len : ℕ) → IsPipes (pipe_read id len s).2
  unfolding pipe_read
  read-IsPipes (negsuc n) len = v
  read-IsPipes (pos n) len = record {
    usable =
        λ j lt used. ground (arith, v.usable j, v.usable n, read_from-Took len {p = s.pipes n});
  }

  pub close-IsPipes : (id : ℤ) (end : ℕ) → IsPipes (pipe_close id end s)
  unfolding pipe_close
  close-IsPipes (negsuc n) end = v
  close-IsPipes (pos n) end = record {
    usable = λ j lt used. ground (arith, v.usable j, v.usable n);
  }

  pub alloc-IsPipes : IsPipes (pipe_alloc s).1
  alloc-IsPipes = elim (pipe_alloc-Outcome s) [
    | took k lo hi free_k before e ↦
        rw e (record { usable = λ j lt used. ground (arith, v.usable j, reset-Serves (s.pipes k)) })
    | full before e ↦ rw e v
  ]

  -- If every pipe in use has its positions in its buffer, a right count and an open end, then that
  -- is so after any call of pipe.c.
  pub after-IsPipes : (op : Op) → IsPipes (after op s)
  unfolding after
  after-IsPipes alloc = alloc-IsPipes
  after-IsPipes (free id) = free-IsPipes id
  after-IsPipes (write id bytes) = write-IsPipes id bytes
  after-IsPipes (read id len) = read-IsPipes id len
  after-IsPipes (close id end) = close-IsPipes id end

-- A call names a slot, or takes one that was not in use.
abbrev pub Spares : Op → ℕ → Type 0
Spares alloc j = Unit {0}
Spares (free id) j = id ≢ pos j
Spares (write id bytes) j = id ≢ pos j
Spares (read id len) j = id ≢ pos j
Spares (close id end) j = id ≢ pos j

pos-ne : {i j : ℕ} → pos i ≢ pos j → (i == j) ≡ false
pos-ne {i} {j} h = elim (Bool-cases (i == j)) [
  | inl e ↦ absurd (h (ap pos (ground arith)))
  | inr n ↦ n
]

module _ (s : Pipes) (j : ℕ) (used : s.pipe_used j ≡ true) where
  -- A call of pipe.c leaves a slot in use that it does not name as it was, and in use.
  pub after-Spares :
      (op : Op)
      → Spares op j
      → ((after op s).pipes j ≡ s.pipes j) × ((after op s).pipe_used j ≡ true)
  unfolding after pipe_free pipe_write pipe_read pipe_close
  after-Spares alloc h = elim (pipe_alloc-Outcome s) [
    | took k lo hi free_k before e ↦ rw (e, after) (ground arith, ground arith)
    | full before e ↦ rw (e, after) (refl, used)
  ]
  after-Spares (free (negsuc n)) h = (refl, used)
  after-Spares (free (pos n)) h = ground (arith, pos-ne h)
  after-Spares (write (negsuc n) bytes) h = (refl, used)
  after-Spares (write (pos n) bytes) h = ground (arith, pos-ne h)
  after-Spares (read (negsuc n) len) h = (refl, used)
  after-Spares (read (pos n) len) h = ground (arith, pos-ne h)
  after-Spares (close (negsuc n) end) h = (refl, used)
  after-Spares (close (pos n) end) h = ground (arith, pos-ne h)
