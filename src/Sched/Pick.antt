-- ===== src/Sched/Pick.antt =====
-- pick_next_ready of src/kernel.c, from a process and from -1.
use mathlib.Core.Bool.{false≢true}
use native.Mathlib.Nat.{mod-eq_of_lt}
use os_itsc.Base.{
  sym, ◌∙◌, ℕ, zero, suc, ◌+◌, ◌-◌, ◌%◌, ◌≤◌, ◌<◌, ◌≡◌, refl, inl, inr, true, false, Option, none,
  some, ℤ, pos, minus_one, ◌+ℤ◌, leb, Bool-cases, arith,
}
use os_itsc.Kernel.{Kernel, is_runnable, state_of}
use os_itsc.Sched.{rem_ℤ, pick_from, pick_next_ready}

-- The process that round `j` of a pick from `f` looks at.
abbrev pub round : ℕ → ℕ → ℕ → ℕ
round n f j = (f + j) % n

-- What a pick over the rounds from `i` to `end` comes to.
pub data Picked (k : Kernel) (f i end : ℕ) (out : Option ℤ) : Type 0 where
  found :
      (j : ℕ)
      → i ≤ j
      → j < end
      → is_runnable (state_of k (round k.nr_procese f j)) ≡ true
      → ((l : ℕ) → i ≤ l → l < j → is_runnable (state_of k (round k.nr_procese f l)) ≡ false)
      → out ≡ some (pos (round k.nr_procese f j))
      → Picked k f i end out
  nobody :
      ((l : ℕ) → i ≤ l → l < end → is_runnable (state_of k (round k.nr_procese f l)) ≡ false)
      → out ≡ some minus_one
      → Picked k f i end out

rem_pos : (f i n : ℕ) → rem_ℤ (pos f +ℤ pos i) n ≡ pos ((f + i) % n)
unfolding rem_ℤ
rem_pos f i n = ground arith

module _ (k : Kernel) (f : ℕ) where
  extend :
      (i l : ℕ)
      → is_runnable (state_of k (round k.nr_procese f i)) ≡ false
      → i ≤ l
      → (i + 1 ≤ l → is_runnable (state_of k (round k.nr_procese f l)) ≡ false)
      → is_runnable (state_of k (round k.nr_procese f l)) ≡ false
  extend i l h le rest = grind arith

  skip :
      (i end : ℕ) (out : Option ℤ)
      → is_runnable (state_of k (round k.nr_procese f i)) ≡ false
      → Picked k f (i + 1) end out
      → Picked k f i end out
  skip i end out h (found j lo hi r before e) =
      found j (omega arith) hi r (λ l a b. extend i l h a (λ c. before l c b)) e
  skip i end out h (nobody before e) = nobody (λ l a b. extend i l h a (λ c. before l c b)) e

  pick_from-Picked : (n i end : ℕ) → i + n ≡ end → Picked k f i end (pick_from n i (pos f) k)
  unfolding pick_from
  pick_from-Picked zero i end e = nobody (λ l a b. absurd (omega arith)) refl
  pick_from-Picked (suc n) i end e =
      elim (Bool-cases (is_runnable (state_of k (round k.nr_procese f i)))) [
        | inl yes_it ↦
            rw (pick_from, rem_pos f i k.nr_procese, yes_it)
              (found i (omega arith) (omega arith) yes_it (λ l a b. absurd (omega arith)) refl)
        | inr not_it ↦
            rw (pick_from, rem_pos f i k.nr_procese, not_it)
              (skip i end _ not_it (pick_from-Picked n (i + 1) end (omega arith)))
      ]

  -- A pick from a process gives the first runnable process in the circle from there on, or -1 if
  -- there is none.
  pub pick_next_ready-Picked : Picked k f 0 k.nr_procese (pick_next_ready (pos f) k)
  unfolding pick_next_ready
  pick_next_ready-Picked = pick_from-Picked k.nr_procese 0 k.nr_procese (omega arith)

wrap_once : (n i : ℕ) → i < n → (i + n) % n ≡ i
wrap_once n i h = grind arith

-- Every process is looked at in some round.
round_of : (n f i : ℕ) → f < n → i < n → (j : ℕ) × (j < n) × (round n f j ≡ i)
round_of n f i hf hi = elim (Bool-cases (leb f i)) [
  | inl le ↦ (i - f, ground arith, ground (arith, mod-eq_of_lt {n = i} {m = n} hi))
  | inr gt ↦
      (i + n - f, ground arith, ground (arith, mod-eq_of_lt {n = i} {m = n} hi, wrap_once n i hi))
]

-- If a process of the table is runnable, a pick from a process of the table gives a runnable
-- process of the table.
pick_next_ready_complete :
    (k : Kernel) (f i : ℕ)
    → f < k.nr_procese
    → i < k.nr_procese
    → is_runnable (state_of k i) ≡ true
    → (idx : ℕ) × (pick_next_ready (pos f) k ≡ some (pos idx))
      × (idx < k.nr_procese)
      × (is_runnable (state_of k idx) ≡ true)
pick_next_ready_complete k f i hf hi r = elim (pick_next_ready-Picked k f) [
  | found j lo hi' r' before e ↦ (round k.nr_procese f j, e, omega arith, r')
  | nobody before e ↦
      let (j, lt, at) = round_of k.nr_procese f i hf hi in
      let never : is_runnable (state_of k i) ≡ false = rw (← at) (before j (omega arith) lt) in
      absurd (false≢true (sym never ∙ r))
]

rem_minus_one : (n : ℕ) → 2 ≤ n → rem_ℤ (minus_one +ℤ pos 0) n ≡ minus_one
unfolding rem_ℤ
rem_minus_one n h = ground (arith, mod-eq_of_lt {n = 1} {m = n} h)

pick_from_out_of_bounds :
    (k : Kernel) (n : ℕ) → 0 < n → 2 ≤ k.nr_procese → pick_from n 0 minus_one k ≡ none
unfolding pick_from
pick_from_out_of_bounds k zero p h = absurd (omega arith)
pick_from_out_of_bounds k (suc n) p h = rw (pick_from, rem_minus_one k.nr_procese h)

-- From -1, where there is no current process yet, the pick reads `proc_table[-1]` as soon as there
-- are two processes.
pub pick_next_ready_out_of_bounds :
    (k : Kernel) → 2 ≤ k.nr_procese → pick_next_ready minus_one k ≡ none
unfolding pick_next_ready
pick_next_ready_out_of_bounds k h = pick_from_out_of_bounds k k.nr_procese (omega arith) h
