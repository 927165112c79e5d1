-- ===== src/Sched/Tick.antt =====
-- The parts of scheduler_tick of src/kernel.c, and the invariant between ticks.
use os_itsc.Base.{
  Returns, returns, ℕ, zero, suc, ◌+◌, ◌%◌, ◌≤◌, ◌<◌, ◌≡◌, refl, inl, inr, Bool, true, false, not,
  ◌&&◌, ◌||◌, Option, none, some, ℤ, pos, negsuc, ltb, leb, lt→ltb, ◌==◌, Bool-cases, leb_ℤ, arith,
}
use mathlib.Core.Bool.{false≢true}
use os_itsc.Kernel.{
  ready, is_running, is_runnable, max_processes, quantum, Kernel, set_proc, set_state, state_of,
  kprint,
}
use os_itsc.Pipe.{Pipes}
use os_itsc.Sched.{
  yield_at, yield_from_current, yield, has_ready_from, switch_after, switch_to, finish, preempt,
  charged, charge, charge_current, run_at,
}
use os_itsc.Sched.Pick.{found, nobody, pick_next_ready-Picked}
use os_itsc.Sched.Invariant.{placed, IsSched}
use os_itsc.Sched.Steps.{finish_lem, finish_last, finish-IsSched, yield_at-IsSched, preempt-IsSched}

abbrev pub is_index : ℤ → Bool
is_index (pos _) = true
is_index (negsuc _) = false

-- There is a current process, or at most one process to pick from.
abbrev pub is_started : ℤ → ℕ → Bool
is_started (pos _) n = true
is_started (negsuc _) n = leb n 1

-- A state with a current process.
pub record IsBusy (k : Kernel) : Type 0 where
  pub sched : IsSched k
  pub busy : is_index k.current ≡ true

-- What the scheduler relies on of the code of a process: it returns, keeps the invariant (a system
-- call may block or end a process), and leaves some process current.
abbrev pub IsCall : (ℕ → Kernel → Option Kernel) → Type 0
IsCall call = (e : ℕ) (k : Kernel) → IsBusy k → Returns IsBusy (call e k)

pub has_ready_from-false :
    (n i : ℕ) (k : Kernel) (j : ℕ)
    → has_ready_from n i k ≡ false
    → i ≤ j
    → j < i + n
    → is_runnable (state_of k j) ≡ false
unfolding has_ready_from
has_ready_from-false zero i k j h lo hi = absurd (omega arith)
has_ready_from-false (suc n) i k j h lo hi = grind (arith, has_ready_from-false n (i + 1) k j)

charged-IsSched : {k : Kernel} (c : ℕ) → IsSched k → IsSched (charged c k)
charged-IsSched {k} c v = record {
  fits = v.fits;
  where_ok = v.where_ok;
  heap_ok = v.heap_ok;
  slots = λ i lt. ground (arith, v.slots i lt);
}

-- The invariant between ticks.
pub record IsSteady (k : Kernel) : Type 0 where
  pub sched : IsSched k
  pub started : is_started k.current k.nr_procese ≡ true

steady :
    {o : Option Kernel}
    → Returns IsSched o
    → Returns (λ t. is_started t.current t.nr_procese ≡ true) o
    → Returns IsSteady o
steady (returns p) (returns q) = returns (record { sched = p; started = q })

finish-started :
    (k : Kernel) (c : ℕ)
    → c < k.nr_procese
    → is_started (finish c k).current (finish c k).nr_procese ≡ true
finish-started k c lt = elim (Bool-cases (k.nr_procese == 1)) [
  | inl one ↦ let (n, e) = finish_last k c lt (ground arith) in rw (n, e) refl
  | inr more ↦ let first = finish_lem k c 0 lt (ground arith) in rw (first.1) refl
]

index_started : (cur : ℤ) (n : ℕ) → is_index cur ≡ true → is_started cur n ≡ true
index_started cur n h = ground arith

-- A switch leaves some process current, and does not touch the pipes.
pub switch_after-index :
    (k : Kernel) (c : ℕ)
    → is_index k.current ≡ true
    → Returns (λ t. (is_index t.current ≡ true) × (t.pipes ≡ k.pipes)) (switch_after c k)
unfolding switch_after switch_to
switch_after-index k c h = elim (pick_next_ready-Picked k ((c + 1) % k.nr_procese)) [
  | found j lo hi r before e ↦ rw (e, switch_after) (returns (refl, refl))
  | nobody before e ↦ rw (e, switch_after) (returns (h, refl))
]

weaken_index :
    {P : Kernel → Type 0} {o : Option Kernel}
    → Returns (λ t. (is_index t.current ≡ true) × P t) o
    → Returns (λ t. is_started t.current t.nr_procese ≡ true) o
weaken_index (returns {a} (h, p)) = returns (index_started a.current a.nr_procese h)

preempt-started :
    (k : Kernel) (c : ℕ)
    → is_index k.current ≡ true
    → Returns (λ t. is_started t.current t.nr_procese ≡ true) (preempt c k)
unfolding preempt
preempt-started k c h = weaken_index (switch_after-index (set_state c ready (kprint _ k)) c h)

module _ {k : Kernel} (c : ℕ) (e : k.current ≡ pos c) (lt : c < k.nr_procese) (v : IsSched k) where
  -- The three branches of `charge` for a property of its result.
  charge-IsSteady : Returns IsSteady (charge c k)
  unfolding charge
  charge-IsSteady =
      let t = charged c k in
      let w = charged-IsSched c v in
      elim (Bool-cases (leb_ℤ (t.proc_table c).remaining (pos 0))) [
        | inl done ↦
            rw done (
              returns (record { sched = finish-IsSched c e lt w; started = finish-started t c lt }))
        | inr more ↦ rw more (elim (Bool-cases (k.preemptive_mode && leb quantum (k.slice + 1))) [
          | inl over ↦ rw over (steady (preempt-IsSched c e lt w) (preempt-started t c (rw e refl)))
          | inr within ↦ rw within (returns (record { sched = w; started = rw e refl }))
        ])
      ]

pub placed-lt : {c n : ℕ} {cur : ℤ} → cur ≡ pos c → placed cur n ≡ true → c < n
placed-lt e h = ground arith

charge_current-IsSteady :
    {k : Kernel} (cur : ℤ)
    → k.current ≡ cur
    → is_index cur ≡ true
    → IsSched k
    → Returns IsSteady (charge_current cur k)
unfolding charge_current
charge_current-IsSteady (negsuc m) e h v = absurd (false≢true h)
charge_current-IsSteady {k} (pos d) e h v =
    let lt : d < k.nr_procese = placed-lt e v.where_ok in
    rw (lt→ltb d max_processes (omega (arith, v.fits))) (charge-IsSteady d e lt v)

charge_after :
    {o : Option Kernel}
    → Returns IsBusy o
    → Returns IsSteady (elim o [ none ↦ none | some t ↦ charge_current t.current t ])
charge_after (returns {a} p) = charge_current-IsSteady a.current refl p.busy p.sched

pub run_at-IsSteady :
    (call : ℕ → Kernel → Option Kernel)
    → IsCall call
    → {k : Kernel} (cur : ℤ) → k.current ≡ cur
    → is_index cur ≡ true
    → IsSched k
    → Returns IsSteady (run_at call cur k)
unfolding run_at
run_at-IsSteady call good (negsuc m) e h v = absurd (false≢true h)
run_at-IsSteady call good {k} (pos c) e h v =
    charge_after (good (k.proc_table c).entry k (record { sched = v; busy = rw e refl }))

busy :
    {o : Option Kernel} (ps : Pipes)
    → Returns IsSched o
    → Returns (λ t. (is_index t.current ≡ true) × (t.pipes ≡ ps)) o
    → Returns (λ t. IsBusy t × (t.pipes ≡ ps)) o
busy ps (returns p) (returns (h, q)) = returns (record { sched = p; busy = h }, q)

yield_at-index :
    (k : Kernel) (c : ℕ)
    → is_index k.current ≡ true
    → Returns (λ t. (is_index t.current ≡ true) × (t.pipes ≡ k.pipes)) (yield_at c k)
unfolding yield_at
yield_at-index k c h = elim (Bool-cases (is_running (state_of k c))) [
  | inl r ↦ rw r (switch_after-index (set_proc c _ (kprint _ k)) c h)
  | inr r ↦ rw r (switch_after-index (kprint _ k) c h)
]

yield_from :
    {k : Kernel} (cur : ℤ)
    → k.current ≡ cur
    → IsBusy k
    → Returns (λ t. IsBusy t × (t.pipes ≡ k.pipes)) (yield_from_current cur k)
unfolding yield_from_current
yield_from (negsuc m) e b = returns (b, refl)
yield_from {k} (pos c) e b = elim (Bool-cases (k.preemptive_mode || not (ltb c k.nr_procese))) [
  | inl stay ↦ rw stay (returns (b, refl))
  | inr go ↦ rw go (
      busy k.pipes (yield_at-IsSched c e (placed-lt e b.sched.where_ok) b.sched)
        (yield_at-index k c b.busy))
]

-- With a current process and the invariant of the scheduler, `yield` ends, reads nothing outside
-- of the process table, keeps that and leaves the pipes alone.
pub yield-IsBusy : {k : Kernel} → IsBusy k → Returns (λ t. IsBusy t × (t.pipes ≡ k.pipes)) (yield k)
unfolding yield
yield-IsBusy {k} b = yield_from k.current refl b
