-- ===== src/Sched/Invariant.antt =====
-- What is to hold of the process table of src/kernel.c between ticks.
use os_itsc.Base.{
  Returns, returns, ℕ, ◌+◌, ◌%◌, ◌≤◌, ◌<◌, ◌≡◌, Bool, true, false, not, ◌&&◌, ◌||◌, ℤ, pos, negsuc,
  ltb, ◌==◌, arith,
}
use os_itsc.Heap.Chain.{IsHeap}
use os_itsc.Kernel.{
  ProcState, ready, running, waiting, is_running, max_processes, Pcb, Kernel, set_proc, state_of,
}
use os_itsc.Sched.{wake, update_waiting, switch_to, switch_after}
use os_itsc.Sched.Tables.{update_waiting_lem}
use os_itsc.Sched.Pick.{found, nobody, pick_next_ready-Picked}

abbrev pub is_active : ProcState → Bool
is_active ready = true
is_active running = true
is_active waiting = true
is_active _ = false

abbrev pub is_current : ℤ → ℕ → Bool
is_current (pos c) i = c == i
is_current (negsuc _) i = false

-- A slot in use is ready, running or waiting, and runs only if it is the current one.
abbrev pub slot_ok : ℤ → ℕ → ProcState → Bool
slot_ok cur i st = is_active st && (not (is_running st) || is_current cur i)

abbrev pub placed : ℤ → ℕ → Bool
placed (pos c) n = ltb c n
placed (negsuc _) n = true

-- `nr_procese` is within the table, `current` is a process or negative, and every process is active,
-- with at most the current one running; the free list of the heap is a chain in the heap.
pub record IsSched (k : Kernel) : Type 0 where
  pub fits : k.nr_procese ≤ max_processes
  pub where_ok : placed k.current k.nr_procese ≡ true
  pub heap_ok : IsHeap k.heap
  pub slots : (i : ℕ) → i < k.nr_procese → slot_ok k.current i (state_of k i) ≡ true

-- The same, and no process runs.
pub record IsParked (k : Kernel) : Type 0 where
  pub fits : k.nr_procese ≤ max_processes
  pub where_ok : placed k.current k.nr_procese ≡ true
  pub heap_ok : IsHeap k.heap
  pub slots :
      (i : ℕ)
      → i < k.nr_procese
      → (is_active (state_of k i) && not (is_running (state_of k i))) ≡ true

-- The invariant reads four parts of the state alone.
pub IsSched-congr :
    {k t : Kernel}
    → t.proc_table ≡ k.proc_table
    → t.nr_procese ≡ k.nr_procese
    → t.current ≡ k.current
    → t.heap ≡ k.heap
    → IsSched k
    → IsSched t
IsSched-congr {k} {t} p n c h v = record {
  heap_ok = rw h v.heap_ok;
  fits = rw n v.fits;
  where_ok = rw (n, c) v.where_ok;
  slots = rw (p, n, c) v.slots;
}

pub parked-IsSched : {k : Kernel} → IsParked k → IsSched k
parked-IsSched {k} p = record {
  fits = p.fits;
  where_ok = p.where_ok;
  heap_ok = p.heap_ok;
  slots = λ i lt. ground (arith, p.slots i lt);
}

pub update_waiting-IsSched : {k : Kernel} → IsSched k → IsSched (update_waiting k)
unfolding wake
update_waiting-IsSched {k} v = rw (update_waiting_lem k) (record {
  fits = v.fits;
  where_ok = v.where_ok;
  heap_ok = v.heap_ok;
  slots = λ i lt. ground (arith, v.slots i lt);
})

pub switch_to-IsSched :
    {k : Kernel} (idx slice : ℕ)
    → idx < k.nr_procese
    → IsParked k
    → IsSched (record (switch_to (pos idx) k) { slice = slice })
unfolding switch_to
switch_to-IsSched {k} idx slice lt p = record {
  fits = p.fits;
  where_ok = ground arith;
  heap_ok = p.heap_ok;
  slots = λ i h. ground (arith, p.slots i h);
}

idle-IsSched : {k : Kernel} (slice : ℕ) → IsParked k → IsSched (record k { slice = slice })
idle-IsSched {k} slice p =
    let v = parked-IsSched p in
    record { fits = v.fits; where_ok = v.where_ok; heap_ok = v.heap_ok; slots = v.slots }

pub switch_after-IsSched :
    {k : Kernel} (c : ℕ) → c < k.nr_procese → IsParked k → Returns IsSched (switch_after c k)
unfolding switch_after
switch_after-IsSched {k} c lt p = elim (pick_next_ready-Picked k ((c + 1) % k.nr_procese)) [
  | found j lo hi r before e ↦
      rw (e, switch_after) (returns (switch_to-IsSched _ 0 (omega arith) p))
  | nobody before e ↦ rw (e, switch_after) (returns (idle-IsSched 0 p))
]

-- With the process that alone may run taken off the processor, none runs.
pub set_state-IsParked :
    {k : Kernel} (c : ℕ) (p : Pcb)
    → k.current ≡ pos c
    → is_active p.state ≡ true
    → is_running p.state ≡ false
    → IsSched k
    → IsParked (set_proc c p k)
set_state-IsParked {k} c p e a r v = record {
  fits = v.fits;
  where_ok = v.where_ok;
  heap_ok = v.heap_ok;
  slots = λ i lt. ground (arith, v.slots i lt);
}
