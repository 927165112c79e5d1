-- ===== src/Sched.antt =====
-- The scheduler of src/kernel.c: pick_next_ready, update_waiting, yield and scheduler_tick.
-- `none` is a read of `proc_table` outside its bounds, which C leaves undefined, or no result of the
-- code that is called.
-- What a process does when the scheduler calls its entry is the argument `call`.
pub mod Tables
pub mod Pick
pub mod Invariant
pub mod Steps
pub mod Tick
pub mod Total
pub mod Waiting
pub mod Samples
pub mod Tests
use os_itsc.Base.{
  ℕ, zero, suc, ◌+◌, ◌-◌, ◌%◌, Bool, true, false, not, ◌&&◌, ◌||◌, Option, none, some, ℤ, pos,
  negsuc, minus_one, ◌+ℤ◌, ◌-ℤ◌, ltb_ℤ, leb_ℤ, ltb, leb, ◌==◌, if◌then◌else◌, for_range, ◌++◌,
}
use os_itsc.Console.{text, kprint_int}
use os_itsc.Kernel.{
  unused, ready, running, waiting, terminated, is_running, is_runnable, max_processes, quantum, Pcb,
  Kernel, kprint, set_proc, set_state, state_of,
}

-- `a % n` on `int`: the result has the sign of `a`.
unfoldable pub rem_ℤ : ℤ → ℕ → ℤ
rem_ℤ (pos a) n = pos (a % n)
rem_ℤ (negsuc a) n = let r = (a + 1) % n in if r == 0 then pos 0 else negsuc (r - 1)

-- The loop of `pick_next_ready` from round `i` on, with the rounds left first.
unfoldable pub pick_from : ℕ → ℕ → ℤ → Kernel → Option ℤ
pick_from zero i from k = some minus_one
pick_from (suc n) i from k =
    let rest = pick_from n (i + 1) from k in
    elim (rem_ℤ (from +ℤ pos i) k.nr_procese) [
      | pos idx ↦ if is_runnable (state_of k idx) then some (pos idx) else rest
      | negsuc _ ↦ none
    ]

unfoldable pub pick_next_ready : ℤ → Kernel → Option ℤ
unfolding pick_from rem_ℤ
pick_next_ready from k = pick_from k.nr_procese 0 from k

-- The body of `update_waiting` for one process.
unfoldable pub wake : Pcb → Pcb
wake p =
    let ticks = if ltb_ℤ (pos 0) p.wait_ticks then p.wait_ticks -ℤ pos 1 else p.wait_ticks in
    elim p.state [
      | waiting ↦ record p {
        wait_ticks = ticks;
        state = if leb_ℤ ticks (pos 0) then ready else waiting;
      }
      | _ ↦ p
    ]

unfoldable pub update_waiting : Kernel → Kernel
unfolding wake
update_waiting k = for_range k.nr_procese 0 (λ i t. set_proc i (wake (t.proc_table i)) t) k

-- `if (next >= 0) { current = next; proc_table[current].state = PROC_RUNNING; }`
unfoldable pub switch_to : ℤ → Kernel → Kernel
switch_to (negsuc _) k = k
switch_to (pos next) k = record (set_state next running k) { current = pos next }

-- The pick behind process `c`, and the switch to it.
unfoldable pub switch_after : ℕ → Kernel → Option Kernel
unfolding pick_next_ready switch_to
switch_after c k = elim (pick_next_ready (pos ((c + 1) % k.nr_procese)) k) [
  | none ↦ none
  | some next ↦ some (record (switch_to next k) { slice = 0 })
]

-- `yield` with a current process.
unfoldable pub yield_at : ℕ → Kernel → Option Kernel
unfolding switch_after
yield_at c k =
    let said =
      kprint (text "[Yield] Process " ++ kprint_int (pos (c + 1)) ++ text " yielding\n") k in
    let p = said.proc_table c in
    let parked =
      if is_running p.state
      then set_proc c (record p { state = waiting; wait_ticks = pos 3 }) said
      else said in
    switch_after c parked

-- `yield` for `current`, its first argument.
unfoldable pub yield_from_current : ℤ → Kernel → Option Kernel
unfolding yield_at
yield_from_current (pos c) k =
    if k.preemptive_mode || not (ltb c k.nr_procese) then some k else yield_at c k
yield_from_current (negsuc _) k = some k

unfoldable pub yield : Kernel → Option Kernel
unfolding yield_from_current
yield k = yield_from_current k.current k

-- The loop that sets `has_ready`.
unfoldable pub has_ready_from : ℕ → ℕ → Kernel → Bool
has_ready_from zero i k = false
has_ready_from (suc n) i k = is_runnable (state_of k i) || has_ready_from n (i + 1) k

-- The current process stays if it is running; if not, the next one that is ready is picked. The
-- flag is false where `scheduler_tick` returns for want of one.
unfoldable pub pick_anew : ℤ → Kernel → Option (Bool × Kernel)
unfolding pick_next_ready switch_to
pick_anew from k = elim (pick_next_ready from k) [
  | none ↦ none
  | some (negsuc n) ↦ some (false, k)
  | some (pos next) ↦ some (true, record (switch_to (pos next) k) { slice = 0 })
]

-- `pick_current` for `current`, its first argument.
unfoldable pub pick_current_from : ℤ → Kernel → Option (Bool × Kernel)
unfolding pick_anew
pick_current_from (pos c) k =
    if ltb c k.nr_procese && is_running (state_of k c) then some (true, k) else pick_anew (pos c) k
pick_current_from (negsuc m) k = pick_anew (negsuc m) k

unfoldable pub pick_current : Kernel → Option (Bool × Kernel)
unfolding pick_current_from
pick_current k = pick_current_from k.current k

-- The loop that moves the processes behind `c` down by one.
unfoldable pub shift_down : ℕ → Kernel → Kernel
shift_down c k = for_range (k.nr_procese - 1 - c) c (λ i t. set_proc i (t.proc_table (i + 1)) t) k

-- The process at `c` is taken out of the table, whose last slot becomes unused.
unfoldable pub remove_at : ℕ → Kernel → Kernel
unfolding shift_down
remove_at c k =
    let moved = shift_down c (set_state c terminated k) in
    let n = moved.nr_procese - 1 in record (set_state n unused moved) { nr_procese = n }

-- The process now in the slot, or the first one, becomes current.
unfoldable pub resume_at : ℕ → Kernel → Kernel
resume_at c k =
    let c' = c % k.nr_procese in
    if k.nr_procese == 0
    then record (kprint (text "All processes are finished!\n") k) { current = minus_one }
    else (elim (state_of k c') [
      | ready ↦ record (set_state c' running k) { current = pos c'; slice = 0 }
      | _ ↦ record k { current = pos c'; slice = 0 }
    ])

-- The branch of `scheduler_tick` for a current process that has finished.
unfoldable pub finish : ℕ → Kernel → Kernel
unfolding remove_at resume_at
finish c k = resume_at c (
    remove_at c
      (kprint (text "[Done] Process " ++ kprint_int (pos (c + 1)) ++ text " finished\n") k))

-- The branch for a process whose time slice is over.
unfoldable pub preempt : ℕ → Kernel → Option Kernel
unfolding switch_after
preempt c k =
    let said =
      kprint
        (text "[Preemption] Time finished PID "
          ++ kprint_int (pos (c + 1))
          ++ text " - next process\n")
        k in
    switch_after c (set_state c ready said)

-- `proc_table[current].remaining--; slice++;`
abbrev pub charged : ℕ → Kernel → Kernel
charged c k =
    let p = k.proc_table c in
    record (set_proc c (record p { remaining = p.remaining -ℤ pos 1 }) k) { slice = k.slice + 1 }

-- What follows the call of the process, for the process that is current then.
unfoldable pub charge : ℕ → Kernel → Option Kernel
unfolding finish preempt
charge c k =
    let t = charged c k in
    if leb_ℤ (t.proc_table c).remaining (pos 0)
    then some (finish c t)
    else if t.preemptive_mode && leb quantum t.slice
    then preempt c t
    else some t

-- `charge` for `current`, its first argument.
unfoldable pub charge_current : ℤ → Kernel → Option Kernel
unfolding charge
charge_current (pos d) k = if ltb d max_processes then charge d k else none
charge_current (negsuc _) k = none

module _ (call : ℕ → Kernel → Option Kernel) where
  -- `proc_table[current].entry()` and what follows.
  unfoldable pub run_at : ℤ → Kernel → Option Kernel
  unfolding charge_current
  run_at (negsuc _) k = none
  run_at (pos c) k = elim (call (k.proc_table c).entry k) [
    | none ↦ none
    | some t ↦ charge_current t.current t
  ]

  unfoldable pub scheduler_tick : Kernel → Option Kernel
  unfolding update_waiting has_ready_from pick_current run_at
  scheduler_tick k =
      let awake = update_waiting k in
      if k.nr_procese == 0
      then some k
      else if has_ready_from awake.nr_procese 0 awake
      then (elim (pick_current awake) [
        | none ↦ none
        | some (go_on, t) ↦ if go_on then run_at t.current t else some t
      ])
      else some (kprint (text "[Idle] All processes WAITING - CPU idle\n") awake)
