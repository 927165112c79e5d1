-- ===== src/Proc/Load.antt =====
-- load_and_run and list_processes of src/kernel.c.
use os_itsc.Base.{
  ℕ, ◌+◌, ◌≤◌, ◌<◌, ◌≡◌, refl, inl, inr, false, Option, none, List, [], ◌∷◌, ℤ, pos, negsuc,
  minus_one, ltb, lt→ltb, ge→ltb, ap, ◌==◌, if◌then◌else◌, for_range, Bool-cases, arith, ◌∙◌,
}
use os_itsc.Console.{text, uart_int}
use os_itsc.Kernel.{
  ProcState, ready, running, waiting, terminated, unused, max_processes, Pcb, Kernel, uart_print,
  set_proc, state_of, is_runnable,
}
use os_itsc.Memory.{store_bytes}
use os_itsc.Proc.{fd_init}
use os_itsc.Sched.{scheduler_tick}
use os_itsc.Sched.Invariant.{IsSched}
use os_itsc.Sched.Total.{scheduler_tick_out_of_bounds}

-- The word that `list_processes` shows for a state.
abbrev state_text : ProcState → List ℕ
state_text ready = text "READY   "
state_text running = text "RUNNING "
state_text waiting = text "WAITING "
state_text terminated = text "DONE    "
state_text unused = text "UNUSED  "

-- The line of process `i`.
unfoldable pub list_process : ℕ → Kernel → Kernel
list_process i k =
    let p = k.proc_table i in
    uart_print (text "\n") (
      uart_print (uart_int p.remaining) (
        uart_print (text " | ") (
          uart_print (state_text p.state)
            (uart_print (text "   | ") (uart_print ((i + b'0') ∷ []) (uart_print (text " ") k))))))

unfoldable pub list_processes : Kernel → Kernel
unfolding list_process
list_processes k =
    let head =
      uart_print (text "--------------------------------\n")
        (uart_print (text "\nPID | State    | Remaining Ticks\n") k) in
    let listed = for_range k.nr_procese 0 list_process head in
    if k.nr_procese == 0 then uart_print (text "Nu exista procese active.\n") listed else listed

-- The names and the load addresses of the two programs.
abbrev pub program_name : ℕ → List ℕ
program_name i = if i == 0 then text "u1" else text "u2"

abbrev pub load_addr : ℕ → ℕ
load_addr i = if i == 0 then 0x40_0000 else 0x50_0000

-- The process that `load_and_run` puts into the table.
unfoldable pub loaded : ℕ → ℕ → Pcb → Pcb
unfolding fd_init
loaded index kernel_pd p = fd_init (record p {
  entry = load_addr index;
  remaining = pos 50;
  state = ready;
  wait_ticks = pos 0;
  page_dir = kernel_pd;
  is_user = false;
  pipeline_tag = false;
})

-- The programs are linked in by the build: `programs i` is the bytes of `ramfs[i]`.
module _ (programs : ℕ → List ℕ) where
  unfoldable pub load_at : ℕ → Kernel → Kernel
  unfolding loaded store_bytes
  load_at index k =
      let pid = k.nr_procese in
      let copied = record k { memory = store_bytes (programs index) (load_addr index) k.memory } in
      let added = record (set_proc pid (loaded index k.kernel_pd (k.proc_table pid)) copied) {
        nr_procese = pid + 1;
      } in
      if ltb pid max_processes
      then uart_print (text " incarcat\n")
          (uart_print (program_name index) (uart_print (text "Program ") added))
      else uart_print (text "Eroare: Prea multe procese!\n") copied

  unfoldable pub load_and_run : ℤ → Kernel → ℤ × Kernel
  unfolding load_at
  load_and_run (negsuc _) k = (minus_one, k)
  load_and_run (pos index) k = if ltb 1 index then (minus_one, k) else (pos 0, load_at index k)

  added-IsSched : {k : Kernel} (index : ℕ) → IsSched k → IsSched (load_at index k)
  unfolding load_at loaded fd_init
  added-IsSched {k} index v = elim (Bool-cases (ltb k.nr_procese max_processes)) [
    | inl room ↦ rw room (record {
      fits = ground arith;
      where_ok = ground (arith, v.where_ok);
      heap_ok = v.heap_ok;
      slots = λ i lt. ground (arith, v.slots i);
    })
    | inr full ↦
        rw full
          (record { fits = v.fits; where_ok = v.where_ok; heap_ok = v.heap_ok; slots = v.slots })
  ]

  -- `load_and_run` keeps the invariant of the process table, whatever the index, and with the
  -- table full too.
  load_and_run-IsSched : {k : Kernel} (index : ℤ) → IsSched k → IsSched (load_and_run index k).1
  unfolding load_and_run
  load_and_run-IsSched (negsuc n) v = v
  load_and_run-IsSched (pos index) v = elim (Bool-cases (ltb 1 index)) [
    | inl wrong ↦ rw wrong v
    | inr known ↦ rw known (added-IsSched index v)
  ]

  load_at_fields :
      (k : Kernel) (index : ℕ)
      → k.nr_procese < max_processes
      → ((load_at index k).nr_procese ≡ k.nr_procese + 1)
        × ((load_at index k).current ≡ k.current)
        × (state_of (load_at index k) k.nr_procese ≡ ready)
  unfolding load_at loaded fd_init
  load_at_fields k index lt = rw (lt→ltb k.nr_procese max_processes lt) (refl, refl, ground arith)

  loaded_fields :
      (k : Kernel) (index : ℕ)
      → index ≤ 1
      → k.nr_procese < max_processes
      → let t = (load_and_run (pos index) k).1 in
        (t.nr_procese ≡ k.nr_procese + 1)
        × (t.current ≡ k.current)
        × (state_of t k.nr_procese ≡ ready)
  unfolding load_and_run
  loaded_fields k index h lt = rw (ge→ltb 1 index h) (load_at_fields k index lt)

  -- If there is no process and none is current, and two programs are loaded before the next tick,
  -- that tick reads `proc_table[-1]`.
  load_twice_out_of_bounds :
      (call : ℕ → Kernel → Option Kernel) (k : Kernel) (i j : ℕ)
      → i ≤ 1
      → j ≤ 1
      → k.nr_procese ≡ 0
      → k.current ≡ minus_one
      → scheduler_tick call (load_and_run (pos j) (load_and_run (pos i) k).1).1 ≡ none
  load_twice_out_of_bounds call k i j hi hj e c =
      let t = (load_and_run (pos i) k).1 in
      let (n, cur, first) = loaded_fields k i hi (omega (arith, e)) in
      let (m, cur', second) = loaded_fields t j hj (omega (arith, e, n)) in
      scheduler_tick_out_of_bounds call (load_and_run (pos j) t).1 t.nr_procese (cur' ∙ cur ∙ c)
        (omega (arith, e, n, m)) (omega (arith, m)) (ap is_runnable second)
