-- ===== src/Shell/Demo.antt =====
-- The command demo in shell_loop of src/kernel.c, but for the screen.
use os_itsc.Base.{ℕ, ◌≡◌, refl, inl, inr, false, pos, ltb, if◌then◌else◌, Bool-cases, arith}
use os_itsc.Console.{text}
use os_itsc.Kernel.{ready, Pcb, Kernel, uart_print, set_proc}
use os_itsc.Proc.{fd_init}
use os_itsc.Sched.Invariant.{IsSched-congr}
use os_itsc.Sched.Tick.{IsSteady}

-- The fields that the command sets in an entry of the table; `entry` is the address of the code.
unfoldable pub demo_process : ℕ → ℕ → Pcb → Pcb
unfolding fd_init
demo_process entry kernel_pd p =
    record (fd_init (record p {
      entry = entry;
      remaining = pos 10000;
      state = ready;
      wait_ticks = pos 0;
      page_dir = kernel_pd;
      is_user = false;
    })) { pipeline_tag = false }

abbrev pub put_demo : ℕ → ℕ → Kernel → Kernel
put_demo i entry k = set_proc i (demo_process entry k.kernel_pd (k.proc_table i)) k

-- `entry1`, `entry2` and `entry3` are the addresses of process1, process2 and process3.
unfoldable pub start_demo : ℕ → ℕ → ℕ → Kernel → Kernel
unfolding demo_process
start_demo entry1 entry2 entry3 k =
    let t = put_demo 2 entry3 (put_demo 1 entry2 (put_demo 0 entry1 k)) in
    if ltb 0 k.nr_procese
    then uart_print (text "Procese deja active.\n") k
    else uart_print (text "Demo pornit.\n")
        (record t { nr_procese = 3; current = pos 0; slice = 0 })

-- With processes or without, `demo` keeps the invariant between ticks; without, it starts three
-- processes, of which the first is current.
pub start_demo-IsSteady :
    (entry1 entry2 entry3 : ℕ) (k : Kernel)
    → IsSteady k
    → IsSteady (start_demo entry1 entry2 entry3 k)
      × (k.nr_procese ≡ 0
          → ((start_demo entry1 entry2 entry3 k).nr_procese ≡ 3)
            × ((start_demo entry1 entry2 entry3 k).current ≡ pos 0))
unfolding start_demo demo_process fd_init
start_demo-IsSteady entry1 entry2 entry3 k v = elim (Bool-cases (ltb 0 k.nr_procese)) [
  | inl some_there ↦ rw some_there (
    record { sched = IsSched-congr refl refl refl refl v.sched; started = v.started },
    λ e. absurd (ground arith),
  )
  | inr nobody ↦ rw nobody (
    record {
      sched = record {
        fits = omega arith;
        where_ok = refl;
        heap_ok = v.sched.heap_ok;
        slots = λ i h. ground arith;
      };
      started = refl;
    },
    λ e. (refl, refl),
  )
]
