-- ===== src/Shell/Run.antt =====
-- shell_loop of src/kernel.c: what each command does. The tree of files, the heap and the serial line
-- are those of one machine: a command of src/fs.c runs on the heap of the kernel. `none` is a run that
-- does not end, that the fuel does not see the end of, or that reads outside of the process table.
use os_itsc.Base.{
  ℕ, zero, suc, ◌+◌, Bool, true, false, ◌&&◌, Option, none, some, List, ◌++◌, ℤ, pos, negsuc, ◌==◌,
  if◌then◌else◌,
}
use os_itsc.Allocator.{Allocator}
use os_itsc.Console.{text, uart_int}
use os_itsc.Disk.{Sectors}
use os_itsc.Fs.{Info, Nodes, Level, Fs}
use os_itsc.Fs.Table.{Table}
use os_itsc.Heap.{Heap}
use os_itsc.Heap.Calls.{kmalloc, kfree}
use os_itsc.Heap.Demo.{Printed}
use os_itsc.Kernel.{unused, terminated, Pcb, Kernel, uart_print}
use os_itsc.Proc.{to_int}
use os_itsc.Proc.Copies.{ProcessInfo}
use os_itsc.Proc.Load.{load_and_run, load_addr}
use os_itsc.Proc.Pipeline.{is_equal, execute_pipeline}
use os_itsc.Proc.Spawn.{Machine}
use os_itsc.Strings.{is_pipeline}
use os_itsc.Syscall.{Regs}
use os_itsc.Vga.{Term}

-- The heap of the kernel as src/fs.c uses it; `none` is behind a walk that does not end.
abbrev pub given : Option (ℕ × Heap) → ℕ × Option Heap
given none = (0, none)
given (some (p, h)) = (p, some h)

unfoldable pub give : ℕ → Option Heap → ℕ × Option Heap
give size none = (0, none)
give size (some h) = given (kmalloc size h)

unfoldable pub take_back : ℕ → Option Heap → Option Heap
take_back p none = none
take_back p (some h) = kfree p h

abbrev pub kernel_heap : Allocator
kernel_heap = record { State = Option Heap; malloc = give; free = take_back }

-- The place in the tree of files.
pub record Place : Type 0 where
  pub above : List Level
  pub here : Info
  pub children : Nodes

pub record System : Type 0 where
  pub machine : Machine
  pub place : Place
  pub disk : Sectors
  pub term : Term

abbrev pub fs_of : System → Fs kernel_heap
fs_of s = record {
  above = s.place.above;
  here = s.place.here;
  children = s.place.children;
  heap = some s.machine.kernel.heap;
  serial = s.machine.kernel.serial;
}

-- The machine after a command of src/fs.c.
abbrev pub put_heap : System → Fs kernel_heap → Option Heap → Option System
put_heap s fs none = none
put_heap s fs (some h) = some (record s {
  machine = record s.machine { kernel = record s.machine.kernel { heap = h; serial = fs.serial } };
  place = record { above = fs.above; here = fs.here; children = fs.children };
})

unfoldable pub put_fs : System → Fs kernel_heap → Option System
put_fs s fs = put_heap s fs fs.heap

abbrev pub with_kernel : (Kernel → Kernel) → System → System
with_kernel f s = record s { machine = record s.machine { kernel = f s.machine.kernel } }

abbrev pub say_line : List ℕ → System → System
say_line t s = with_kernel (uart_print t) s

abbrev pub kernel_result : System → Option Kernel → Option System
kernel_result s none = none
kernel_result s (some k) = some (record s { machine = record s.machine { kernel = k } })

abbrev pub machine_result : System → Option Machine → Option System
machine_result s none = none
machine_result s (some m) = some (record s { machine = m })

-- A process of a loaded program that is in the table.
abbrev pub is_program : ℕ → Pcb → Bool
is_program target p =
    p.entry == target && elim p.state [ terminated ↦ false | unused ↦ false | _ ↦ true ]

unfoldable pub has_program_from : ℕ → ℕ → ℕ → Kernel → Bool
has_program_from target zero i k = false
has_program_from target (suc n) i k =
    let rest = has_program_from target n (i + 1) k in
    if is_program target (k.proc_table i) then true else rest

abbrev pub help_text : List ℕ
help_text =
    text "Comenzi Sistem de Fisiere:\n"
    ++ text "  ls                      - Listeaza fisierele\n"
    ++ text "  mkdir <nume>            - Creaza director\n"
    ++ text "  cd <nume>               - Schimba directorul (.. pt inapoi)\n"
    ++ text "  rm <nume>               - Sterge fisier/director\n"
    ++ text "  cat <nume>              - Afiseaza continutul unui fisier\n"
    ++ text "  write <nume> <text>     - Scrie text intr-un fisier\n"
    ++ text "  touch <nume>            - Creeaza un fisier \n"
    ++ text "Comenzi Procese:\n"
    ++ text "  preempt                 - Activeaza modul preemptiv (Activat by default)\n"
    ++ text "  coop                    - Activeaza modul cooperativ\n"
    ++ text "  ps                      - Listeaza procesele si starile lor\n"
    ++ text "  kill <pid>              - Termina un proces\n"
    ++ text "  wait <pid> [t]          - Pune un proces in WAITING (t ticks, default 10)\n"
    ++ text "  exec <prog>             - Executa un program (u1, u2)\n"
    ++ text "  exec <prog1> | <prog2>  - Executa doua programe in pipeline (u1, u2)\n"
    ++ text "Comenzi Memorie:\n"
    ++ text "  mem                     - Testeaza heap-ul\n"
    ++ text "  pmem                    - Testeaza memoria in procese\n"
    ++ text "Alte comenzi: exit, time, yield, save\n"

-- A system call of the shell; these read no other register.
abbrev pub call_of : ℕ → Regs
call_of n = record { eax = n; ebx = 0; ecx = 0; edx = 0 }

abbrev pub say_ticks : System → Option (Regs × Kernel) → Option System
say_ticks s none = none
say_ticks s (some (r, k)) = kernel_result s (
    some (
      uart_print (text "\n")
        (uart_print (uart_int (to_int r.eax)) (uart_print (text "Ticks de la boot: ") k))))

abbrev pub after_call : System → Option (Regs × Kernel) → Option System
after_call s none = none
after_call s (some (r, k)) = kernel_result s (some k)

abbrev pub after_test : System → Option (Unit {0} × Printed) → Option System
after_test s none = none
after_test s (some (_, (h, out))) =
    some (with_kernel (λ k. uart_print out (record k { heap = h })) s)

-- The addresses of process1, process2 and process3, the code of the two programs and of the
-- processes, what stands on the stack where a table is not set, and what happens while the processor
-- halts, and the addresses of the kernel's own data.
pub record Outside : Type 0 where
  pub entry1 : ℕ
  pub entry2 : ℕ
  pub entry3 : ℕ
  pub programs : ℕ → List ℕ
  pub infos : ℕ → ProcessInfo
  pub stale : Table
  pub interrupts : Machine → Option Machine
  pub fuel : ℕ
  pub own : ℕ → Bool

-- The wait of `exec` for the program at an address.
unfoldable pub wait_program : (Machine → Option Machine) → ℕ → ℕ → Machine → Option Machine
unfolding has_program_from
wait_program interrupts target zero m = none
wait_program interrupts target (suc fuel) m =
    if has_program_from target m.kernel.nr_procese 0 m.kernel
    then (elim (interrupts m) [ none ↦ none | some t ↦ wait_program interrupts target fuel t ])
    else some m

abbrev pub after_load : Outside → ℕ → Machine → ℤ × Kernel → Option Machine
after_load o target m (negsuc _, k) = some (record m { kernel = k })
after_load o target m (pos _, k) = wait_program o.interrupts target o.fuel (record m { kernel = k })

-- `load_and_run(index)` and the wait for it.
unfoldable pub run_program : Outside → ℕ → Machine → Option Machine
unfolding load_and_run wait_program
run_program o index m =
    after_load o (load_addr index) m (load_and_run o.programs (pos index) m.kernel)

-- The branch of `exec `.
unfoldable pub run_exec : Outside → List ℕ → Machine → Option Machine
unfolding execute_pipeline run_program is_equal is_pipeline
run_exec o msg m =
    if is_pipeline msg
    then execute_pipeline o.interrupts o.programs o.fuel msg m
    else if is_equal msg (text "u1")
    then run_program o 0 m
    else if is_equal msg (text "u2")
    then run_program o 1 m
    else some m
