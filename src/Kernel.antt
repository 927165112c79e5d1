-- ===== src/Kernel.antt =====
-- The state that src/kernel.c, src/idt.c and src/kernel.h share.
use os_itsc.Base.{ℕ, Bool, true, false, List, ◌++◌, ℤ, pos, negsuc, ltb, update}
use os_itsc.Console.{uart_bytes}
use os_itsc.Heap.{Heap}
use os_itsc.Pipe.{Pipes}

-- `proc_state_t`
pub data ProcState : Type 0 where
  unused ready running waiting terminated : ProcState

abbrev pub is_running : ProcState → Bool
is_running running = true
is_running _ = false

-- `state == PROC_READY || state == PROC_RUNNING`
abbrev pub is_runnable : ProcState → Bool
is_runnable ready = true
is_runnable running = true
is_runnable _ = false

abbrev pub max_processes : ℕ
max_processes = 10

abbrev pub max_fds : ℕ
max_fds = 16

abbrev pub quantum : ℕ
quantum = 4

-- `pcb_t`. `entry` is the address of the code.
pub record Pcb : Type 0 where
  pub entry : ℕ
  pub remaining : ℤ
  pub state : ProcState
  pub wait_ticks : ℤ
  pub fd_table : ℕ → ℤ
  pub pipeline_tag : Bool
  pub page_dir : ℕ
  pub saved_esp : ℕ
  pub kernel_stack : ℕ
  pub user_stack : ℕ
  pub is_user : Bool

-- `serial` and `console` are the bytes sent to the serial line and to the text console so far, and
-- `serial_in` those that have come in on the serial line and are not read yet. `memory` is the bytes
-- of the address space that system calls copy to and from; `kernel_pd` is the page directory of
-- src/vmm.c.
pub record Kernel : Type 0 where
  pub proc_table : ℕ → Pcb
  pub nr_procese : ℕ
  pub current : ℤ
  pub slice : ℕ
  pub preemptive_mode : Bool
  pub system_ticks : ℕ
  pub in_tick : Bool
  pub kernel_idle_esp : ℕ
  pub pipes : Pipes
  pub heap : Heap
  pub memory : ℕ → ℕ
  pub kernel_pd : ℕ
  pub serial : List ℕ
  pub serial_in : List ℕ
  pub console : List ℕ

-- `uart_print` and `kprint`
abbrev pub uart_print : List ℕ → Kernel → Kernel
uart_print s k = record k { serial = k.serial ++ uart_bytes s }

abbrev pub kprint : List ℕ → Kernel → Kernel
kprint s k = record k { console = k.console ++ s }

-- Assignments to fields of `proc_table[i]`.
abbrev pub set_proc : ℕ → Pcb → Kernel → Kernel
set_proc i p k = record k { proc_table = update k.proc_table i p }

abbrev pub set_state : ℕ → ProcState → Kernel → Kernel
set_state i st k = set_proc i (record (k.proc_table i) { state = st }) k

abbrev pub state_of : Kernel → ℕ → ProcState
state_of k i = (k.proc_table i).state

-- `current >= 0 && current < nr_procese`
abbrev pub current_index : ℤ → ℕ → Bool
current_index (pos c) nr = ltb c nr
current_index (negsuc _) nr = false
