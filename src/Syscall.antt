-- ===== src/Syscall.antt =====
-- The system calls and the timer of src/idt.c.
pub mod Keeps
pub mod Timer
pub mod Through
pub mod Invariant
pub mod Tests
use os_itsc.Base.{
  ℕ, zero, suc, ◌+◌, ◌*◌, ◌/◌, ◌%◌, ◌^◌, Bool, true, false, not, ◌&&◌, ◌||◌, Option, none, some,
  List, [], ◌∷◌, ◌++◌, ℤ, pos, negsuc, minus_one, ltb, ◌==◌, if◌then◌else◌, update,
}
use os_itsc.Console.{text}
use os_itsc.Heap.Calls.{kmalloc}
use os_itsc.Kernel.{max_processes, max_fds, Kernel, kprint, set_proc, current_index}
use os_itsc.Memory.{bytes_at, store_bytes, store_int}
use os_itsc.Pipe.{Pipes, pipe_alloc, pipe_free}
use os_itsc.Proc.{
  fd_none, is_fd_none, fd_make_pipe, to_int, of_int, fd_write, fd_read, close_value, set_fd,
  kill_process,
}
use os_itsc.Sched.{yield, scheduler_tick}

-- The registers of `registers_t` that the handler reads or writes, as 32-bit words.
pub record Regs : Type 0 where
  pub eax : ℕ
  pub ebx : ℕ
  pub ecx : ℕ
  pub edx : ℕ

-- The current process and the descriptor, where `fd >= 0 && fd < MAX_FDS && current >= 0 &&
-- current < nr_procese`.
abbrev pub checked_fd : ℕ → ℤ → ℕ → Option ℕ
checked_fd fd (negsuc _) nr = none
checked_fd fd (pos c) nr = if ltb fd max_fds && ltb c nr then some c else none

unfoldable pub sys_write : Regs → Kernel → Regs × Kernel
unfolding bytes_at
sys_write r k = elim (checked_fd r.ebx k.current k.nr_procese) [
  | none ↦ (record r { eax = of_int minus_one }, k)
  | some c ↦
      let v = (k.proc_table c).fd_table r.ebx in
      let (n, t) = fd_write v (bytes_at r.edx r.ecx k.memory) k in (record r { eax = of_int n }, t)
]

-- The bytes from `p` on, `n` of them, are none of the kernel's own data, its variables and its heap.
-- The kernel does not test the pointers of a program: a call that stores over its own data is
-- followed no further, and gives `none`.
unfoldable pub is_outside : (ℕ → Bool) → ℕ → ℕ → Bool
is_outside own zero p = true
is_outside own (suc n) p = not (own p) && is_outside own n ((p + 1) % 2 ^ 32)

unfoldable pub sys_read : (ℕ → Bool) → Regs → Kernel → Option (Regs × Kernel)
unfolding is_outside store_bytes
sys_read own r k = elim (checked_fd r.ebx k.current k.nr_procese) [
  | none ↦ some (record r { eax = of_int minus_one }, k)
  | some c ↦
      let v = (k.proc_table c).fd_table r.ebx in
      let (n, bytes, t) = fd_read v r.edx k in
      if is_outside own r.edx r.ecx
      then some
          (record r { eax = of_int n }, record t { memory = store_bytes bytes r.ecx t.memory })
      else none
]

-- The loop that looks for two free descriptors: the first found, and what is looked at next.
unfoldable pub second_free : ℕ → ℕ → (ℕ → ℤ) → Option ℕ
second_free zero i t = none
second_free (suc n) i t =
    let rest = second_free n (i + 1) t in if is_fd_none (t i) then some i else rest

unfoldable pub two_free : ℕ → ℕ → (ℕ → ℤ) → Option (ℕ × ℕ)
unfolding second_free
two_free zero i t = none
two_free (suc n) i t =
    let rest = two_free n (i + 1) t in
    let second : Option (ℕ × ℕ) = elim (second_free n (i + 1) t) [
      | none ↦ none
      | some j ↦ some (i, j)
    ] in
    if is_fd_none (t i) then second else rest

-- The call 7 once a pipe is allocated, for the current process `c`.
unfoldable pub give_pipe : (ℕ → Bool) → ℕ → ℕ → Regs → Kernel → Option (Regs × Kernel)
unfolding two_free is_outside store_int
give_pipe own c id r k = elim (two_free max_fds 0 (k.proc_table c).fd_table) [
  | none ↦
      some (record r { eax = of_int minus_one }, record k { pipes = pipe_free (pos id) k.pipes })
  | some (fd0, fd1) ↦
      let t = set_fd c fd1 (fd_make_pipe id 1) (set_fd c fd0 (fd_make_pipe id 0) k) in
      if is_outside own 8 r.ebx
      then some (
        record r { eax = 0 },
        record t { memory = store_int fd1 ((r.ebx + 4) % 2 ^ 32) (store_int fd0 r.ebx t.memory) },
      )
      else none
]

-- The call 7 for `current`, the answer of `pipe_alloc` and the tables it leaves. `none` is also an
-- index outside of the process table.
unfoldable pub sys_pipe_with : (ℕ → Bool) → ℤ → ℤ → Pipes → Regs → Kernel → Option (Regs × Kernel)
unfolding give_pipe
sys_pipe_with own cur (negsuc _) ps r k =
    some (record r { eax = of_int minus_one }, record k { pipes = ps })
sys_pipe_with own (negsuc _) (pos n) ps r k = none
sys_pipe_with own (pos c) (pos n) ps r k =
    if ltb c max_processes then give_pipe own c n r (record k { pipes = ps }) else none

unfoldable pub sys_pipe : (ℕ → Bool) → Regs → Kernel → Option (Regs × Kernel)
unfolding sys_pipe_with
sys_pipe own r k = let (id, ps) = pipe_alloc k.pipes in sys_pipe_with own k.current id ps r k

unfoldable pub sys_dup : Regs → Kernel → Regs × Kernel
sys_dup r k = elim (checked_fd r.ebx k.current k.nr_procese) [
  | none ↦ (record r { eax = of_int minus_one }, k)
  | some c ↦
      if ltb r.ecx max_fds
      then (record r { eax = r.ecx }, set_fd c r.ecx ((k.proc_table c).fd_table r.ebx) k)
      else (record r { eax = of_int minus_one }, k)
]

unfoldable pub sys_close : Regs → Kernel → Regs × Kernel
unfolding close_value
sys_close r k = elim (checked_fd r.ebx k.current k.nr_procese) [
  | none ↦ (record r { eax = 0 }, k)
  | some c ↦
      let v = (k.proc_table c).fd_table r.ebx in
      (record r { eax = 0 }, set_fd c r.ebx fd_none (record k { pipes = close_value v k.pipes }))
]

unfoldable pub sys_kmalloc : Regs → Kernel → Option (Regs × Kernel)
sys_kmalloc r k = elim (kmalloc r.ebx k.heap) [
  | none ↦ none
  | some (p, h) ↦ some (record r { eax = p }, record k { heap = h })
]

unfoldable pub sys_yield : Regs → Kernel → Option (Regs × Kernel)
sys_yield r k = elim (yield (kprint (text "[Kernel] SYS_YIELD: Cedare procesor\n") k)) [
  | none ↦ none
  | some t ↦ some (r, t)
]

-- `syscall_handler`: the call is numbered in `eax`. `own` tells the addresses of the kernel's own data.
unfoldable pub syscall_handler : (ℕ → Bool) → Regs → Kernel → Option (Regs × Kernel)
syscall_handler own r k =
    if r.eax == 1
    then some (sys_write r k)
    else if r.eax == 2
    then sys_yield r k
    else if r.eax == 3
    then some (record r { eax = k.system_ticks }, k)
    else if r.eax == 4
    then sys_kmalloc r k
    else if r.eax == 5
    then some (r, kill_process k.current (kprint (text "[Kernel] SYS_EXIT: Proces terminat\n") k))
    else if r.eax == 6
    then sys_read own r k
    else if r.eax == 7
    then sys_pipe own r k
    else if r.eax == 8
    then some (sys_dup r k)
    else if r.eax == 9
    then some (sys_close r k)
    else some (r, kprint (text "[Kernel] Syscall necunoscut\n") k)

-- `system_ticks++` and `in_tick = 1`
abbrev pub counted : Kernel → Kernel
counted k = record k { system_ticks = (k.system_ticks + 1) % 2 ^ 32 }

abbrev pub entered : Kernel → Kernel
entered k = record (counted k) { in_tick = true }

-- The stack pointer is saved for the current process, the first argument, or for the idle loop.
unfoldable pub save_esp : ℤ → ℕ → Kernel → Kernel
save_esp (negsuc _) esp k = record k { kernel_idle_esp = esp }
save_esp (pos c) esp k =
    if ltb c k.nr_procese
    then set_proc c (record (k.proc_table c) { saved_esp = esp }) k
    else record k { kernel_idle_esp = esp }

-- `timer_handler_c` for the stack pointer `esp`. A tick inside a tick only counts.
unfoldable pub timer_handler : (ℕ → Kernel → Option Kernel) → ℕ → Kernel → Option Kernel
unfolding save_esp
timer_handler call esp k =
    if k.in_tick
    then some (counted k)
    else elim (scheduler_tick call (save_esp k.current esp (entered k))) [
      | none ↦ none
      | some t ↦ some (record t { in_tick = false })
    ]
