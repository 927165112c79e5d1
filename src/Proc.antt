-- ===== src/Proc.antt =====
-- Processes in src/kernel.c: descriptors (fd_init, fd_write, fd_read and the FD macros of
-- src/kernel.h), kill_process and wait_process.
pub mod Kill
pub mod Load
pub mod Copies
pub mod Spawn
pub mod Pipeline
pub mod Stages
pub mod Leaks
pub mod Tests
use os_itsc.Base.{
  ℕ, zero, suc, ◌+◌, ◌-◌, ◌*◌, ◌/◌, ◌%◌, ◌^◌, Bool, true, false, not, ◌&&◌, ◌||◌, List, [], ◌∷◌,
  ◌++◌, ℤ, pos, negsuc, minus_one, leb_ℤ, ltb, ltb_ℤ, leb, ◌==◌, if◌then◌else◌, update, for_range,
  length,
}
use os_itsc.Console.{text, uart_bytes, uart_int}
use os_itsc.Kernel.{
  ProcState, unused, ready, running, waiting, terminated, max_processes, max_fds, Pcb, Kernel,
  uart_print, set_proc, state_of,
}
use os_itsc.Pipe.{Pipes, pipe_write, pipe_read, pipe_close}

-- The constants below -1 are -2, -3 and -4.
abbrev pub fd_none : ℤ
fd_none = negsuc 0

abbrev pub fd_uart_in : ℤ
fd_uart_in = negsuc 1

abbrev pub fd_uart_out : ℤ
fd_uart_out = negsuc 2

abbrev pub fd_vga_out : ℤ
fd_vga_out = negsuc 3

-- FD_PIPE_ID, FD_PIPE_END and FD_MAKE_PIPE, on descriptors that are not negative.
abbrev pub fd_pipe_id : ℕ → ℕ
fd_pipe_id fd = fd / 2

abbrev pub fd_pipe_end : ℕ → ℕ
fd_pipe_end fd = fd % 2

abbrev pub fd_make_pipe : ℕ → ℕ → ℤ
fd_make_pipe id end = pos (id * 2 + end)

abbrev pub is_fd_none : ℤ → Bool
is_fd_none (negsuc n) = n == 0
is_fd_none (pos n) = false

unfoldable pub fd_init : Pcb → Pcb
fd_init p = record p {
  fd_table =
      for_range (max_fds - 3) 3 (λ i t. update t i fd_none)
        (update (update (update p.fd_table 0 fd_uart_in) 1 fd_uart_out) 2 fd_vga_out);
}

-- A 32-bit word read as an `int`, and an `int` stored in a word.
abbrev pub to_int : ℕ → ℤ
to_int w = if ltb w (2 ^ 31) then pos w else negsuc (2 ^ 32 - 1 - w)

abbrev pub of_int : ℤ → ℕ
of_int (pos n) = n % 2 ^ 32
of_int (negsuc n) = 2 ^ 32 - 1 - n % 2 ^ 32

-- What `kprint` shows of one-character strings: nothing for a NUL.
unfoldable pub visible : List ℕ → List ℕ
visible [] = []
visible (c ∷ cs) = (if c == 0 then [] else c ∷ []) ++ visible cs

unfoldable pub fd_write : ℤ → List ℕ → Kernel → ℤ × Kernel
unfolding visible
fd_write (pos fd) buf k =
    let (r, ps) = pipe_write (pos (fd_pipe_id fd)) buf k.pipes in (r, record k { pipes = ps })
fd_write (negsuc n) buf k =
    if n == 2
    then (to_int (length buf), record k { serial = k.serial ++ buf })
    else if n == 3
    then (to_int (length buf), record k { console = k.console ++ visible buf })
    else (minus_one, k)

-- The second result is the bytes put into `buf`. A byte that has come in is what `uart_received` sees.
unfoldable pub read_serial : List ℕ → ℕ → Kernel → ℤ × List ℕ × Kernel
read_serial [] len k = (pos 0, [], k)
read_serial (c ∷ cs) len k =
    if ltb 0 len then (pos 1, c ∷ [], record k { serial_in = cs }) else (pos 0, [], k)

unfoldable pub fd_read : ℤ → ℕ → Kernel → ℤ × List ℕ × Kernel
unfolding read_serial
fd_read (pos fd) len k =
    let (r, bytes, ps) = pipe_read (pos (fd_pipe_id fd)) len k.pipes in
    (r, bytes, record k { pipes = ps })
fd_read (negsuc n) len k = if n == 1 then read_serial k.serial_in len k else (minus_one, [], k)

-- `if (FD_IS_PIPE(v)) pipe_close(FD_PIPE_ID(v), FD_PIPE_END(v));`
unfoldable pub close_value : ℤ → Pipes → Pipes
close_value (pos fd) s = pipe_close (pos (fd_pipe_id fd)) (fd_pipe_end fd) s
close_value (negsuc _) s = s

abbrev pub set_fd : ℕ → ℕ → ℤ → Kernel → Kernel
set_fd i fd v k =
    set_proc i (record (k.proc_table i) { fd_table = update (k.proc_table i).fd_table fd v }) k

-- The body of the loop of `kill_process` over the descriptors.
unfoldable pub drop_fd : ℕ → ℕ → Kernel → Kernel
unfolding close_value
drop_fd pid fd k =
    let v = (k.proc_table pid).fd_table fd in
    if is_fd_none v then k else set_fd pid fd fd_none (record k { pipes = close_value v k.pipes })

unfoldable pub kill_process : ℤ → Kernel → Kernel
unfolding drop_fd
kill_process (negsuc n) k = uart_print (text "Eroare: PID invalid\n") k
kill_process (pos pid) k =
    let dropped = for_range max_fds 0 (drop_fd pid) k in
    let p = dropped.proc_table pid in
    if ltb pid k.nr_procese
    then uart_print (text " a fost marcat pentru terminare.\n") (
        uart_print (uart_int (pos pid))
          (uart_print (text "Procesul ") (set_proc pid (record p { remaining = pos 0 }) dropped)))
    else uart_print (text "Eroare: PID invalid\n") k

-- `wait_process` for a process that is there.
unfoldable pub wait_at : ℕ → ℤ → Kernel → Kernel
wait_at pid ticks k =
    let p = k.proc_table pid in
    let n = if leb_ℤ ticks (pos 0) then pos 10 else ticks in
    let waits = uart_print (text " ticks.\n") (
      uart_print (uart_int n) (
        uart_print (text " -> WAITING for ") (
          uart_print (uart_int (pos pid)) (
            uart_print (text "Process ")
              (set_proc pid (record p { state = waiting; wait_ticks = n }) k))))) in
    elim p.state [
      | terminated ↦ uart_print (text "Eroare: procesul nu este activ\n") k
      | unused ↦ uart_print (text "Eroare: procesul nu este activ\n") k
      | _ ↦ waits
    ]

unfoldable pub wait_process : ℤ → ℤ → Kernel → Kernel
unfolding wait_at
wait_process (negsuc n) ticks k = uart_print (text "Eroare: PID invalid\n") k
wait_process (pos pid) ticks k =
    if ltb pid k.nr_procese
    then wait_at pid ticks k
    else uart_print (text "Eroare: PID invalid\n") k
