-- ===== src/Shell/Loop.antt =====
-- The loop of shell_loop in src/kernel.c over the lines that come in.
use os_itsc.Base.{
  ℕ, zero, suc, Bool, true, false, not, ◌&&◌, Option, none, some, List, [], ◌∷◌, ◌++◌, pos, length,
  get_or, ltb, if◌then◌else◌,
}
use os_itsc.Console.{text}
use os_itsc.Console.Readline.{Line, uart_readline}
use os_itsc.Fs.{Fs, fs_mkdir}
use os_itsc.Fs.Commands.{fs_cd, fs_ls, fs_rm, fs_create_file, fs_write_file, fs_cat}
use os_itsc.Fs.Save.{fs_save_to_disk}
use os_itsc.Heap.Demo.{heap_test}
use os_itsc.Proc.{kill_process, wait_process}
use os_itsc.Proc.Copies.{heap_test_processes}
use os_itsc.Proc.Load.{list_processes}
use os_itsc.Proc.Pipeline.{execute_pipeline}
use os_itsc.Shell.{
  Command, parse_command, run_pipeline, exec, make_dir, touch, change_dir, remove, cat, kill, wait,
  write, ps, ls, time, yield_now, preempt, coop, help, mem, pmem, save, demo, exit, no_text,
  bad_syntax, unknown,
}
use os_itsc.Shell.Demo.{start_demo}
use os_itsc.Shell.Run.{
  kernel_heap, System, fs_of, put_fs, with_kernel, say_line, kernel_result, machine_result,
  help_text, call_of, say_ticks, after_call, after_test, Outside, run_exec,
}
use os_itsc.Syscall.{syscall_handler}
use os_itsc.Vga.{term_enter, term_print}

-- `fs_save_to_disk`: the tree is left, and the disk is written.
abbrev pub saved_system : System → Fs kernel_heap × (ℕ → ℕ → ℕ) → Option System
saved_system s (fs, disk) = put_fs (record s { disk = disk }) fs

-- The commands of src/fs.c.
unfoldable pub file_command : Outside → Command → System → Option System
unfolding put_fs fs_cd fs_ls fs_rm fs_create_file fs_write_file fs_cat fs_save_to_disk fs_mkdir
file_command o (make_dir name) s = put_fs s (fs_mkdir kernel_heap name (fs_of s)).1
file_command o (touch name) s = put_fs s (fs_create_file kernel_heap name (fs_of s)).1
file_command o (change_dir name) s = put_fs s (fs_cd kernel_heap name (fs_of s)).1
file_command o (remove name) s = put_fs s (fs_rm kernel_heap name (fs_of s))
file_command o (cat name) s = put_fs s (fs_cat kernel_heap name (fs_of s))
file_command o (write name content) s =
    put_fs s
      (fs_write_file kernel_heap name (some (λ i. get_or content i 0)) (length content) (fs_of s)).1
file_command o ls s = put_fs s (fs_ls kernel_heap (fs_of s))
file_command o save s = saved_system s (fs_save_to_disk kernel_heap o.stale (fs_of s) s.disk)
file_command o _ s = some s

-- The message of `write ` without a text.
abbrev pub no_text_message : List ℕ
no_text_message =
    text "Eroare: Nu ai introdus text dup"
    ++ 0xC4 ∷ 0x83 ∷ text " numele fi"
    ++ 0xC8 ∷ 0x99 ∷ text "ierului.\n"

-- The commands of the kernel. `exit` stops the processor for good, so that it gives no state.
unfoldable pub kernel_command : Outside → Command → System → Option System
unfolding list_processes kill_process wait_process syscall_handler execute_pipeline heap_test
    heap_test_processes run_exec start_demo
kernel_command o (run_pipeline cmd) s =
    machine_result s (execute_pipeline o.interrupts o.programs o.fuel cmd s.machine)
kernel_command o (exec msg) s = machine_result s (run_exec o msg s.machine)
kernel_command o (kill pid) s = some (with_kernel (kill_process pid) s)
kernel_command o (wait pid ticks) s = some (with_kernel (wait_process pid (pos ticks)) s)
kernel_command o ps s = some (with_kernel list_processes s)
kernel_command o time s = say_ticks s (syscall_handler o.own (call_of 3) s.machine.kernel)
kernel_command o yield_now s = after_call s (syscall_handler o.own (call_of 2) s.machine.kernel)
kernel_command o preempt s = some (
    say_line (text "Mod preemptiv activat.\n")
      (with_kernel (λ k. record k { preemptive_mode = true }) s))
kernel_command o coop s = some (
    say_line (text "Mod cooperativ activat.\n")
      (with_kernel (λ k. record k { preemptive_mode = false }) s))
kernel_command o help s = some (say_line help_text s)
kernel_command o mem s = after_test s (heap_test (s.machine.kernel.heap, []))
kernel_command o pmem s = kernel_result s (heap_test_processes o.infos s.machine.kernel)
kernel_command o demo s = some (with_kernel (start_demo o.entry1 o.entry2 o.entry3) s)
kernel_command o exit s = none
kernel_command o no_text s = some (say_line no_text_message s)
kernel_command o bad_syntax s =
    some (say_line (text "Eroare Sintaxa: write <nume_fisier> <text>\n") s)
kernel_command o unknown s = some (say_line (text "Eroare: Comanda necunoscuta.\n") s)
kernel_command o _ s = some s

abbrev pub is_file_command : Command → Bool
is_file_command (make_dir _) = true
is_file_command (touch _) = true
is_file_command (change_dir _) = true
is_file_command (remove _) = true
is_file_command (cat _) = true
is_file_command (write _ _) = true
is_file_command ls = true
is_file_command save = true
is_file_command _ = false

abbrev pub is_exit : Command → Bool
is_exit exit = true
is_exit _ = false

abbrev pub is_demo : Command → Bool
is_demo demo = true
is_demo _ = false

-- `demo` shows the title of the processes if there are none.
abbrev pub white : ℕ
white = 15

module _ (font : ℕ → ℕ → ℕ) where
  unfoldable pub demo_screen : Command → System → System
  unfolding term_enter term_print
  demo_screen c s =
      let t =
        term_print font (text "=== Geamuri 98 :: Procese ===\n\n") white (term_enter s.term) in
      if is_demo c && not (ltb 0 s.machine.kernel.nr_procese) then record s { term = t } else s

  -- What a line of the shell does.
  unfoldable pub run_command : Outside → Command → System → Option System
  unfolding file_command kernel_command demo_screen
  run_command o c s =
      if is_file_command c then file_command o c s else kernel_command o c (demo_screen c s)

  abbrev pub prompted : System → System
  prompted s = say_line (text "> ") (say_line (text "user@simple_os:") s)

  -- What is read of the serial line, and the bytes sent back.
  abbrev pub with_line : System → Line → System
  with_line s l = with_kernel (λ k. record k { serial = k.serial ++ l.echo; serial_in = l.rest }) s

  -- The state in which `exit` stops the processor.
  abbrev pub shut_down : System → System
  shut_down s = say_line (text "Shutting down...\n") s

  abbrev pub woken : (System → Option System) → Option System → Option System
  woken f none = none
  woken f (some s) = f s

  -- A round once the line is there: the state in which `exit` stops, or the rounds behind a command.
  unfoldable pub shell_round : Outside → (System → Option System) → System → Option System
  unfolding parse_command run_command uart_readline
  shell_round o rest s = elim (uart_readline s.machine.kernel.serial_in 64) [
    | none ↦ none
    | some l ↦
        let c = parse_command l.line in
        let t = with_line s l in
        let next = woken rest (run_command o c t) in if is_exit c then some (shut_down t) else next
  ]

  -- The loop, for as many rounds, to the state in which `exit` stops the processor; `none` also where the shell waits for a line that does not come. The
  -- interrupts that come while the shell waits for a line are taken together, before it is read.
  unfoldable pub shell_loop : ℕ → Outside → System → Option System
  unfolding shell_round
  shell_loop zero o s = none
  shell_loop (suc rounds) o s =
      let t = prompted s in
      woken (shell_round o (shell_loop rounds o)) (machine_result t (o.interrupts t.machine))
