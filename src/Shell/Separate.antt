-- ===== src/Shell/Separate.antt =====
-- The commands of the shell in src/kernel.c keep to their part of the system.
use os_itsc.Fs.Save.{fs_save_to_disk}
use os_itsc.Base.{
  ℕ, ◌≡◌, refl, ◌∙◌, true, false, inl, inr, Option, none, some, not, ◌&&◌, ltb, Bool-cases,
}
use os_itsc.Heap.{Heap}
use os_itsc.Heap.Demo.{Printed}
use os_itsc.Syscall.{Regs, syscall_handler}
use os_itsc.Kernel.{Kernel}
use os_itsc.Fs.{Fs}
use os_itsc.Proc.Spawn.{Machine}
use os_itsc.Shell.{
  Command, run_pipeline, exec, make_dir, touch, change_dir, remove, cat, kill, wait, write, ps, ls,
  time, yield_now, preempt, coop, help, mem, pmem, save, demo, exit, no_text, bad_syntax, unknown,
}
use os_itsc.Shell.Run.{
  kernel_heap, System, put_heap, put_fs, kernel_result, machine_result, Outside, call_of, say_ticks,
  after_call, after_test,
}
use os_itsc.Shell.Loop.{
  file_command, kernel_command, is_file_command, is_demo, demo_screen, run_command,
}

-- What a command of src/fs.c leaves: of the machine, all but the heap and what is sent.
pub data FilesOnly (s : System) : Option System → Type 0 where
  files_only :
      {t : System}
      → t.machine ≡ record s.machine {
        kernel = record s.machine.kernel {
          heap = t.machine.kernel.heap;
          serial = t.machine.kernel.serial;
        };
      }
      → t.term ≡ s.term
      → FilesOnly s (some t)
  stuck : FilesOnly s none

put_fs-FilesOnly : (s : System) (fs : Fs kernel_heap) → FilesOnly s (put_fs s fs)
unfolding put_fs
put_fs-FilesOnly s fs = put (fs.heap)
  where
    put : (h : Option Heap) → FilesOnly s (put_heap s fs h)
    put none = stuck
    put (some h) = files_only refl refl

-- What the other commands leave: the files, the place in them, and the disk.
pub data KernelOnly (s : System) : Option System → Type 0 where
  kernel_only : {t : System} → t.place ≡ s.place → t.disk ≡ s.disk → KernelOnly s (some t)
  stuck_there : KernelOnly s none

machine_result-KernelOnly : (s : System) (m : Option Machine) → KernelOnly s (machine_result s m)
machine_result-KernelOnly s none = stuck_there
machine_result-KernelOnly s (some m) = kernel_only refl refl

kernel_result-KernelOnly : (s : System) (k : Option Kernel) → KernelOnly s (kernel_result s k)
kernel_result-KernelOnly s none = stuck_there
kernel_result-KernelOnly s (some k) = kernel_only refl refl

file_command-FilesOnly : (o : Outside) (c : Command) (s : System) → FilesOnly s (file_command o c s)
unfolding file_command fs_save_to_disk put_fs
file_command-FilesOnly o (make_dir name) s = put_fs-FilesOnly s _
file_command-FilesOnly o (touch name) s = put_fs-FilesOnly s _
file_command-FilesOnly o (change_dir name) s = put_fs-FilesOnly s _
file_command-FilesOnly o (remove name) s = put_fs-FilesOnly s _
file_command-FilesOnly o (cat name) s = put_fs-FilesOnly s _
file_command-FilesOnly o (write name content) s = put_fs-FilesOnly s _
file_command-FilesOnly o ls s = put_fs-FilesOnly s _
file_command-FilesOnly o save s = files_only refl refl
file_command-FilesOnly o (run_pipeline cmd) s = files_only refl refl
file_command-FilesOnly o (exec msg) s = files_only refl refl
file_command-FilesOnly o (kill pid) s = files_only refl refl
file_command-FilesOnly o (wait pid ticks) s = files_only refl refl
file_command-FilesOnly o ps s = files_only refl refl
file_command-FilesOnly o time s = files_only refl refl
file_command-FilesOnly o yield_now s = files_only refl refl
file_command-FilesOnly o preempt s = files_only refl refl
file_command-FilesOnly o coop s = files_only refl refl
file_command-FilesOnly o help s = files_only refl refl
file_command-FilesOnly o mem s = files_only refl refl
file_command-FilesOnly o pmem s = files_only refl refl
file_command-FilesOnly o demo s = files_only refl refl
file_command-FilesOnly o exit s = files_only refl refl
file_command-FilesOnly o no_text s = files_only refl refl
file_command-FilesOnly o bad_syntax s = files_only refl refl
file_command-FilesOnly o unknown s = files_only refl refl

say_ticks-KernelOnly :
    (s : System) (r : Option (Regs × Kernel))
    → KernelOnly s (say_ticks s r) × KernelOnly s (after_call s r)
say_ticks-KernelOnly s none = (stuck_there, stuck_there)
say_ticks-KernelOnly s (some (r, k)) = (kernel_only refl refl, kernel_only refl refl)

after_test-KernelOnly :
    (s : System) (r : Option (Unit {0} × Printed)) → KernelOnly s (after_test s r)
after_test-KernelOnly s none = stuck_there
after_test-KernelOnly s (some (_, (h, out))) = kernel_only refl refl

kernel_command-KernelOnly :
    (o : Outside) (c : Command) (s : System) → KernelOnly s (kernel_command o c s)
unfolding kernel_command
kernel_command-KernelOnly o (run_pipeline cmd) s = machine_result-KernelOnly s _
kernel_command-KernelOnly o (exec msg) s = machine_result-KernelOnly s _
kernel_command-KernelOnly o time s =
    (say_ticks-KernelOnly s (syscall_handler o.own (call_of 3) s.machine.kernel)).0
kernel_command-KernelOnly o yield_now s =
    (say_ticks-KernelOnly s (syscall_handler o.own (call_of 2) s.machine.kernel)).1
kernel_command-KernelOnly o mem s = after_test-KernelOnly s _
kernel_command-KernelOnly o pmem s = kernel_result-KernelOnly s _
kernel_command-KernelOnly o (kill pid) s = kernel_only refl refl
kernel_command-KernelOnly o (wait pid ticks) s = kernel_only refl refl
kernel_command-KernelOnly o ps s = kernel_only refl refl
kernel_command-KernelOnly o preempt s = kernel_only refl refl
kernel_command-KernelOnly o coop s = kernel_only refl refl
kernel_command-KernelOnly o help s = kernel_only refl refl
kernel_command-KernelOnly o demo s = kernel_only refl refl
kernel_command-KernelOnly o exit s = stuck_there
kernel_command-KernelOnly o no_text s = kernel_only refl refl
kernel_command-KernelOnly o bad_syntax s = kernel_only refl refl
kernel_command-KernelOnly o unknown s = kernel_only refl refl
kernel_command-KernelOnly o (make_dir name) s = kernel_only refl refl
kernel_command-KernelOnly o (touch name) s = kernel_only refl refl
kernel_command-KernelOnly o (change_dir name) s = kernel_only refl refl
kernel_command-KernelOnly o (remove name) s = kernel_only refl refl
kernel_command-KernelOnly o (cat name) s = kernel_only refl refl
kernel_command-KernelOnly o (write name content) s = kernel_only refl refl
kernel_command-KernelOnly o ls s = kernel_only refl refl
kernel_command-KernelOnly o save s = kernel_only refl refl

demo_screen-Kept :
    (font : ℕ → ℕ → ℕ) (c : Command) (s : System)
    → (demo_screen font c s).place ≡ s.place × (demo_screen font c s).disk ≡ s.disk
unfolding demo_screen
demo_screen-Kept font c s =
    elim (Bool-cases (is_demo c && not (ltb 0 s.machine.kernel.nr_procese))) [
      | inl shown ↦ rw shown (refl, refl)
      | inr hidden ↦ rw hidden (refl, refl)
    ]

KernelOnly-after :
    {s t : System} {o : Option System}
    → t.place ≡ s.place
    → t.disk ≡ s.disk
    → KernelOnly t o
    → KernelOnly s o
KernelOnly-after p q (kernel_only e f) = kernel_only (e ∙ p) (f ∙ q)
KernelOnly-after p q stuck_there = stuck_there

-- A command of the files changes nothing of the machine but the heap and what is sent; any other
-- command changes neither the files nor the disk.
pub run_command_separate :
    (font : ℕ → ℕ → ℕ) (o : Outside) (c : Command) (s : System)
    → (is_file_command c ≡ true → FilesOnly s (run_command font o c s))
      × (is_file_command c ≡ false → KernelOnly s (run_command font o c s))
unfolding run_command
run_command_separate font o c s = (
  λ h. rw (run_command, h) (file_command-FilesOnly o c s),
  λ h.
      let (p, q) = demo_screen-Kept font c s in
      rw (run_command, h)
        (KernelOnly-after p q (kernel_command-KernelOnly o c (demo_screen font c s))),
)
