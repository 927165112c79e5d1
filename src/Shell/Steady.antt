-- ===== src/Shell/Steady.antt =====
-- The commands of the shell in src/kernel.c between two ticks of the scheduler.
use mathlib.Core.Bool.{false≢true}
use os_itsc.Base.{
  Returns, returns, if_Returns, ◌&&◌, ℕ, zero, suc, ◌+◌, ◌≡◌, refl, subst, sym, Bool, true, false,
  not, ◌||◌, inl, inr, Option, some, List, [], ◌∷◌, ℤ, pos, negsuc, ltb, leb_ℤ, ◌==◌, if◌then◌else◌,
  Bool-cases, Option-cases, for_range, arith,
}
use os_itsc.Heap.{Heap}
use os_itsc.Heap.Chain.{IsHeap}
use os_itsc.Heap.Total.{NoWrap, kmalloc-IsHeap}
use os_itsc.Kernel.{
  Kernel, ProcState, waiting, terminated, unused, ready, running, uart_print, set_proc,
}
use os_itsc.Console.{text}
use os_itsc.Fs.{
  EntryType, fs_file, fs_directory, Level, node, node_size, Info, Node, Nodes, nil, cons, info_of,
  is_file, Fs, create_node, add_new, fs_mkdir, same_name,
}
use os_itsc.Fs.Commands.{
  list_children, fs_ls, fs_cd, go_up, go_down, fs_cat, cat_info, fs_create_file, find_split,
  is_named, is_dir_named,
}
use os_itsc.Fs.Save.{fs_save_to_disk}
use os_itsc.Proc.{wait_at, wait_process}
use os_itsc.Proc.Kill.{Keeps, kill_process-Keeps}
use os_itsc.Proc.Load.{list_process, list_processes}
use os_itsc.Sched.Invariant.{IsSched, IsSched-congr}
use os_itsc.Sched.Tick.{IsSteady}
use os_itsc.Shell.{
  Command, run_pipeline, exec, make_dir, touch, change_dir, remove, cat, kill, wait, write, ps, ls,
  time, yield_now, preempt, coop, help, mem, pmem, save, demo, exit, no_text, bad_syntax, unknown,
}
use os_itsc.Shell.Demo.{start_demo-IsSteady}
use os_itsc.Shell.Run.{kernel_heap, give, given, System, put_heap, put_fs, fs_of, Outside}
use os_itsc.Shell.Loop.{
  file_command, kernel_command, is_file_command, is_demo, demo_screen, run_command,
}
use os_itsc.Syscall.{syscall_handler}
use os_itsc.Syscall.Keeps.{Keeps-IsSched}

abbrev pub StaysSteady : System → Type 0
StaysSteady s = IsSteady s.machine.kernel

Keeps-IsSteady : {k t : Kernel} → Keeps k t → IsSteady k → IsSteady t
Keeps-IsSteady h v = record {
  sched = Keeps-IsSched h v.sched;
  started = rw (h.current_kept, h.nr_kept) v.started;
}

-- A list of processes only prints.
only_printed :
    (n i : ℕ) (k : Kernel)
    → (out : List ℕ) × (for_range n i list_process k ≡ record k { serial = out })
unfolding for_range list_process
only_printed zero i k = (k.serial, refl)
only_printed (suc n) i k =
    let t = list_process i k in let (out, e) = only_printed n (i + 1) t in (out, e)

waits-IsSched :
    (pid : ℕ) (ticks : ℤ) (k : Kernel)
    → IsSched k
    → IsSched (set_proc pid (record (k.proc_table pid) { state = waiting; wait_ticks = ticks }) k)
waits-IsSched pid ticks k v = record {
  fits = v.fits;
  where_ok = v.where_ok;
  heap_ok = v.heap_ok;
  slots = λ i l. ground (arith, v.slots i l);
}

either_state :
    (st : ProcState) {a b : Kernel}
    → IsSteady a
    → IsSteady b
    → IsSteady (elim st [ terminated ↦ a | unused ↦ a | _ ↦ b ])
either_state unused p q = p
either_state ready p q = q
either_state running p q = q
either_state waiting p q = q
either_state terminated p q = p

-- What is printed does not matter.
print-IsSteady : {k : Kernel} (s : List ℕ) → IsSteady k → IsSteady (uart_print s k)
print-IsSteady s v = record {
  sched = IsSched-congr refl refl refl refl v.sched;
  started = v.started;
}

wait_process-IsSteady :
    (pid ticks : ℤ) (k : Kernel) → IsSteady k → IsSteady (wait_process pid ticks k)
unfolding wait_process wait_at
wait_process-IsSteady (negsuc n) ticks k v = print-IsSteady _ v
wait_process-IsSteady (pos pid) ticks k v = elim (Bool-cases (ltb pid k.nr_procese)) [
  | inl there ↦ rw there (
      either_state (k.proc_table pid).state (print-IsSteady _ v) (
        print-IsSteady _ (
          print-IsSteady _ (
            print-IsSteady _ (
              print-IsSteady _ (
                print-IsSteady _ (waiting_now (if leb_ℤ ticks (pos 0) then pos 10 else ticks))))))))
  | inr beyond ↦ rw beyond (print-IsSteady _ v)
]
  where
    waiting_now :
        (n : ℤ)
        → IsSteady (set_proc pid (record (k.proc_table pid) { state = waiting; wait_ticks = n }) k)
    waiting_now n = record { sched = waits-IsSched pid n k v.sched; started = v.started }

heap_after :
    (s : System) (fs : Fs kernel_heap)
    → StaysSteady s
    → Returns IsHeap fs.heap
    → Returns StaysSteady (put_fs s fs)
unfolding put_fs
heap_after s fs v r = put r
  where
    put : {o : Option Heap} → Returns IsHeap o → Returns StaysSteady (put_heap s fs o)
    put (returns h) = returns (record {
      sched = record {
        fits = v.sched.fits;
        where_ok = v.sched.where_ok;
        heap_ok = h;
        slots = v.sched.slots;
      };
      started = v.started;
    })

list_children-heap :
    (ks : Nodes) (fs : Fs kernel_heap) → (list_children kernel_heap ks fs).heap ≡ fs.heap
unfolding list_children
list_children-heap nil fs = refl
list_children-heap (cons k ks) fs = list_children-heap ks _

give-IsHeap : (size : ℕ) (h : Heap) → NoWrap size → IsHeap h → Returns IsHeap (give size (some h)).1
unfolding give
give-IsHeap size h w v = out (kmalloc-IsHeap size h w v)
  where
    out :
        {o : Option (ℕ × Heap)}
        → Returns (λ (r : ℕ × Heap). IsHeap r.1) o
        → Returns IsHeap (given o).1
    out (returns w) = returns w

fs_cd-heap : (name : List ℕ) (fs : Fs kernel_heap) → (fs_cd kernel_heap name fs).1.heap ≡ fs.heap
unfolding fs_cd go_up
fs_cd-heap name fs = elim (Bool-cases (same_name name (text ".."))) [
  | inl up ↦ rw (fs_cd, up) (go_up-heap fs.above fs)
  | inr down ↦ elim (Option-cases (find_split (is_dir_named name) nil fs.children)) [
    | inl missing ↦ rw (fs_cd, down, missing) refl
    | inr (x, e) ↦ rw (fs_cd, down, e) (go_down-heap x.0 x.1 x.2)
  ]
]
  where
    go_up-heap :
        (levels : List Level) (fs : Fs kernel_heap) → (go_up kernel_heap levels fs).heap ≡ fs.heap
    go_up-heap [] fs = refl
    go_up-heap (l ∷ more) fs = refl

    go_down-heap :
        (b : Nodes) (k : Node) (c : Nodes) → (go_down kernel_heap b k c fs).heap ≡ fs.heap
    go_down-heap b (node i ks) c = refl

fs_cat-heap : (name : List ℕ) (fs : Fs kernel_heap) → (fs_cat kernel_heap name fs).heap ≡ fs.heap
unfolding fs_cat cat_info
fs_cat-heap name fs = elim (Option-cases (find_split (is_named name) nil fs.children)) [
  | inl missing ↦ rw (fs_cat, missing) refl
  | inr (x, e) ↦ rw (fs_cat, e) (shown-heap (info_of x.1))
]
  where
    shown-heap : (i : Info) → (cat_info kernel_heap i fs).heap ≡ fs.heap
    shown-heap i = elim (Bool-cases (not (is_file i.kind))) [
      | inl dir ↦ rw (cat_info, dir) refl
      | inr file ↦ elim (Bool-cases (i.size == 0 || i.data_ptr == 0)) [
        | inl empty ↦ rw (cat_info, file, empty) refl
        | inr full ↦ rw (cat_info, file, full) refl
      ]
    ]

add_new-heap :
    (name : List ℕ) (kind : EntryType) (fs : Fs kernel_heap)
    → (add_new kernel_heap name kind fs).1.heap ≡ (give node_size fs.heap).1
unfolding add_new create_node
add_new-heap name kind fs = elim (Bool-cases ((give node_size fs.heap).0 == 0)) [
  | inl out ↦ simp (add_new, create_node, out) refl
  | inr got ↦ simp (add_new, create_node, got) refl
]

add_new-Steady :
    (name : List ℕ) (kind : EntryType) (s : System)
    → StaysSteady s
    → Returns StaysSteady (put_fs s (add_new kernel_heap name kind (fs_of s)).1)
add_new-Steady name kind s v = heap_after s (add_new kernel_heap name kind (fs_of s)).1 v (
    subst (Returns IsHeap) (sym (add_new-heap name kind (fs_of s)))
      (give-IsHeap node_size s.machine.kernel.heap (omega arith) v.sched.heap_ok))

-- A command that leaves the heap as it is.
same_heap-Steady :
    (s : System) (fs : Fs kernel_heap)
    → StaysSteady s
    → fs.heap ≡ some s.machine.kernel.heap
    → Returns StaysSteady (put_fs s fs)
same_heap-Steady s fs v e =
    heap_after s fs v (subst (Returns IsHeap) (sym e) (returns v.sched.heap_ok))

create_file-Steady :
    (name : List ℕ) (s : System)
    → StaysSteady s
    → Returns StaysSteady (put_fs s (fs_create_file kernel_heap name (fs_of s)).1)
unfolding fs_create_file
create_file-Steady name s v =
    elim (Option-cases (find_split (is_named name) nil (fs_of s).children)) [
      | inl missing ↦ rw (fs_create_file, missing) (add_new-Steady name fs_file s v)
      | inr (x, e) ↦ rw (fs_create_file, e) (same_heap-Steady s _ v refl)
    ]

-- The commands that neither free memory, nor wait for processes, nor stop the machine.
abbrev pub is_plain : Command → Bool
is_plain (run_pipeline _) = false
is_plain (exec _) = false
is_plain (remove _) = false
is_plain (write _ _) = false
is_plain yield_now = false
is_plain mem = false
is_plain pmem = false
is_plain exit = false
is_plain _ = true

list_processes-IsSteady : (k : Kernel) → IsSteady k → IsSteady (list_processes k)
unfolding list_processes
list_processes-IsSteady k v =
    let head =
      uart_print (text "--------------------------------\n")
        (uart_print (text "\nPID | State    | Remaining Ticks\n") k) in
    let (out, e) = only_printed k.nr_procese 0 head in
    let w : IsSteady (record k { serial = out }) = record {
      sched = IsSched-congr refl refl refl refl v.sched;
      started = v.started;
    } in
    let listed : IsSteady (for_range k.nr_procese 0 list_process head) = subst IsSteady (sym e) w in
    elim (Bool-cases (k.nr_procese == 0)) [
      | inl nobody ↦ rw (list_processes, nobody) (print-IsSteady _ listed)
      | inr some_there ↦ rw (list_processes, some_there) listed
    ]

file_command-Steady :
    (o : Outside) (c : Command) (s : System)
    → is_plain c ≡ true
    → StaysSteady s
    → Returns StaysSteady (file_command o c s)
unfolding file_command fs_mkdir fs_ls fs_save_to_disk put_fs
file_command-Steady o (make_dir name) s h v = add_new-Steady name fs_directory s v
file_command-Steady o (touch name) s h v = create_file-Steady name s v
file_command-Steady o (change_dir name) s h v = same_heap-Steady s _ v (fs_cd-heap name (fs_of s))
file_command-Steady o (cat name) s h v = same_heap-Steady s _ v (fs_cat-heap name (fs_of s))
file_command-Steady o ls s h v = same_heap-Steady s _ v (list_children-heap s.place.children _)
file_command-Steady o save s h v = returns (print-IsSteady _ v)
file_command-Steady o (remove name) s h v = absurd (false≢true h)
file_command-Steady o (write name content) s h v = absurd (false≢true h)
file_command-Steady o (run_pipeline cmd) s h v = returns v
file_command-Steady o (exec msg) s h v = returns v
file_command-Steady o yield_now s h v = returns v
file_command-Steady o mem s h v = returns v
file_command-Steady o pmem s h v = returns v
file_command-Steady o (kill pid) s h v = returns v
file_command-Steady o (wait pid ticks) s h v = returns v
file_command-Steady o ps s h v = returns v
file_command-Steady o time s h v = returns v
file_command-Steady o preempt s h v = returns v
file_command-Steady o coop s h v = returns v
file_command-Steady o demo s h v = returns v
file_command-Steady o help s h v = returns v
file_command-Steady o exit s h v = absurd (false≢true h)
file_command-Steady o no_text s h v = returns v
file_command-Steady o bad_syntax s h v = returns v
file_command-Steady o unknown s h v = returns v

kernel_command-Steady :
    (o : Outside) (c : Command) (s : System)
    → is_plain c ≡ true
    → StaysSteady s
    → Returns StaysSteady (kernel_command o c s)
unfolding kernel_command syscall_handler
kernel_command-Steady o (kill pid) s h v =
    returns (Keeps-IsSteady (kill_process-Keeps s.machine.kernel pid) v)
kernel_command-Steady o (wait pid ticks) s h v =
    returns (wait_process-IsSteady pid (pos ticks) s.machine.kernel v)
kernel_command-Steady o ps s h v = returns (list_processes-IsSteady s.machine.kernel v)
kernel_command-Steady o time s h v =
    returns (print-IsSteady _ (print-IsSteady _ (print-IsSteady _ v)))
kernel_command-Steady o preempt s h v =
    returns (record { sched = IsSched-congr refl refl refl refl v.sched; started = v.started })
kernel_command-Steady o coop s h v =
    returns (record { sched = IsSched-congr refl refl refl refl v.sched; started = v.started })
kernel_command-Steady o demo s h v =
    returns (start_demo-IsSteady o.entry1 o.entry2 o.entry3 s.machine.kernel v).0
kernel_command-Steady o help s h v = returns (print-IsSteady _ v)
kernel_command-Steady o exit s h v = absurd (false≢true h)
kernel_command-Steady o no_text s h v = returns (print-IsSteady _ v)
kernel_command-Steady o bad_syntax s h v = returns (print-IsSteady _ v)
kernel_command-Steady o unknown s h v = returns (print-IsSteady _ v)
kernel_command-Steady o (run_pipeline cmd) s h v = absurd (false≢true h)
kernel_command-Steady o (exec msg) s h v = absurd (false≢true h)
kernel_command-Steady o yield_now s h v = absurd (false≢true h)
kernel_command-Steady o mem s h v = absurd (false≢true h)
kernel_command-Steady o pmem s h v = absurd (false≢true h)
kernel_command-Steady o (make_dir name) s h v = returns v
kernel_command-Steady o (touch name) s h v = returns v
kernel_command-Steady o (change_dir name) s h v = returns v
kernel_command-Steady o (cat name) s h v = returns v
kernel_command-Steady o ls s h v = returns v
kernel_command-Steady o save s h v = returns v
kernel_command-Steady o (remove name) s h v = returns v
kernel_command-Steady o (write name content) s h v = returns v

demo_screen-Steady :
    (font : ℕ → ℕ → ℕ) (c : Command) (s : System)
    → StaysSteady s
    → StaysSteady (demo_screen font c s)
unfolding demo_screen
demo_screen-Steady font c s v =
    elim (Bool-cases (is_demo c && not (ltb 0 s.machine.kernel.nr_procese))) [
      | inl shown ↦ rw shown v
      | inr hidden ↦ rw hidden v
    ]

-- In a state that keeps the invariant between ticks, a command of the shell that does not start a
-- program, hand the processor over, test the heap, write or remove a file, or stop the machine
-- returns, and the invariant holds again.
pub run_command-Steady :
    (font : ℕ → ℕ → ℕ) (o : Outside) (c : Command) (s : System)
    → is_plain c ≡ true
    → StaysSteady s
    → Returns StaysSteady (run_command font o c s)
unfolding run_command
run_command-Steady font o c s h v =
    if_Returns (is_file_command c) (file_command-Steady o c s h v)
      (kernel_command-Steady o c (demo_screen font c s) h (demo_screen-Steady font c s v))
