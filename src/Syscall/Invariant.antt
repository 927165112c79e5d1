-- ===== src/Syscall/Invariant.antt =====
-- The system call handler of src/idt.c, and a process as a list of system calls.
use mathlib.Core.Bool.{false≢true}
use os_itsc.Base.{
  if_Returns, if_Returns_known, Bool, true, Returns, returns, ℕ, ◌<◌, ◌≡◌, refl, sym, ap, ◌∙◌, inl,
  inr, Option, none, some, List, [], ◌∷◌, ℤ, pos, negsuc, lt→ltb, ◌==◌, Option-cases, arith,
}
use os_itsc.Heap.{Heap}
use os_itsc.Heap.Chain.{IsHeap}
use os_itsc.Heap.Total.{NoWrap, kmalloc-IsHeap}
use os_itsc.Kernel.{max_fds, max_processes, Kernel, kprint}
use os_itsc.Pipe.{Pipes, pipe_alloc}
use os_itsc.Pipe.Table.{IsPipes, free-IsPipes, alloc-IsPipes}
use os_itsc.Proc.Kill.{Keeps, kill_process-Keeps}
use os_itsc.Sched.Tick.{is_index, placed-lt, IsBusy, IsSteady, yield-IsBusy}
use os_itsc.Sched.{scheduler_tick}
use os_itsc.Sched.Total.{scheduler_tick-IsSteady}
use os_itsc.Syscall.{
  Regs, is_outside, sys_pipe_with, sys_pipe, give_pipe, two_free, sys_yield, sys_kmalloc,
  syscall_handler,
}
use os_itsc.Syscall.Keeps.{
  Keeps-IsSched, same-Keeps, Keeps-trans, set_fd-Keeps, sys_write-Keeps, sys_read-Keeps,
  sys_dup-Keeps, sys_close-Keeps,
}

-- What a call leaves: the process table in order with a current process, and the pipes in order if
-- they were.
pub record Kept (k t : Kernel) : Type 0 where
  pub busy : IsBusy t
  pub pipes : IsPipes k.pipes → IsPipes t.pipes

Keeps-Kept : {k t : Kernel} → Keeps k t → IsBusy k → Kept k t
Keeps-Kept s v = record {
  busy = record { sched = Keeps-IsSched s v.sched; busy = rw s.current_kept v.busy };
  pipes = s.pipes_kept;
}

abbrev Answers : Kernel → Option (Regs × Kernel) → Type 0
Answers k o = Returns (λ (out : Regs × Kernel). Kept k out.1) o

give_pipe-Keeps :
    (own : ℕ → Bool) (c id : ℕ) (r : Regs) (k : Kernel)
    → is_outside own 8 r.ebx ≡ true
    → Returns (λ out. Keeps k out.1) (give_pipe own c id r k)
unfolding give_pipe
give_pipe-Keeps own c id r k free =
    elim (Option-cases (two_free max_fds 0 (k.proc_table c).fd_table)) [
      | inl a ↦
          rw (a, give_pipe)
            (returns (same-Keeps refl refl refl refl (λ w. free-IsPipes w (pos id))))
      | inr ((fd0, fd1), a) ↦
          rw (a, free, give_pipe)
            (returns (
              Keeps-trans (set_fd-Keeps c fd0 _ k)
                (Keeps-trans (set_fd-Keeps c fd1 _ _) (same-Keeps refl refl refl refl (λ w. w)))))
    ]

Keeps-Answers :
    {k t : Kernel} {o : Option (Regs × Kernel)}
    → Keeps k t
    → IsBusy k
    → Returns (λ out. Keeps t out.1) o
    → Answers k o
Keeps-Answers s v (returns w) = returns (Keeps-Kept (Keeps-trans s w) v)

-- `sys_pipe` once `pipe_alloc` has answered and `current` is known.
pipe_with :
    (own : ℕ → Bool) (cur id : ℤ) (ps : Pipes) (r : Regs) (k : Kernel)
    → is_outside own 8 r.ebx ≡ true
    → k.current ≡ cur
    → IsBusy k
    → (IsPipes k.pipes → IsPipes ps)
    → Answers k (sys_pipe_with own cur id ps r k)
unfolding sys_pipe_with
pipe_with own cur (negsuc n) ps r k free e v w =
    returns (Keeps-Kept (same-Keeps refl refl refl refl w) v)
pipe_with own (negsuc m) (pos id) ps r k free e v w =
    absurd (false≢true (ap is_index (sym e) ∙ v.busy))
pipe_with own (pos c) (pos id) ps r k free e v w =
    let lt : c < k.nr_procese = placed-lt e v.sched.where_ok in
    rw (lt→ltb c max_processes (omega (arith, v.sched.fits))) (
      Keeps-Answers (same-Keeps {t = record k { pipes = ps }} refl refl refl refl w) v
        (give_pipe-Keeps own c id r _ free))

pipe_returns :
    (own : ℕ → Bool) (r : Regs) (k : Kernel)
    → is_outside own 8 r.ebx ≡ true
    → IsBusy k
    → Answers k (sys_pipe own r k)
unfolding sys_pipe
pipe_returns own r k free v =
    pipe_with own k.current (pipe_alloc k.pipes).0 (pipe_alloc k.pipes).1 r k free refl v
      alloc-IsPipes

kernel_of :
    {o : Option Kernel} (r : Regs) (k : Kernel)
    → Returns (λ t. IsBusy t × (t.pipes ≡ k.pipes)) o
    → Answers k (elim o [ none ↦ none | some t ↦ some (r, t) ])
kernel_of r k (returns (b, e)) = returns (record { busy = b; pipes = λ w. rw e w })

yield_with : (r : Regs) (k : Kernel) → IsBusy k → Answers k (sys_yield r k)
unfolding sys_yield
yield_with r k v =
    kernel_of r k
      (yield-IsBusy (Keeps-Kept (same-Keeps {t = kprint _ k} refl refl refl refl (λ w. w)) v).busy)

allocated :
    {o : Option (ℕ × Heap)} (r : Regs) (k : Kernel)
    → IsBusy k
    → Returns (λ (out : ℕ × Heap). IsHeap out.1) o
    → Answers k
        (elim o [ none ↦ none | some (p, h) ↦ some (record r { eax = p }, record k { heap = h }) ])
allocated r k v (returns w) = returns (record {
  busy = record {
    sched = record {
      fits = v.sched.fits;
      where_ok = v.sched.where_ok;
      heap_ok = w;
      slots = v.sched.slots;
    };
    busy = v.busy;
  };
  pipes = λ u. u;
})

kmalloc_with : (r : Regs) (k : Kernel) → NoWrap r.ebx → IsBusy k → Answers k (sys_kmalloc r k)
unfolding sys_kmalloc
kmalloc_with r k w v = allocated r k v (kmalloc-IsHeap r.ebx k.heap w v.sched.heap_ok)

-- A call that the kernel can meet: a size whose block does not run past the address space, and
-- pointers to store through that are apart from the kernel's own data.
pub record IsTame (own : ℕ → Bool) (r : Regs) : Type 0 where
  pub size : r.eax ≡ 4 → NoWrap r.ebx
  pub buffer : r.eax ≡ 6 → is_outside own r.edx r.ecx ≡ true
  pub place : r.eax ≡ 7 → is_outside own 8 r.ebx ≡ true

number_is : (a n : ℕ) → (a == n) ≡ true → a ≡ n
number_is a n h = ground arith

syscall_handler-Answers :
    (own : ℕ → Bool) (r : Regs) (k : Kernel)
    → IsTame own r
    → IsBusy k
    → Answers k (syscall_handler own r k)
unfolding syscall_handler
syscall_handler-Answers own r k h v =
    let same = same-Keeps {k = k} {t = k} refl refl refl refl (λ w. w) in
    if_Returns (r.eax == 1) (returns (Keeps-Kept (sys_write-Keeps r k) v)) (
      if_Returns (r.eax == 2) (yield_with r k v) (
        if_Returns (r.eax == 3) (returns (Keeps-Kept same v)) (
          if_Returns_known (r.eax == 4) (λ e. kmalloc_with r k (h.size (number_is r.eax 4 e)) v)
            (if_Returns (r.eax == 5)
              (returns (
                Keeps-Kept
                  (Keeps-trans (same-Keeps {t = kprint _ k} refl refl refl refl (λ w. w))
                    (kill_process-Keeps (kprint _ k) k.current))
                  v))
              (if_Returns_known (r.eax == 6)
                (λ e.
                  Keeps-Answers same v (sys_read-Keeps own r k (h.buffer (number_is r.eax 6 e))))
                (if_Returns_known (r.eax == 7)
                  (λ e. pipe_returns own r k (h.place (number_is r.eax 7 e)) v)
                  (if_Returns (r.eax == 8) (returns (Keeps-Kept (sys_dup-Keeps r k) v)) (
                    if_Returns (r.eax == 9) (returns (Keeps-Kept (sys_close-Keeps r k) v)) (
                      returns (
                        Keeps-Kept (same-Keeps {t = kprint _ k} refl refl refl refl (λ w. w))
                          v))))))))))

answered :
    {k : Kernel} {o : Option (Regs × Kernel)}
    → IsPipes k.pipes
    → Answers k o
    → Returns (λ out. IsBusy out.1 × IsPipes out.1.pipes) o
answered w (returns p) = returns (p.busy, p.pipes w)

-- A system call of any number, made with a current process in a state where the process table, the
-- free list of the heap and the pipes satisfy their invariants, returns, and leaves such a state, if
-- a request for memory is below 2^31 - 64 and the buffer of a read or the place for the descriptors of
-- a pipe is apart from the kernel's own data.
pub syscall_handler_keeps :
    (own : ℕ → Bool) (r : Regs) (k : Kernel)
    → IsTame own r
    → IsBusy k
    → IsPipes k.pipes
    → Returns (λ out. IsBusy out.1 × IsPipes out.1.pipes) (syscall_handler own r k)
syscall_handler_keeps own r k h v w = answered w (syscall_handler-Answers own r k h v)

-- A process as the system calls that it makes, which may depend on what it sees.
unfoldable pub make_calls : (ℕ → Bool) → List Regs → Kernel → Option Kernel
make_calls own [] k = some k
make_calls own (r ∷ rs) k = elim (syscall_handler own r k) [
  | none ↦ none
  | some (_, t) ↦ make_calls own rs t
]

pub data AllTame (own : ℕ → Bool) : List Regs → Type 0 where
  no_call : AllTame own []
  next_call : {r : Regs} {rs : List Regs} → IsTame own r → AllTame own rs → AllTame own (r ∷ rs)

rest_of :
    (own : ℕ → Bool) {k : Kernel} (rs : List Regs) {o : Option (Regs × Kernel)}
    → Answers k o
    → ((t : Kernel) → IsBusy t → Returns IsBusy (make_calls own rs t))
    → Returns IsBusy (elim o [ none ↦ none | some (_, t) ↦ make_calls own rs t ])
rest_of own rs (returns {a = (r, t)} p) next = next t p.busy

make_calls-IsBusy :
    (own : ℕ → Bool) (rs : List Regs) (k : Kernel)
    → AllTame own rs
    → IsBusy k
    → Returns IsBusy (make_calls own rs k)
unfolding make_calls
make_calls-IsBusy own [] k h v = returns v
make_calls-IsBusy own (r ∷ rs) k (next_call h more) v =
    rest_of own {k = k} rs (syscall_handler-Answers own r k h v)
      (λ t. make_calls-IsBusy own rs t more)

module _ (own : ℕ → Bool) (program : ℕ → Kernel → List Regs)
    (tame : (e : ℕ) (k : Kernel) → AllTame own (program e k)) where
  -- A tick over processes whose only effects are system calls, each with a request for memory below
  -- 2^31 - 64 and with a buffer of a read or a place for descriptors apart from the kernel's own data:
  -- from a state with the invariant of the scheduler, and with a current process or at most one
  -- process, it ends in such a state.
  pub scheduler_tick_calls :
      (k : Kernel)
      → IsSteady k
      → Returns IsSteady (scheduler_tick (λ e t. make_calls own (program e t) t) k)
  scheduler_tick_calls =
      scheduler_tick-IsSteady (λ e t. make_calls own (program e t) t)
        (λ e t v. make_calls-IsBusy own (program e t) t (tame e t) v)
