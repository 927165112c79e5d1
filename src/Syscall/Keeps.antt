-- ===== src/Syscall/Keeps.antt =====
-- What the system calls of src/idt.c leave of the process table and of the pipes.
use os_itsc.Base.{
  ℕ, Bool, true, Returns, returns, ◌≡◌, refl, ap, ◌∙◌, inl, inr, List, [], ◌∷◌, ℤ, pos, negsuc, ltb,
  ◌==◌, Bool-cases, Option-cases, arith,
}
use os_itsc.Kernel.{max_fds, Kernel}
use os_itsc.Pipe.Table.{IsPipes, write-IsPipes, read-IsPipes}
use os_itsc.Proc.{fd_write, read_serial, fd_read, set_fd, close_value}
use os_itsc.Proc.Kill.{Keeps, close_value-IsPipes}
use os_itsc.Sched.Invariant.{IsSched}
use os_itsc.Syscall.{Regs, is_outside, sys_write, sys_read, sys_dup, sys_close, checked_fd}

pub Keeps-IsSched : {k t : Kernel} → Keeps k t → IsSched k → IsSched t
Keeps-IsSched {k} {t} s v = record {
  fits = rw s.nr_kept v.fits;
  where_ok = rw (s.nr_kept, s.current_kept) v.where_ok;
  heap_ok = s.heap_kept v.heap_ok;
  slots = λ i lt. rw (s.states i, s.current_kept) (v.slots i (omega (arith, s.nr_kept)));
}

pub same-Keeps :
    {k t : Kernel}
    → t.proc_table ≡ k.proc_table
    → t.nr_procese ≡ k.nr_procese
    → t.current ≡ k.current
    → t.heap ≡ k.heap
    → (IsPipes k.pipes → IsPipes t.pipes)
    → Keeps k t
same-Keeps p n c h w = record {
  heap_kept = λ v. rw h v;
  states = λ i. ap (λ g. (g i).state) p;
  nr_kept = n;
  current_kept = c;
  pipes_kept = w;
}

pub Keeps-trans : {k t u : Kernel} → Keeps k t → Keeps t u → Keeps k u
Keeps-trans a b = record {
  states = λ i. b.states i ∙ a.states i;
  nr_kept = b.nr_kept ∙ a.nr_kept;
  current_kept = b.current_kept ∙ a.current_kept;
  pipes_kept = λ w. b.pipes_kept (a.pipes_kept w);
  heap_kept = λ w. b.heap_kept (a.heap_kept w);
}

pub set_fd-Keeps : (c fd : ℕ) (v : ℤ) (k : Kernel) → Keeps k (set_fd c fd v k)
set_fd-Keeps c fd v k = record {
  states = λ i. ground arith;
  nr_kept = refl;
  current_kept = refl;
  pipes_kept = λ w. w;
  heap_kept = λ w. w;
}

fd_write-Keeps : (v : ℤ) (buf : List ℕ) (k : Kernel) → Keeps k (fd_write v buf k).1
unfolding fd_write
fd_write-Keeps (pos fd) buf k = same-Keeps refl refl refl refl (λ w. write-IsPipes w (pos _) buf)
fd_write-Keeps (negsuc n) buf k = elim (Bool-cases (n == 2)) [
  | inl a ↦ rw a (same-Keeps refl refl refl refl (λ w. w))
  | inr a ↦ rw a (elim (Bool-cases (n == 3)) [
    | inl b ↦ rw b (same-Keeps refl refl refl refl (λ w. w))
    | inr b ↦ rw b (same-Keeps refl refl refl refl (λ w. w))
  ])
]

read_serial-Keeps : (cs : List ℕ) (len : ℕ) (k : Kernel) → Keeps k (read_serial cs len k).2
unfolding read_serial
read_serial-Keeps [] len k = same-Keeps refl refl refl refl (λ w. w)
read_serial-Keeps (c ∷ cs) len k = elim (Bool-cases (ltb 0 len)) [
  | inl a ↦ rw a (same-Keeps refl refl refl refl (λ w. w))
  | inr a ↦ rw a (same-Keeps refl refl refl refl (λ w. w))
]

fd_read-Keeps : (v : ℤ) (len : ℕ) (k : Kernel) → Keeps k (fd_read v len k).2
unfolding fd_read
fd_read-Keeps (pos fd) len k = same-Keeps refl refl refl refl (λ w. read-IsPipes w (pos _) len)
fd_read-Keeps (negsuc n) len k = elim (Bool-cases (n == 1)) [
  | inl a ↦ rw a (read_serial-Keeps k.serial_in len k)
  | inr a ↦ rw a (same-Keeps refl refl refl refl (λ w. w))
]

pub sys_write-Keeps : (r : Regs) (k : Kernel) → Keeps k (sys_write r k).1
unfolding sys_write
sys_write-Keeps r k = elim (Option-cases (checked_fd r.ebx k.current k.nr_procese)) [
  | inl a ↦ rw (a, sys_write) (same-Keeps refl refl refl refl (λ w. w))
  | inr (c, a) ↦ rw (a, sys_write) (fd_write-Keeps _ _ k)
]

pub sys_read-Keeps :
    (own : ℕ → Bool) (r : Regs) (k : Kernel)
    → is_outside own r.edx r.ecx ≡ true
    → Returns (λ out. Keeps k out.1) (sys_read own r k)
unfolding sys_read
sys_read-Keeps own r k free = elim (Option-cases (checked_fd r.ebx k.current k.nr_procese)) [
  | inl a ↦ rw (a, sys_read) (returns (same-Keeps refl refl refl refl (λ w. w)))
  | inr (c, a) ↦
      rw (a, free, sys_read)
        (returns (
          Keeps-trans (fd_read-Keeps ((k.proc_table c).fd_table r.ebx) r.edx k)
            (same-Keeps refl refl refl refl (λ w. w))))
]

pub sys_dup-Keeps : (r : Regs) (k : Kernel) → Keeps k (sys_dup r k).1
unfolding sys_dup
sys_dup-Keeps r k = elim (Option-cases (checked_fd r.ebx k.current k.nr_procese)) [
  | inl a ↦ rw (a, sys_dup) (same-Keeps refl refl refl refl (λ w. w))
  | inr (c, a) ↦
      rw (a, sys_dup)
        (elim (Bool-cases (ltb r.ecx max_fds)) [
          | inl b ↦ rw b (set_fd-Keeps c r.ecx _ k)
          | inr b ↦ rw b (same-Keeps refl refl refl refl (λ w. w))
        ])
]

pub sys_close-Keeps : (r : Regs) (k : Kernel) → Keeps k (sys_close r k).1
unfolding sys_close
sys_close-Keeps r k = elim (Option-cases (checked_fd r.ebx k.current k.nr_procese)) [
  | inl a ↦ rw (a, sys_close) (same-Keeps refl refl refl refl (λ w. w))
  | inr (c, a) ↦
      rw (a, sys_close)
        (Keeps-trans
          (same-Keeps
            {t = record k { pipes = close_value ((k.proc_table c).fd_table r.ebx) k.pipes }} refl
            refl refl refl (close_value-IsPipes ((k.proc_table c).fd_table r.ebx)))
          (set_fd-Keeps c r.ebx _ _))
]
