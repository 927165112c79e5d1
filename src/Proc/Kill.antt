-- ===== src/Proc/Kill.antt =====
-- kill_process of src/kernel.c.
use os_itsc.Base.{
  ℕ, zero, suc, ◌+◌, ◌<◌, ◌≡◌, refl, ap, ◌∙◌, inl, inr, true, false, ℤ, pos, negsuc, ltb, ltb→lt,
  lt→ltb, ◌==◌, if◌then◌else◌, for_range, Bool-cases, arith,
}
use os_itsc.Heap.Chain.{IsHeap}
use os_itsc.Kernel.{max_fds, Pcb, Kernel, state_of}
use os_itsc.Pipe.{Pipes}
use os_itsc.Pipe.Table.{IsPipes, close-IsPipes}
use os_itsc.Proc.{fd_none, is_fd_none, close_value, drop_fd, kill_process, fd_pipe_id, fd_pipe_end}
use os_itsc.Sched.Tables.{between}

pub close_value-IsPipes : {s : Pipes} (v : ℤ) → IsPipes s → IsPipes (close_value v s)
unfolding close_value
close_value-IsPipes (negsuc n) w = w
close_value-IsPipes (pos n) w = close-IsPipes w (pos (fd_pipe_id n)) (fd_pipe_end n)

-- Process `pid` has dropped the descriptors from `i` to `end`, closing those that were pipes.
pub record Dropped (pid i end : ℕ) (k t : Kernel) : Type 0 where
  pub fds :
      (j : ℕ)
      → (t.proc_table pid).fd_table j
        ≡ (if between i end j then fd_none else (k.proc_table pid).fd_table j)
  pub state_kept : state_of t pid ≡ state_of k pid
  pub others : (p : ℕ) → (p == pid) ≡ false → t.proc_table p ≡ k.proc_table p
  pub nr_kept : t.nr_procese ≡ k.nr_procese
  pub current_kept : t.current ≡ k.current
  pub pipes_kept : IsPipes k.pipes → IsPipes t.pipes
  pub heap_same : t.heap ≡ k.heap

none_is : (v : ℤ) → is_fd_none v ≡ true → v ≡ fd_none
none_is v h = ground arith

drop_one : (pid i : ℕ) (k : Kernel) → Dropped pid i (i + 1) k (drop_fd pid i k)
unfolding drop_fd
drop_one pid i k =
    let v = (k.proc_table pid).fd_table i in
    elim (Bool-cases (is_fd_none v)) [
      | inl gone ↦ rw gone (record {
        fds = λ j. ground (arith, none_is v gone);
        state_kept = refl;
        others = λ p h. refl;
        nr_kept = refl;
        current_kept = refl;
        pipes_kept = λ w. w;
        heap_same = refl;
      })
      | inr held ↦ rw held (record {
        fds = λ j. ground arith;
        state_kept = ground arith;
        others = λ p h. ground arith;
        nr_kept = refl;
        current_kept = refl;
        pipes_kept = close_value-IsPipes v;
        heap_same = refl;
      })
    ]

Dropped-trans :
    (pid i end : ℕ) {k t u : Kernel}
    → i < end
    → Dropped pid i (i + 1) k t
    → Dropped pid (i + 1) end t u
    → Dropped pid i end k u
Dropped-trans pid i end lt a b = record {
  fds = λ j. ground (arith, a.fds j, b.fds j);
  state_kept = b.state_kept ∙ a.state_kept;
  others = λ p h. b.others p h ∙ a.others p h;
  nr_kept = b.nr_kept ∙ a.nr_kept;
  current_kept = b.current_kept ∙ a.current_kept;
  pipes_kept = λ w. b.pipes_kept (a.pipes_kept w);
  heap_same = b.heap_same ∙ a.heap_same;
}

drop_all :
    (pid n i end : ℕ) (k : Kernel)
    → i + n ≡ end
    → Dropped pid i end k (for_range n i (drop_fd pid) k)
unfolding for_range
drop_all pid zero i end k e = record {
  fds = λ j. ground arith;
  state_kept = refl;
  others = λ p h. refl;
  nr_kept = refl;
  current_kept = refl;
  pipes_kept = λ w. w;
  heap_same = refl;
}
drop_all pid (suc n) i end k e =
    Dropped-trans pid i end (omega arith) (drop_one pid i k)
      (drop_all pid n (i + 1) end (drop_fd pid i k) (omega arith))

-- What `kill_process` does to a process that is there.
pub record Killed (pid : ℕ) (k t : Kernel) : Type 0 where
  pub closed : (j : ℕ) → j < max_fds → (t.proc_table pid).fd_table j ≡ fd_none
  pub stops : (t.proc_table pid).remaining ≡ pos 0
  pub state_kept : state_of t pid ≡ state_of k pid
  pub others : (p : ℕ) → (p == pid) ≡ false → t.proc_table p ≡ k.proc_table p
  pub nr_kept : t.nr_procese ≡ k.nr_procese
  pub current_kept : t.current ≡ k.current
  pub heap_same : t.heap ≡ k.heap

-- A process of the table that is killed has no descriptor left and no time remaining; its state,
-- the other processes, their number, the current one and the heap are kept.
pub kill_process-Killed :
    (k : Kernel) (pid : ℕ) → pid < k.nr_procese → Killed pid k (kill_process (pos pid) k)
unfolding kill_process
kill_process-Killed k pid lt =
    let d = drop_all pid max_fds 0 max_fds k (omega arith) in
    rw (lt→ltb pid k.nr_procese lt) (record {
      closed = λ j h. ground (arith, d.fds j);
      stops = ground arith;
      state_kept = ground (arith, d.state_kept);
      others = λ p h. ground (arith, d.others p h);
      nr_kept = d.nr_kept;
      current_kept = d.current_kept;
      heap_same = d.heap_same;
    })

kill-IsPipes :
    (k : Kernel) (pid : ℕ)
    → pid < k.nr_procese
    → IsPipes k.pipes
    → IsPipes (kill_process (pos pid) k).pipes
unfolding kill_process
kill-IsPipes k pid lt w =
    rw (lt→ltb pid k.nr_procese lt) ((drop_all pid max_fds 0 max_fds k (omega arith)).pipes_kept w)

-- The states of all processes, their number and the current one are the same, and the pipes and
-- the heap are in order.
pub record Keeps (k t : Kernel) : Type 0 where
  pub states : (i : ℕ) → state_of t i ≡ state_of k i
  pub nr_kept : t.nr_procese ≡ k.nr_procese
  pub current_kept : t.current ≡ k.current
  pub pipes_kept : IsPipes k.pipes → IsPipes t.pipes
  pub heap_kept : IsHeap k.heap → IsHeap t.heap

kill_at-Keeps : (k : Kernel) (pid : ℕ) → Keeps k (kill_process (pos pid) k)
kill_at-Keeps k pid = elim (Bool-cases (ltb pid k.nr_procese)) [
  | inl there ↦
      let d = kill_process-Killed k pid (ltb→lt pid k.nr_procese there) in
      record {
        states = λ i. elim (Bool-cases (i == pid)) [
          | inl same ↦ ground (arith, d.state_kept)
          | inr other ↦ ap (λ (p : Pcb). p.state) (d.others i other)
        ];
        nr_kept = d.nr_kept;
        current_kept = d.current_kept;
        pipes_kept = kill-IsPipes k pid (ltb→lt pid k.nr_procese there);
        heap_kept = λ w. rw d.heap_same w;
      }
  | inr beyond ↦
      unfold kill_process in
      rw beyond (record {
        states = λ i. refl;
        nr_kept = refl;
        current_kept = refl;
        pipes_kept = λ w. w;
        heap_kept = λ w. w;
      })
]

pub kill_process-Keeps : (k : Kernel) (pid : ℤ) → Keeps k (kill_process pid k)
unfolding kill_process
kill_process-Keeps k (pos pid) = kill_at-Keeps k pid
kill_process-Keeps k (negsuc n) = record {
  states = λ i. refl;
  nr_kept = refl;
  current_kept = refl;
  pipes_kept = λ w. w;
  heap_kept = λ w. w;
}
