-- ===== src/Sched/Steps.antt =====
-- yield, preemption and the end of a process in src/kernel.c, and the invariant of the scheduler.
use os_itsc.Base.{
  Returns, ◌++◌, ℕ, ◌+◌, ◌-◌, ◌%◌, ◌<◌, ◌≡◌, refl, ap, ap₂, ◌∙◌, inl, inr, Bool, true, false, not,
  ◌&&◌, pos, minus_one, ltb, ◌==◌, if◌then◌else◌, Bool-cases, arith,
}
use os_itsc.Console.{text, kprint_int}
use os_itsc.Heap.Chain.{IsHeap}
use os_itsc.Kernel.{
  ProcState, ready, running, terminated, is_running, Pcb, Kernel, set_state, state_of, kprint,
}
use os_itsc.Sched.{remove_at, resume_at, yield_at, finish, preempt}
use os_itsc.Sched.Tables.{shift_down_lem}
use os_itsc.Sched.Invariant.{
  is_active, slot_ok, IsSched, IsSched-congr, IsParked, switch_after-IsSched, set_state-IsParked,
}

-- A process that is not running leaves none running.
pub not_running-IsParked :
    {k : Kernel} (c : ℕ)
    → k.current ≡ pos c
    → is_running (state_of k c) ≡ false
    → IsSched k
    → IsParked k
not_running-IsParked {k} c e r v = record {
  fits = v.fits;
  where_ok = v.where_ok;
  heap_ok = v.heap_ok;
  slots = λ i lt. other i (v.slots i lt);
}
  where
    other :
        (i : ℕ)
        → slot_ok k.current i (state_of k i) ≡ true
        → (is_active (state_of k i) && not (is_running (state_of k i))) ≡ true
    other i h = elim (Bool-cases (c == i)) [ inl same ↦ ground arith | inr differ ↦ ground arith ]

pub yield_at-IsSched :
    {k : Kernel} (c : ℕ)
    → k.current ≡ pos c
    → c < k.nr_procese
    → IsSched k
    → Returns IsSched (yield_at c k)
unfolding yield_at
yield_at-IsSched {k} c e lt v = elim (Bool-cases (is_running (state_of k c))) [
  | inl r ↦ rw r (
      switch_after-IsSched c lt
        (set_state-IsParked c _ e refl refl (IsSched-congr refl refl refl refl v)))
  | inr r ↦
      rw r (
        switch_after-IsSched c lt
          (not_running-IsParked c e r (IsSched-congr refl refl refl refl v)))
]

pub preempt-IsSched :
    {k : Kernel} (c : ℕ)
    → k.current ≡ pos c
    → c < k.nr_procese
    → IsSched k
    → Returns IsSched (preempt c k)
unfolding preempt
preempt-IsSched {k} c e lt v =
    switch_after-IsSched c lt
      (set_state-IsParked c _ e refl refl (IsSched-congr refl refl refl refl v))

abbrev pub is_ready : ProcState → Bool
is_ready ready = true
is_ready _ = false

-- The table without the process at `c`.
abbrev pub without : ℕ → (ℕ → Pcb) → ℕ → Pcb
without c table j = if ltb j c then table j else table (j + 1)

module _ (k : Kernel) (c : ℕ) (lt : c < k.nr_procese) where
  remove_at_nr : (remove_at c k).nr_procese ≡ k.nr_procese - 1
  unfolding remove_at
  remove_at_nr = rw (shift_down_lem c (set_state c terminated k) lt) refl

  remove_at_current : (remove_at c k).current ≡ k.current
  unfolding remove_at
  remove_at_current = rw (shift_down_lem c (set_state c terminated k) lt) refl

  remove_at_heap : (remove_at c k).heap ≡ k.heap
  unfolding remove_at
  remove_at_heap = rw (shift_down_lem c (set_state c terminated k) lt) refl

  remove_at_table :
      (j : ℕ) → j + 1 < k.nr_procese → (remove_at c k).proc_table j ≡ without c k.proc_table j
  unfolding remove_at
  remove_at_table j h = rw (shift_down_lem c (set_state c terminated k) lt) (ground arith)

resume_at_heap : (k : Kernel) (c : ℕ) → (resume_at c k).heap ≡ k.heap
unfolding resume_at
resume_at_heap k c = ground arith

resume_at_lem :
    (k : Kernel) (c j : ℕ)
    → 0 < k.nr_procese
    → ((resume_at c k).nr_procese ≡ k.nr_procese)
      × ((resume_at c k).current ≡ pos (c % k.nr_procese))
      × ((resume_at c k).proc_table j ≡ (
          if j == c % k.nr_procese && is_ready (state_of k j)
          then record (k.proc_table j) { state = running }
          else k.proc_table j))
unfolding resume_at
resume_at_lem k c j h = ground arith

-- What `finish` leaves, for a table that `remove_at` has left.
abbrev pub Finished : ℕ → ℕ → Kernel → Kernel → Type 0
Finished c j k t =
    (t.nr_procese ≡ k.nr_procese - 1)
    × (t.current ≡ pos (c % (k.nr_procese - 1)))
    × (t.proc_table j ≡ (
        if j == c % (k.nr_procese - 1) && is_ready (without c k.proc_table j).state
        then record (without c k.proc_table j) { state = running }
        else without c k.proc_table j))

resumed :
    (k t : Kernel) (c j : ℕ)
    → t.nr_procese ≡ k.nr_procese - 1
    → t.proc_table j ≡ without c k.proc_table j
    → 0 < t.nr_procese
    → Finished c j k (resume_at c t)
resumed k t c j n q h =
    let (a, b, d) = resume_at_lem t c j h in
    (
      a ∙ n,
      b ∙ ap (λ m. pos (c % m)) n,
      d
          ∙ ap₂
              (λ m (p : Pcb).
                if j == c % m && is_ready p.state then record p { state = running } else p)
              n q,
    )

resume-remove_lem :
    (k : Kernel) (c j : ℕ)
    → c < k.nr_procese
    → j + 1 < k.nr_procese
    → Finished c j k (resume_at c (remove_at c k))
resume-remove_lem k c j lt h =
    resumed k (remove_at c k) c j (remove_at_nr k c lt) (remove_at_table k c lt j h)
      (omega (arith, remove_at_nr k c lt))

-- The end of the process at `c`, with another one left: the others stay in their order, each as it
-- was but for the new current one, which starts to run if it was ready.
pub finish_lem :
    (k : Kernel) (c j : ℕ) → c < k.nr_procese → j + 1 < k.nr_procese → Finished c j k (finish c k)
unfolding finish
finish_lem k c j lt h = resume-remove_lem (kprint _ k) c j lt h

resume_none :
    (k : Kernel) (c : ℕ)
    → k.nr_procese ≡ 0
    → ((resume_at c k).nr_procese ≡ 0) × ((resume_at c k).current ≡ minus_one)
unfolding resume_at
resume_none k c e = ground arith

none_left :
    (k : Kernel) (c : ℕ)
    → c < k.nr_procese
    → k.nr_procese ≡ 1
    → ((resume_at c (remove_at c k)).nr_procese ≡ 0)
      × ((resume_at c (remove_at c k)).current ≡ minus_one)
none_left k c lt e = resume_none (remove_at c k) c (omega (arith, remove_at_nr k c lt))

-- The end of the last process leaves none, and no current process.
pub finish_last :
    (k : Kernel) (c : ℕ)
    → c < k.nr_procese
    → k.nr_procese ≡ 1
    → ((finish c k).nr_procese ≡ 0) × ((finish c k).current ≡ minus_one)
unfolding finish
finish_last k c lt e = none_left (kprint _ k) c lt e

finish_heap : (c : ℕ) (k : Kernel) → c < k.nr_procese → (finish c k).heap ≡ k.heap
unfolding finish
finish_heap c k lt =
    let said =
      kprint (text "[Done] Process " ++ kprint_int (pos (c + 1)) ++ text " finished\n") k in
    resume_at_heap (remove_at c said) c ∙ remove_at_heap said c lt

finish-IsSched_one :
    {t : Kernel} → IsHeap t.heap → (t.nr_procese ≡ 0) × (t.current ≡ minus_one) → IsSched t
finish-IsSched_one {t} w (n, c) = record {
  fits = omega arith;
  where_ok = rw c refl;
  heap_ok = w;
  slots = λ j h. absurd (omega arith);
}

pub finish-IsSched :
    {k : Kernel} (c : ℕ) → k.current ≡ pos c → c < k.nr_procese → IsSched k → IsSched (finish c k)
finish-IsSched {k} c e lt v = elim (Bool-cases (k.nr_procese == 1)) [
  | inl one ↦
      finish-IsSched_one (rw (finish_heap c k lt) v.heap_ok) (finish_last k c lt (ground arith))
  | inr more ↦
      let first = finish_lem k c 0 lt (ground arith) in
      record {
        fits = omega (arith, first.0, v.fits);
        where_ok = ground (arith, first);
        heap_ok = rw (finish_heap c k lt) v.heap_ok;
        slots = λ j h. ground (arith, finish_lem k c j lt, v.slots j, v.slots (j + 1), first);
      }
]
