-- ===== src/Sched/Waiting.antt =====
-- How long a process waits, counted in calls of update_waiting.
use os_itsc.Base.{ℕ, zero, suc, ◌+◌, ◌-◌, ◌≤◌, ◌<◌, ◌≡◌, refl, ◌∙◌, ap, pos, arith}
use os_itsc.Kernel.{ready, waiting, Pcb, Kernel}
use os_itsc.Sched.{wake, update_waiting}
use os_itsc.Sched.Tables.{update_waiting_lem}

-- `n` calls of `update_waiting`.
unfoldable pub updates : ℕ → Kernel → Kernel
updates zero k = k
updates (suc n) k = update_waiting (updates n k)

abbrev IsWaitingFor : ℕ → Pcb → Type 0
IsWaitingFor n p = (p.state ≡ waiting) × (p.wait_ticks ≡ pos n)

wake_more : (p : Pcb) (n : ℕ) → IsWaitingFor (suc (suc n)) p → IsWaitingFor (suc n) (wake p)
unfolding wake
wake_more p n (s, w) = ground arith

wake_last : (p : Pcb) → IsWaitingFor 1 p → (wake p).state ≡ ready
unfolding wake
wake_last p (s, w) = ground arith

nr-updates : (n : ℕ) (k : Kernel) → (updates n k).nr_procese ≡ k.nr_procese
unfolding updates
nr-updates zero k = refl
nr-updates (suc n) k = rw (update_waiting_lem (updates n k)) (nr-updates n k)

proc-updates :
    (n : ℕ) (k : Kernel) (i : ℕ)
    → i < k.nr_procese
    → (updates (suc n) k).proc_table i ≡ wake ((updates n k).proc_table i)
unfolding updates
proc-updates n k i lt = rw (update_waiting_lem (updates n k)) (ground (arith, nr-updates n k))

-- After `m` calls the wait has `n` ticks left.
still_waiting :
    (m n : ℕ) (k : Kernel) (i : ℕ)
    → i < k.nr_procese
    → IsWaitingFor (m + suc n) (k.proc_table i)
    → IsWaitingFor (suc n) ((updates m k).proc_table i)
unfolding updates
still_waiting zero n k i lt (s, w) = (s, w ∙ ap pos (omega arith))
still_waiting (suc m) n k i lt (s, w) =
    rw (proc-updates m k i lt)
      (wake_more _ n (still_waiting m (suc n) k i lt (s, w ∙ ap pos (omega arith))))

-- A process of the table that waits for `n + 1` ticks is still waiting after any smaller number of
-- calls of `update_waiting`, and ready after `n + 1` of them.
pub waits_exactly :
    (n m : ℕ) (k : Kernel) (i : ℕ)
    → i < k.nr_procese
    → (k.proc_table i).state ≡ waiting
    → (k.proc_table i).wait_ticks ≡ pos (suc n)
    → m ≤ n
    → (((updates m k).proc_table i).state ≡ waiting)
      × (((updates (suc n) k).proc_table i).state ≡ ready)
waits_exactly n m k i lt s w le = (
  (still_waiting m (n - m) k i lt (s, w ∙ ap pos (omega arith))).0,
  rw (proc-updates n k i lt) (wake_last _ (still_waiting n 0 k i lt (s, w ∙ ap pos (omega arith)))),
)
