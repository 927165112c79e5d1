-- ===== src/Sched/Tables.antt =====
-- The two loops over the process table in closed form.
use os_itsc.Base.{
  ℕ, zero, suc, ◌+◌, ◌-◌, ◌<◌, ◌≡◌, ap, ◌∙◌, fun_ext, Bool, ◌&&◌, ltb, leb, if◌then◌else◌,
  for_range, arith,
}
use os_itsc.Kernel.{Pcb, Kernel, set_proc}
use os_itsc.Sched.{wake, update_waiting, shift_down}

-- `from <= j && j < end`
abbrev pub between : ℕ → ℕ → ℕ → Bool
between from end j = leb from j && ltb j end

each_lem :
    (f : Pcb → Pcb) (n i end : ℕ) (k : Kernel)
    → i + n ≡ end
    → for_range n i (λ j t. set_proc j (f (t.proc_table j)) t) k ≡ record k {
      proc_table = λ j. if between i end j then f (k.proc_table j) else k.proc_table j;
    }
unfolding for_range
each_lem f zero i end k e = ap (λ g. record k { proc_table = g }) (fun_ext λ j. ground arith)
each_lem f (suc n) i end k e =
    each_lem f n (i + 1) end (set_proc i (f (k.proc_table i)) k) (omega arith)
    ∙ ap (λ g. record k { proc_table = g }) (fun_ext λ j. ground arith)

-- `update_waiting` wakes each process in use, once.
pub update_waiting_lem :
    (k : Kernel)
    → update_waiting k ≡ record k {
      proc_table = λ j. if ltb j k.nr_procese then wake (k.proc_table j) else k.proc_table j;
    }
unfolding update_waiting
update_waiting_lem k =
    each_lem wake k.nr_procese 0 k.nr_procese k (omega arith)
    ∙ ap (λ g. record k { proc_table = g }) (fun_ext λ j. ground arith)

down_lem :
    (n i end : ℕ) (k : Kernel)
    → i + n ≡ end
    → for_range n i (λ j t. set_proc j (t.proc_table (j + 1)) t) k ≡ record k {
      proc_table = λ j. if between i end j then k.proc_table (j + 1) else k.proc_table j;
    }
unfolding for_range
down_lem zero i end k e = ap (λ g. record k { proc_table = g }) (fun_ext λ j. ground arith)
down_lem (suc n) i end k e =
    down_lem n (i + 1) end (set_proc i (k.proc_table (i + 1)) k) (omega arith)
    ∙ ap (λ g. record k { proc_table = g }) (fun_ext λ j. ground arith)

-- The processes behind `c` move down by one, and those before it stay.
pub shift_down_lem :
    (c : ℕ) (k : Kernel)
    → c < k.nr_procese
    → shift_down c k ≡ record k {
      proc_table =
          λ j. if between c (k.nr_procese - 1) j then k.proc_table (j + 1) else k.proc_table j;
    }
unfolding shift_down
shift_down_lem c k h = down_lem (k.nr_procese - 1 - c) c (k.nr_procese - 1) k (omega arith)
