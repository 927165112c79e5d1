-- ===== src/Sched/Tests.antt =====
-- The scheduler at concrete states.
use os_itsc.Base.{Returns, returns, ℕ, ◌≡◌, refl, Option, none, some, pos, arith}
use os_itsc.Kernel.{ready, waiting, Kernel}
use os_itsc.Sched.{pick_next_ready, finish, scheduler_tick}
use os_itsc.Sched.Pick.{Picked, pick_next_ready-Picked}
use os_itsc.Sched.Steps.{Finished, finish_lem}
use os_itsc.Sched.Tick.{IsCall, IsSteady}
use os_itsc.Sched.Total.{scheduler_tick-IsSteady, scheduler_tick_out_of_bounds}
use os_itsc.Sched.Waiting.{updates, waits_exactly}
use os_itsc.Sched.Samples.{sample_kernel, unstarted_kernel, sample-IsSteady}

-- A process whose code does nothing.
abbrev no_op : ℕ → Kernel → Option Kernel
no_op e k = some k

no_op-IsCall : IsCall no_op
no_op-IsCall e k v = returns v

scheduler_tick-IsSteady_example : Returns IsSteady (scheduler_tick no_op sample_kernel)
scheduler_tick-IsSteady_example =
    scheduler_tick-IsSteady no_op no_op-IsCall sample_kernel sample-IsSteady

scheduler_tick_out_of_bounds_example : scheduler_tick no_op unstarted_kernel ≡ none
scheduler_tick_out_of_bounds_example =
    scheduler_tick_out_of_bounds no_op unstarted_kernel 1 refl (omega arith) (omega arith) refl

pick_next_ready-Picked_example : Picked sample_kernel 1 0 3 (pick_next_ready (pos 1) sample_kernel)
pick_next_ready-Picked_example = pick_next_ready-Picked sample_kernel 1

finish_example : Finished 0 1 sample_kernel (finish 0 sample_kernel)
finish_example = finish_lem sample_kernel 0 1 (omega arith) (omega arith)

waits_exactly_example :
    (((updates 2 sample_kernel).proc_table 1).state ≡ waiting)
    × (((updates 3 sample_kernel).proc_table 1).state ≡ ready)
waits_exactly_example = waits_exactly 2 2 sample_kernel 1 (omega arith) refl refl (omega arith)
