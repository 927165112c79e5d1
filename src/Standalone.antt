-- ===== src/Standalone.antt =====
-- src/scheduler.c, the program that shows the scheduler by itself. What it prints is a list of events;
-- a process prints a line and returns. The sleeps only wait.
pub mod Rounds
pub mod Ends
pub mod Tests
use os_itsc.Base.{
  ℕ, zero, suc, ◌+◌, ◌-◌, ◌%◌, Bool, true, false, ◌&&◌, Option, none, some, List, [], ◌∷◌, ◌++◌, ℤ,
  pos, ◌-ℤ◌, leb_ℤ, ltb, leb, ◌==◌, if◌then◌else◌, update, for_range,
}

abbrev pub demo_quantum : ℕ
demo_quantum = 4

-- `process1`, `process2` and `process3`
pub data Process : Type 0 where
  process1 process2 process3 : Process

-- What is printed; a process counts from 1.
pub data Event : Type 0 where
  greeting : Process → Event
  yielding finished time_finished : ℕ → Event
  all_finished cooperative preemptive done : Event

pub record Demo : Type 0 where
  pub nr_procese : ℕ
  pub processes : ℕ → Process
  pub remaining : ℕ → ℤ
  pub current : ℕ
  pub slice : ℕ
  pub preemptive_mode : Bool
  pub output : List Event

abbrev pub print : Event → Demo → Demo
print e s = record s { output = s.output ++ e ∷ [] }

abbrev pub first_processes : ℕ → Process
first_processes i = if i == 0 then process1 else if i == 1 then process2 else process3

abbrev pub first_remaining : ℕ → ℤ
first_remaining i = if i == 0 then pos 5 else if i == 1 then pos 3 else pos 8

-- The variables as they are initialised.
abbrev pub initial : Demo
initial = record {
  nr_procese = 3;
  processes = first_processes;
  remaining = first_remaining;
  current = 0;
  slice = 0;
  preemptive_mode = false;
  output = [];
}

-- `current = (current + 1) % nr_procese; slice = 0;`
abbrev pub go_on : Demo → Demo
go_on s = record s { current = (s.current + 1) % s.nr_procese; slice = 0 }

-- `none` is the remainder by 0.
unfoldable pub demo_yield : Demo → Option Demo
demo_yield s =
    if s.preemptive_mode
    then some s
    else if s.nr_procese == 0
    then none
    else some (go_on (print (yielding (s.current + 1)) s))

-- The loop that moves the processes behind the current one.
unfoldable pub move_down : Demo → Demo
move_down s =
    for_range (s.nr_procese - 1 - s.current) s.current
      (λ i t. record t {
        processes = update t.processes i (t.processes (i + 1));
        remaining = update t.remaining i (t.remaining (i + 1));
      })
      s

-- The branch `remaining[current] <= 0`.
unfoldable pub demo_finish : Demo → Demo
unfolding move_down
demo_finish s =
    let t = move_down (print (finished (s.current + 1)) s) in
    let u = record t { nr_procese = t.nr_procese - 1 } in
    if u.nr_procese == 0 then print all_finished u else go_on u

unfoldable pub demo_scheduler_tick : Demo → Demo
unfolding demo_finish
demo_scheduler_tick s =
    let t = print (greeting (s.processes s.current)) s in
    let u = record t {
      remaining = update t.remaining t.current (t.remaining t.current -ℤ pos 1);
      slice = t.slice + 1;
    } in
    if s.nr_procese == 0
    then s
    else if leb_ℤ (u.remaining u.current) (pos 0)
    then demo_finish u
    else if u.preemptive_mode && leb demo_quantum u.slice
    then go_on (print (time_finished (u.current + 1)) u)
    else u

-- The loop of ten ticks, from the tick `t` on, with a demo_yield in the one of number 3.
unfoldable pub ticks_from : ℕ → ℕ → Demo → Option Demo
unfolding demo_scheduler_tick demo_yield
ticks_from zero t s = some s
ticks_from (suc n) t s =
    if t == 3
    then (elim (demo_yield (demo_scheduler_tick s)) [
      | none ↦ none
      | some u ↦ ticks_from n (t + 1) u
    ])
    else ticks_from n (t + 1) (demo_scheduler_tick s)

-- `while (nr_procese > 0) scheduler_tick();`, on fuel.
unfoldable pub run_out : ℕ → Demo → Option Demo
unfolding demo_scheduler_tick
run_out zero s = if ltb 0 s.nr_procese then none else some s
run_out (suc n) s =
    let rest = run_out n (demo_scheduler_tick s) in if ltb 0 s.nr_procese then rest else some s

unfoldable pub second_part : ℕ → Demo → Option Demo
unfolding run_out
second_part fuel s = elim (run_out fuel (print preemptive (record s { preemptive_mode = true }))) [
  | none ↦ none
  | some t ↦ some (print done t)
]

unfoldable pub demo_main : ℕ → Demo → Option Demo
unfolding ticks_from second_part
demo_main fuel s = elim (ticks_from 10 0 (print cooperative s)) [
  | none ↦ none
  | some t ↦ second_part fuel t
]
