-- ===== src/Standalone/Tests.antt =====
-- The demonstration of src/scheduler.c as it is started.
use os_itsc.Base.{ℕ, zero, suc, ◌<◌, ◌≤◌, pos_part, arith}
use os_itsc.Standalone.{initial, demo_main}
use os_itsc.Standalone.Rounds.{total, IsDemo}
use os_itsc.Standalone.Ends.{EndsEmpty, demo_main-EndsEmpty}

initial-left : (i : ℕ) → i < 3 → 0 < pos_part (initial.remaining i)
initial-left zero l = omega arith
initial-left (suc zero) l = omega arith
initial-left (suc (suc i)) l = ground arith

initial-IsDemo : IsDemo initial
initial-IsDemo = record { current_ok = λ _. omega arith; left = initial-left }

some_rounds : 4 < total initial.nr_procese initial.remaining
unfolding total
some_rounds = omega arith

sixteen_rounds : total initial.nr_procese initial.remaining ≤ 16
unfolding total
sixteen_rounds = omega arith

demo_main_example : EndsEmpty (demo_main 16 initial)
demo_main_example = demo_main-EndsEmpty 16 initial initial-IsDemo some_rounds sixteen_rounds
