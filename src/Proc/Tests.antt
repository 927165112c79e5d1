-- ===== src/Proc/Tests.antt =====
-- Processes at concrete states.
use os_itsc.Base.{
  ℕ, ◌+◌, ◌≡◌, List, [], ◌∷◌, none, some, pos, refl, Bool, Returns, for_range, arith,
}
use os_itsc.Console.{text}
use os_itsc.Pipe.{pipe_init}
use os_itsc.Strings.{strcmp, trim, skip_spaces, drop_spaces}
use os_itsc.Proc.Spawn.{Machine}
use os_itsc.Proc.Pipeline.{stages_of, program_of, is_equal, spawn_stages, execute_pipeline}
use os_itsc.Proc.Leaks.{used_pipes, execute_pipeline_leaks}
use os_itsc.Proc.Stages.{Staged, stages_of-Staged, spawn_stages-IsSched}
use os_itsc.Sched.Invariant.{IsSched}
use os_itsc.Proc.{fd_uart_in, kill_process}
use os_itsc.Proc.Kill.{Killed, kill_process-Killed}
use os_itsc.Sched.Samples.{sample_kernel, sample-IsSched}

kill_process-Killed_example : Killed 1 sample_kernel (kill_process (pos 1) sample_kernel)
kill_process-Killed_example = kill_process-Killed sample_kernel 1 (omega arith)

-- Two programs of two bytes each, and the state before anything is loaded.
abbrev programs : ℕ → List ℕ
programs i = 0x90 ∷ 0xc3 ∷ []

-- No frame is left for a page directory.
abbrev full_machine : Machine
full_machine = record {
  kernel = sample_kernel;
  vmm = record {
    kernel_pd = 0;
    frames = record { base = 0x2000; bitmap = λ _. 3; total_frames = 2; used_frames = 2 };
    page = λ _ _. 0;
  };
}

stages_of-Staged_example : Staged (text "u1 | u2|x|y|z") 3 (stages_of (text "u1 | u2|x|y|z") 3)
stages_of-Staged_example = stages_of-Staged (text "u1 | u2|x|y|z") 3

spawn_stages-IsSched_example :
    Returns
      (λ (out : Bool × Machine). IsSched out.1.kernel × (out.1.kernel.pipes ≡ sample_kernel.pipes))
      (spawn_stages programs (text " u1 " ∷ text "u2" ∷ []) fd_uart_in (5 ∷ []) full_machine)
spawn_stages-IsSched_example =
    spawn_stages-IsSched programs (text " u1 " ∷ text "u2" ∷ []) fd_uart_in (5 ∷ []) full_machine
      sample-IsSched

two_stages : stages_of (text "x|u1") 3 ≡ text "x" ∷ text "u1" ∷ []
unfolding stages_of
two_stages = refl

no_such : program_of (trim (text "x")) ≡ none
unfolding program_of is_equal strcmp trim skip_spaces drop_spaces
no_such = refl

none_used : used_pipes full_machine.kernel.pipes ≡ 0
unfolding pipe_init for_range
none_used = refl

execute_pipeline_leaks_example :
    (u : Machine) × (execute_pipeline (λ m. some m) programs 0 (text "x|u1") full_machine ≡ some u)
    × (used_pipes u.kernel.pipes ≡ used_pipes full_machine.kernel.pipes + 1)
    × (u.kernel.nr_procese ≡ 3)
execute_pipeline_leaks_example =
    execute_pipeline_leaks programs (λ m. some m) 0 (text "x|u1") (text "x") (text "u1" ∷ [])
      full_machine two_stages no_such (omega (arith, none_used))
