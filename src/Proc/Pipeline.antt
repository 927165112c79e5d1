-- ===== src/Proc/Pipeline.antt =====
-- execute_pipeline of src/kernel.c.
use os_itsc.Base.{
  ℕ, zero, suc, ◌+◌, ◌-◌, Bool, true, false, ◌&&◌, Option, none, some, List, [], ◌∷◌, ℤ, pos,
  negsuc, length, ◌==◌, if◌then◌else◌, for_range,
}
use os_itsc.Console.{text}
use os_itsc.Kernel.{unused, terminated, Pcb, Kernel, uart_print, set_proc}
use os_itsc.Pipe.{Pipes, pipe_alloc, pipe_close}
use os_itsc.Proc.{fd_uart_in, fd_uart_out, fd_vga_out, fd_make_pipe}
use os_itsc.Proc.Spawn.{Machine, spawn_pipeline_process}
use os_itsc.Strings.{strcmp, trim}

-- The first stage with one byte more in front.
abbrev pub put : ℕ → List (List ℕ) → List (List ℕ)
put c [] = (c ∷ []) ∷ []
put c (s ∷ ss) = (c ∷ s) ∷ ss

-- The command cut at its first `n` bars.
unfoldable pub stages_of : List ℕ → ℕ → List (List ℕ)
stages_of [] n = [] ∷ []
stages_of (c ∷ cs) zero = (c ∷ cs) ∷ []
stages_of (c ∷ cs) (suc n) =
    let here = put c (stages_of cs (suc n)) in
    let next = [] ∷ stages_of cs n in if c == b'|' then next else here

-- The pipes between the stages; `none` where one could not be created, with those before it in use.
unfoldable pub alloc_pipes : ℕ → Pipes → Option (List ℕ) × Pipes
alloc_pipes zero s = (some [], s)
alloc_pipes (suc n) s =
    let (id, t) = pipe_alloc s in
    let (rest, u) = alloc_pipes n t in
    elim id [
      | negsuc _ ↦ (none, t)
      | pos i ↦ (elim rest [ none ↦ none | some is ↦ some (i ∷ is) ], u)
    ]

-- `strcmp(s, t) == 0`
unfoldable pub is_equal : List ℕ → List ℕ → Bool
unfolding strcmp
is_equal s t = elim (strcmp s t) [ pos n ↦ n == 0 | negsuc _ ↦ false ]

-- The program of a stage: the index for `u1` and `u2`.
unfoldable pub program_of : List ℕ → Option ℕ
unfolding is_equal
program_of prog =
    if is_equal prog (text "u1") then some 0 else if is_equal prog (text "u2") then some 1 else none

abbrev pub say_kernel : List ℕ → Machine → Machine
say_kernel s m = record m { kernel = uart_print s m.kernel }

-- The descriptors of the output of a stage, and of the input of the next one.
abbrev pub out_of : List ℕ → ℤ
out_of [] = fd_uart_out
out_of (i ∷ is) = fd_make_pipe i 1

abbrev pub in_after : List ℕ → ℤ
in_after [] = fd_uart_in
in_after (i ∷ is) = fd_make_pipe i 0

abbrev pub behind_first : List ℕ → List ℕ
behind_first [] = []
behind_first (i ∷ is) = is

abbrev pub unsupported : List ℕ → Machine → Machine
unsupported prog m =
    say_kernel (text "\n")
      (say_kernel prog (say_kernel (text "Eroare: in pipeline doar u1/u2 sunt suportate: ") m))

module _ (programs : ℕ → List ℕ) where
  -- The loop over the stages, with the input of the next one and the pipes from it on: false where
  -- a stage is no program.
  unfoldable pub spawn_stages : List (List ℕ) → ℤ → List ℕ → Machine → Option (Bool × Machine)
  unfolding trim program_of spawn_pipeline_process
  spawn_stages [] in_fd is m = some (true, m)
  spawn_stages (s ∷ ss) in_fd is m = elim (program_of (trim s)) [
    | none ↦ some (false, unsupported (trim s) m)
    | some index ↦
        (elim (spawn_pipeline_process programs (pos index) in_fd (out_of is) fd_vga_out m) [
          | none ↦ none
          | some (_, t) ↦ spawn_stages ss (in_after is) (behind_first is) t
        ])
  ]

-- A process of the pipeline that is in the table.
abbrev pub is_stage : Pcb → Bool
is_stage p = p.pipeline_tag && elim p.state [ terminated ↦ false | unused ↦ false | _ ↦ true ]

unfoldable pub has_stage_from : ℕ → ℕ → Kernel → Bool
has_stage_from zero i k = false
has_stage_from (suc n) i k =
    let rest = has_stage_from n (i + 1) k in if is_stage (k.proc_table i) then true else rest

-- `pipeline_tag = 0` in the table.
unfoldable pub clear_tags : Kernel → Kernel
clear_tags k =
    for_range k.nr_procese 0
      (λ i t. set_proc i (record (t.proc_table i) { pipeline_tag = false }) t) k

unfoldable pub close_pipes : List ℕ → Pipes → Pipes
close_pipes [] s = s
close_pipes (i ∷ is) s = close_pipes is (pipe_close (pos i) 1 (pipe_close (pos i) 0 s))

-- `interrupts` is what happens while the processor halts. `none` is a run that does not end, or that
-- the fuel does not see the end of.
module _ (interrupts : Machine → Option Machine) where
  unfoldable pub wait_stages : ℕ → Machine → Option Machine
  unfolding has_stage_from
  wait_stages zero m = none
  wait_stages (suc fuel) m =
      if has_stage_from m.kernel.nr_procese 0 m.kernel
      then (elim (interrupts m) [ none ↦ none | some t ↦ wait_stages fuel t ])
      else some m

  -- What follows once all stages are started.
  unfoldable pub finish_pipeline : ℕ → List ℕ → Machine → Option Machine
  unfolding wait_stages clear_tags close_pipes
  finish_pipeline fuel is m =
      elim (wait_stages fuel (say_kernel (text "[Pipeline] Astept terminare procese...\n") m)) [
        | none ↦ none
        | some t ↦
            let k = uart_print (text "[Pipeline] Terminat.\n") (clear_tags t.kernel) in
            some (record t { kernel = record k { pipes = close_pipes is k.pipes } })
      ]

  -- What follows the creation of the pipes.
  unfoldable pub run_stages :
      (ℕ → List ℕ) → ℕ → List (List ℕ) → Option (List ℕ) × Pipes → Machine → Option Machine
  unfolding spawn_stages finish_pipeline
  run_stages programs fuel stages (none, ps) m = some (
      say_kernel (text "Eroare: nu s-a putut crea pipe\n")
        (record m { kernel = record m.kernel { pipes = ps } }))
  run_stages programs fuel stages (some is, ps) m =
      elim (spawn_stages programs stages fd_uart_in is
        (record m { kernel = record m.kernel { pipes = ps } })) [
          | none ↦ none
          | some (started, u) ↦ if started then finish_pipeline fuel is u else some u
        ]

  unfoldable pub execute_pipeline : (ℕ → List ℕ) → ℕ → List ℕ → Machine → Option Machine
  unfolding stages_of alloc_pipes run_stages
  execute_pipeline programs fuel cmd m =
      let stages = stages_of cmd 3 in
      run_stages programs fuel stages (alloc_pipes (length stages - 1) m.kernel.pipes) m
