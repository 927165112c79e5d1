-- ===== src/Proc/Leaks.antt =====
-- The pipes that execute_pipeline of src/kernel.c leaves in use.
use os_itsc.Base.{
  ℕ, zero, suc, ◌+◌, ◌-◌, ◌≤◌, ◌<◌, ◌≡◌, refl, ap, ◌∙◌, inl, inr, Bool, true, false, Option, none,
  some, List, [], ◌∷◌, ℤ, pos, negsuc, length, ◌==◌, if◌then◌else◌, update, Bool-cases, arith,
}
use os_itsc.Pipe.{Pipes, pipe_alloc, max_pipes}
use os_itsc.Pipe.Table.{took, full, taken, pipe_alloc-Outcome}
use os_itsc.Proc.{fd_uart_in}
use os_itsc.Proc.Spawn.{Machine}
use os_itsc.Proc.Pipeline.{
  stages_of, alloc_pipes, program_of, unsupported, run_stages, execute_pipeline,
}
use os_itsc.Proc.Stages.{no_program}
use os_itsc.Strings.{trim}

-- How many of the first `n` pipes are in use.
abbrev pub used_below : ℕ → (ℕ → Bool) → ℕ
used_below zero u = 0
used_below (suc n) u = let rest = used_below n u in if u n then suc rest else rest

abbrev pub used_pipes : Pipes → ℕ
used_pipes s = used_below max_pipes s.pipe_used

same_below : (n k : ℕ) (u : ℕ → Bool) → n ≤ k → used_below n (update u k true) ≡ used_below n u
same_below zero k u l = refl
same_below (suc n) k u l =
    let other : (n == k) ≡ false = ground arith in rw (other, same_below n k u (omega arith)) refl

one_more_used :
    (n k : ℕ) (u : ℕ → Bool)
    → k < n
    → u k ≡ false
    → used_below n (update u k true) ≡ suc (used_below n u)
one_more_used zero k u l free = absurd (omega arith)
one_more_used (suc n) k u l free = elim (Bool-cases (n == k)) [
  | inl here ↦
      let at : n ≡ k = ground arith in
      let free_n : u n ≡ false = ap u at ∙ free in
      rw (here, free_n) (ap suc (same_below n k u (omega (arith, at))))
  | inr other ↦
      let rest = one_more_used n k u (ground arith) free in
      elim (Bool-cases (u n)) [
        | inl used ↦ rw (other, used) (ap suc rest)
        | inr unused ↦ rw (other, unused) rest
      ]
]

all_used : (n : ℕ) (u : ℕ → Bool) → ((j : ℕ) → j < n → u j ≡ true) → used_below n u ≡ n
all_used zero u h = refl
all_used (suc n) u h =
    let last : u n ≡ true = h n (omega arith) in
    rw last (ap suc (all_used n u (λ j l. h j (omega arith))))

-- The pipes behind one that `pipe_alloc` has answered for.
abbrev after_one : ℕ → ℤ × Pipes → Option (List ℕ) × Pipes
after_one n (id, t) =
    let (rest, u) = alloc_pipes n t in
    elim id [
      | negsuc _ ↦ (none, t)
      | pos i ↦ (elim rest [ none ↦ none | some is ↦ some (i ∷ is) ], u)
    ]

alloc_pipes_step :
    (n k : ℕ) (is : List ℕ) (s : Pipes)
    → pipe_alloc s ≡ (pos k, taken s k)
    → (alloc_pipes n (taken s k)).0 ≡ some is
    → alloc_pipes (suc n) s ≡ (some (k ∷ is), (alloc_pipes n (taken s k)).1)
unfolding alloc_pipes
alloc_pipes_step n k is s e r = ap (after_one n) e ∙ rw r refl

-- As many pipes as are asked for are in use more, if so many are free.
alloc_pipes_used :
    (n : ℕ) (s : Pipes)
    → used_pipes s + n ≤ max_pipes
    → (is : List ℕ) × ((alloc_pipes n s).0 ≡ some is)
      × (used_pipes (alloc_pipes n s).1 ≡ used_pipes s + n)
unfolding alloc_pipes
alloc_pipes_used zero s l = ([], refl, omega arith)
alloc_pipes_used (suc n) s l = elim (pipe_alloc-Outcome s) [
  | full before e ↦
      let every = all_used max_pipes s.pipe_used (λ j b. before j (omega arith) b) in
      absurd (omega (arith, every))
  | took k lo hi free before e ↦
      let more = one_more_used max_pipes k s.pipe_used hi free in
      let (is, r, c) = alloc_pipes_used n (taken s k) (omega (arith, more)) in
      let step = alloc_pipes_step n k is s e r in
      (
        k ∷ is,
        ap (λ (z : Option (List ℕ) × Pipes). z.0) step,
        ap (λ (z : Option (List ℕ) × Pipes). used_pipes z.1) step ∙ c ∙ omega (arith, more),
      )
]

-- A pipeline whose first stage is no program, where pipes are free for the stages: it returns with no
-- new process, and a pipe for each stage but one stays in use.
pub execute_pipeline_leaks :
    (programs : ℕ → List ℕ) (interrupts : Machine → Option Machine) (fuel : ℕ) (cmd s : List ℕ)
    (ss : List (List ℕ)) (m : Machine)
    → stages_of cmd 3 ≡ s ∷ ss
    → program_of (trim s) ≡ none
    → used_pipes m.kernel.pipes + length ss ≤ max_pipes
    → (u : Machine) × (execute_pipeline interrupts programs fuel cmd m ≡ some u)
      × (used_pipes u.kernel.pipes ≡ used_pipes m.kernel.pipes + length ss)
      × (u.kernel.nr_procese ≡ m.kernel.nr_procese)
unfolding execute_pipeline run_stages
execute_pipeline_leaks programs interrupts fuel cmd s ss m e none_such room =
    let (is, r, c) = alloc_pipes_used (length ss) m.kernel.pipes room in
    let ps : Pipes = (alloc_pipes (length ss) m.kernel.pipes).1 in
    let a : alloc_pipes (length ss) m.kernel.pipes ≡ (some is, ps) = ap (λ z. (z, ps)) r in
    let count : length (s ∷ ss) - 1 ≡ length ss = omega arith in
    let t : Machine = record m { kernel = record m.kernel { pipes = ps } } in
    let runs = λ (z : List (List ℕ)).
      run_stages interrupts programs fuel z (alloc_pipes (length z - 1) m.kernel.pipes) m in
    (
      unsupported (trim s) t,
      ap runs e
          ∙ rw (count, a, run_stages, no_program programs s ss fd_uart_in is t none_such) refl,
      c,
      refl,
    )
