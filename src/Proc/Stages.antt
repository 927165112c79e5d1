-- ===== src/Proc/Stages.antt =====
-- The stages of a pipeline in src/kernel.c.
use os_itsc.Base.{
  ℕ, zero, suc, ◌+◌, ◌≤◌, ◌<◌, ◌≡◌, refl, ap, ◌∙◌, ◌⊎◌, inl, inr, Bool, true, false, not, ◌&&◌,
  Option, none, some, List, [], ◌∷◌, ◌++◌, ℤ, pos, Returns, returns, length, ◌==◌, Bool-cases,
  Option-cases, arith,
}
use os_itsc.Proc.{fd_vga_out}
use os_itsc.Proc.Spawn.{Machine, Spawned, spawn_pipeline_process-Spawned}
use os_itsc.Proc.Pipeline.{
  put, stages_of, program_of, out_of, in_after, behind_first, unsupported, spawn_stages,
}
use os_itsc.Sched.Invariant.{IsSched, IsSched-congr}
use os_itsc.Strings.{is_pipeline, trim}

-- The stages one behind the other, with a bar between two of them.
abbrev pub join : List (List ℕ) → List ℕ
join [] = []
join (s ∷ []) = s
join (s ∷ t ∷ ss) = s ++ b'|' ∷ join (t ∷ ss)

-- No stage but the last one has a bar in it.
abbrev pub clean : List (List ℕ) → Bool
clean [] = true
clean (s ∷ []) = true
clean (s ∷ t ∷ ss) = not (is_pipeline s) && clean (t ∷ ss)

-- No stage at all has a bar in it.
abbrev pub all_clean : List (List ℕ) → Bool
all_clean [] = true
all_clean (s ∷ ss) = not (is_pipeline s) && all_clean ss

-- At least one stage and at most `n + 1`, which give the command back, are cut at bars only,
-- and at every bar unless there are `n + 1`.
pub record Staged (cs : List ℕ) (n : ℕ) (ss : List (List ℕ)) : Type 0 where
  pub joined : join ss ≡ cs
  pub some_stage : 0 < length ss
  pub few : length ss ≤ n + 1
  pub cuts : clean ss ≡ true
  pub every_bar : (length ss ≡ n + 1) ⊎ (all_clean ss ≡ true)

barred :
    {cs : List ℕ} {n : ℕ} (c : ℕ) (ss : List (List ℕ))
    → (c == b'|') ≡ true
    → Staged cs n ss
    → Staged (c ∷ cs) (suc n) ([] ∷ ss)
unfolding is_pipeline
barred c [] e v = absurd (omega (arith, v.some_stage))
barred {cs} {n} c (s ∷ ss) e v = record {
  joined = ap (λ t. b'|' ∷ t) v.joined ∙ ap (λ d. d ∷ cs) (ground arith);
  some_stage = omega arith;
  few = omega (arith, v.few);
  cuts = v.cuts;
  every_bar = one_more v.every_bar;
}
  where
    one_more :
        (length (s ∷ ss) ≡ n + 1) ⊎ (all_clean (s ∷ ss) ≡ true)
        → (length ([] ∷ s ∷ ss) ≡ suc n + 1) ⊎ (all_clean ([] ∷ s ∷ ss) ≡ true)
    one_more (inl e) = inl (omega (arith, e))
    one_more (inr e) = inr e

lengthened :
    {cs : List ℕ} {n : ℕ} (c : ℕ) (ss : List (List ℕ))
    → (c == b'|') ≡ false
    → Staged cs n ss
    → Staged (c ∷ cs) n (put c ss)
unfolding is_pipeline
lengthened c [] e v = absurd (omega (arith, v.some_stage))
lengthened {cs} {n} c (s ∷ []) e v = record {
  joined = ap (λ t. c ∷ t) v.joined;
  some_stage = omega arith;
  few = omega (arith, v.few);
  cuts = refl;
  every_bar = same_bars v.every_bar;
}
  where
    same_bars :
        (length (s ∷ []) ≡ n + 1) ⊎ (all_clean (s ∷ []) ≡ true)
        → (length ((c ∷ s) ∷ []) ≡ n + 1) ⊎ (all_clean ((c ∷ s) ∷ []) ≡ true)
    same_bars (inl h) = inl (omega (arith, h))
    same_bars (inr h) = inr (rw e h)
lengthened {cs} {n} c (s ∷ t ∷ ss) e v = record {
  joined = ap (λ t. c ∷ t) v.joined;
  some_stage = omega arith;
  few = omega (arith, v.few);
  cuts = rw e v.cuts;
  every_bar = same_bars v.every_bar;
}
  where
    same_bars :
        (length (s ∷ t ∷ ss) ≡ n + 1) ⊎ (all_clean (s ∷ t ∷ ss) ≡ true)
        → (length ((c ∷ s) ∷ t ∷ ss) ≡ n + 1) ⊎ (all_clean ((c ∷ s) ∷ t ∷ ss) ≡ true)
    same_bars (inl h) = inl (omega (arith, h))
    same_bars (inr h) = inr (rw e h)

-- The stages of a command, cut at most `n` times, are at least one and at most `n + 1`; with a bar
-- between two of them they give the command back, none but the last has a bar in it, and the last has
-- one only if there are `n + 1`.
pub stages_of-Staged : (cs : List ℕ) (n : ℕ) → Staged cs n (stages_of cs n)
unfolding stages_of is_pipeline
stages_of-Staged [] n = record {
  joined = refl;
  some_stage = omega arith;
  few = omega arith;
  cuts = refl;
  every_bar = inr refl;
}
stages_of-Staged (c ∷ cs) zero = record {
  joined = refl;
  some_stage = omega arith;
  few = omega arith;
  cuts = refl;
  every_bar = inl (omega arith);
}
stages_of-Staged (c ∷ cs) (suc n) = elim (Bool-cases (c == b'|')) [
  | inl bar ↦ rw bar (barred c (stages_of cs n) bar (stages_of-Staged cs n))
  | inr plain ↦ rw plain (lengthened c (stages_of cs (suc n)) plain (stages_of-Staged cs (suc n)))
]

module _ (programs : ℕ → List ℕ) where
  abbrev Kept : Machine → Bool × Machine → Type 0
  Kept m (b, t) = IsSched t.kernel × (t.kernel.pipes ≡ m.kernel.pipes)

  after-Kept :
      (m t : Machine) {o : Option (Bool × Machine)}
      → t.kernel.pipes ≡ m.kernel.pipes
      → Returns (Kept t) o
      → Returns (Kept m) o
  after-Kept m t p (returns (v, q)) = returns (v, q ∙ p)

  next_stage :
      (m : Machine) {o : Option (ℤ × Machine)} {next : Machine → Option (Bool × Machine)}
      → Returns (Spawned m) o
      → ((t : Machine) → IsSched t.kernel → Returns (Kept t) (next t))
      → Returns (Kept m) (elim o [ none ↦ none | some (_, t) ↦ next t ])
  next_stage m (returns {a = (r, t)} (v, p, _)) go = after-Kept m t p (go t v)

  -- Starting the stages of a pipeline returns, whatever they are, with the invariant of the process
  -- table and of the heap kept, and the pipes as they were.
  pub spawn_stages-IsSched :
      (ss : List (List ℕ)) (in_fd : ℤ) (is : List ℕ) (m : Machine)
      → IsSched m.kernel
      → Returns
          (λ (out : Bool × Machine). IsSched out.1.kernel × (out.1.kernel.pipes ≡ m.kernel.pipes))
          (spawn_stages programs ss in_fd is m)
  unfolding spawn_stages
  spawn_stages-IsSched [] in_fd is m v = returns (v, refl)
  spawn_stages-IsSched (s ∷ ss) in_fd is m v = elim (Option-cases (program_of (trim s))) [
    | inl e ↦ rw (spawn_stages, e) (returns (IsSched-congr refl refl refl refl v, refl))
    | inr (index, e) ↦
        rw (spawn_stages, e)
          (next_stage m
            (spawn_pipeline_process-Spawned programs (pos index) in_fd (out_of is) fd_vga_out m v)
            (λ t w. spawn_stages-IsSched ss (in_after is) (behind_first is) t w))
  ]

  pub no_program :
      (s : List ℕ) (ss : List (List ℕ)) (in_fd : ℤ) (is : List ℕ) (m : Machine)
      → program_of (trim s) ≡ none
      → spawn_stages programs (s ∷ ss) in_fd is m ≡ some (false, unsupported (trim s) m)
  unfolding spawn_stages
  no_program s ss in_fd is m e = rw (spawn_stages, e) refl
