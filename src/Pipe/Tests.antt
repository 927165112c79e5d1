-- ===== src/Pipe/Tests.antt =====
-- The pipes at concrete states.
use os_itsc.Base.{
  ℕ, ◌<◌, ◌≡◌, ◌≢◌, ◌⊎◌, ap, ℤ, negsuc, refl, true, false, [], ◌∷◌, pos, minus_one, arith,
}
use os_itsc.Pipe.{Pipes, max_pipes, pipe_init, pipe_alloc}
use os_itsc.Pipe.Channel.{open_channel, write, read, close, channel_step, run_channel, run_pipe}
use os_itsc.Pipe.Refine.{Implements, run_refines}
use os_itsc.Pipe.Table.{
  IsPipes, Op, after, taken, taken-Implements, pipe_init-IsPipes, pipe_alloc-Implements,
  after-IsPipes, after-Spares,
}

abbrev blank_pipes : Pipes
blank_pipes = pipe_init (record {
  pipes = λ _. record {
    buffer = λ _. 0;
    read_pos = 0;
    write_pos = 0;
    count = 0;
    read_open = false;
    write_open = false;
  };
  pipe_used = λ _. false;
})

run_refines_example :
    run_pipe 2
      (write (7 ∷ 8 ∷ 9 ∷ []) ∷ read 2 ∷ close 1 ∷ read 5 ∷ read 1 ∷ [])
      (taken blank_pipes 2)
    ≡ ((pos 3, []) ∷ (pos 2, 7 ∷ 8 ∷ []) ∷ (pos 0, []) ∷ (pos 1, 9 ∷ []) ∷ (minus_one, []) ∷ [])
unfolding run_channel channel_step
run_refines_example =
    run_refines (write (7 ∷ 8 ∷ 9 ∷ []) ∷ read 2 ∷ close 1 ∷ read 5 ∷ read 1 ∷ [])
      (taken blank_pipes 2) 2 open_channel (taken-Implements blank_pipes 2 (omega arith))

blank-IsPipes : IsPipes blank_pipes
blank-IsPipes = pipe_init-IsPipes _

three_ne_two : pos 3 ≢ pos 2
three_ne_two e = absurd (omega (arith, ap (λ (z : ℤ). elim z [ pos n ↦ n | negsuc n ↦ n ]) e))

after-IsPipes_example : IsPipes (after (Op.write (pos 0) (7 ∷ 8 ∷ [])) (after Op.alloc blank_pipes))
after-IsPipes_example =
    after-IsPipes {s = after Op.alloc blank_pipes} (after-IsPipes blank-IsPipes Op.alloc)
      (Op.write (pos 0) (7 ∷ 8 ∷ []))

pipe_alloc-Implements_example :
    ((k : ℕ) × ((pipe_alloc blank_pipes).0 ≡ pos k)
      × (blank_pipes.pipe_used k ≡ false)
      × Implements (pipe_alloc blank_pipes).1 k open_channel)
    ⊎ (((pipe_alloc blank_pipes).0 ≡ minus_one)
        × ((pipe_alloc blank_pipes).1 ≡ blank_pipes)
        × ((j : ℕ) → j < max_pipes → blank_pipes.pipe_used j ≡ true))
pipe_alloc-Implements_example = pipe_alloc-Implements blank_pipes

after-Spares_example :
    ((after (Op.close (pos 3) 0) (taken blank_pipes 2)).pipes 2 ≡ (taken blank_pipes 2).pipes 2)
    × ((after (Op.close (pos 3) 0) (taken blank_pipes 2)).pipe_used 2 ≡ true)
after-Spares_example = after-Spares (taken blank_pipes 2) 2 refl (Op.close (pos 3) 0) three_ne_two
