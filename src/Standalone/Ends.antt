-- ===== src/Standalone/Ends.antt =====
-- The loops of src/scheduler.c come to an end.
use os_itsc.Base.{
  ℕ, zero, suc, ◌+◌, ◌≤◌, ◌<◌, ◌≡◌, refl, inl, inr, true, false, Option, none, some, ℤ, pos_part,
  ltb, ◌==◌, Bool-cases, arith,
}
use os_itsc.Standalone.{
  Demo, cooperative, preemptive, yielding, done, print, go_on, demo_yield, demo_scheduler_tick,
  ticks_from, second_part, run_out, demo_main,
}
use os_itsc.Standalone.Rounds.{total, IsDemo, go_on-IsDemo, demo_scheduler_tick-Ticked}

-- What the loop leaves: nobody.
pub data EndsEmpty : Option Demo → Type 0 where
  ends_empty : {s : Demo} → s.nr_procese ≡ 0 → EndsEmpty (some s)

-- Each process has rounds left, so there is nobody where the sum is 0.
nobody_left : (n : ℕ) (f : ℕ → ℤ) → ((i : ℕ) → i < n → 0 < pos_part (f i)) → total n f ≡ 0 → n ≡ 0
unfolding total
nobody_left zero f h e = refl
nobody_left (suc n) f h e = absurd (omega (arith, h n (omega arith)))

run_out-EndsEmpty :
    (n : ℕ) (s : Demo) → IsDemo s → total s.nr_procese s.remaining ≤ n → EndsEmpty (run_out n s)
unfolding run_out
run_out-EndsEmpty zero s v l =
    let z : s.nr_procese ≡ 0 = nobody_left s.nr_procese s.remaining v.left (omega arith) in
    let over : ltb 0 s.nr_procese ≡ false = ground arith in rw over (ends_empty z)
run_out-EndsEmpty (suc n) s v l = elim (Bool-cases (ltb 0 s.nr_procese)) [
  | inl more ↦
      let t = demo_scheduler_tick-Ticked s v (ground arith) in
      rw more (run_out-EndsEmpty n (demo_scheduler_tick s) t.kept (omega (arith, t.one_less)))
  | inr over ↦ rw over (ends_empty (ground arith))
]

-- A state before the tick `t` that keeps the invariant, with at most `n` rounds left and all but at
-- most `t` of the first ones.
record Within (first n t : ℕ) (s : Demo) : Type 0 where
  kept : IsDemo s
  at_most : total s.nr_procese s.remaining ≤ n
  at_least : first ≤ total s.nr_procese s.remaining + t

tick-Within :
    (first n t : ℕ) (s : Demo) → Within first n t s → Within first n (t + 1) (demo_scheduler_tick s)
unfolding demo_scheduler_tick
tick-Within first n t s w = elim (Bool-cases (s.nr_procese == 0)) [
  | inl over ↦
      rw over (record { kept = w.kept; at_most = w.at_most; at_least = omega (arith, w.at_least) })
  | inr more ↦
      let d = demo_scheduler_tick-Ticked s w.kept (ground arith) in
      record {
        kept = d.kept;
        at_most = omega (arith, d.one_less, w.at_most);
        at_least = omega (arith, d.one_less, w.at_least);
      }
]

total_nobody : (n : ℕ) (f : ℕ → ℤ) → (n == 0) ≡ true → total n f ≡ 0
unfolding total
total_nobody zero f h = refl
total_nobody (suc n) f h = absurd (ground arith)

demo_yield-Within :
    (first n t : ℕ) (s : Demo)
    → t < first
    → Within first n t s
    → (u : Demo) × (demo_yield s ≡ some u) × Within first n t u
unfolding demo_yield
demo_yield-Within first n t s l w = elim (Bool-cases s.preemptive_mode) [
  | inl p ↦ (s, simp (demo_yield, p) refl, w)
  | inr p ↦ elim (Bool-cases (s.nr_procese == 0)) [
    | inl z ↦ absurd (omega (arith, w.at_least, total_nobody s.nr_procese s.remaining z))
    | inr more ↦ (
      go_on (print (yielding (s.current + 1)) s),
      simp (demo_yield, p, more) refl,
      record {
        kept = go_on-IsDemo (print (yielding (s.current + 1)) s) (ground arith) w.kept.left;
        at_most = w.at_most;
        at_least = w.at_least;
      },
    )
  ]
]

-- A state that keeps the invariant, with at most so many rounds left.
data Reached (n : ℕ) : Option Demo → Type 0 where
  reached : {s : Demo} → IsDemo s → total s.nr_procese s.remaining ≤ n → Reached n (some s)

ticks_from-Reached :
    (first n m t : ℕ) (s : Demo) → 4 < first → Within first n t s → Reached n (ticks_from m t s)
unfolding ticks_from
ticks_from-Reached first n zero t s l w = reached w.kept w.at_most
ticks_from-Reached first n (suc m) t s l w =
    let ticked = tick-Within first n t s w in
    elim (Bool-cases (t == 3)) [
      | inl third ↦
          let (u, e, v) =
            demo_yield-Within first n (t + 1) (demo_scheduler_tick s) (ground arith) ticked in
          rw (third, e) (ticks_from-Reached first n m (t + 1) u l v)
      | inr other ↦ rw other (ticks_from-Reached first n m (t + 1) (demo_scheduler_tick s) l ticked)
    ]

second_part-EndsEmpty :
    (n : ℕ) (s : Demo) → IsDemo s → total s.nr_procese s.remaining ≤ n → EndsEmpty (second_part n s)
unfolding second_part
second_part-EndsEmpty n s v l = ended (
    run_out-EndsEmpty n (print preemptive (record s { preemptive_mode = true }))
      (record { current_ok = v.current_ok; left = v.left }) l)
  where
    ended :
        {o : Option Demo}
        → EndsEmpty o
        → EndsEmpty (elim o [ none ↦ none | some u ↦ some (print done u) ])
    ended (ends_empty z) = ends_empty z

-- From any state whose current process is one of those that are left, each of which has rounds left,
-- and with more than four rounds left in all, `main` divides by nothing that is 0 and ends with no
-- process left: its last loop takes at most as many ticks as there were rounds.
pub demo_main-EndsEmpty :
    (n : ℕ) (s : Demo)
    → IsDemo s
    → 4 < total s.nr_procese s.remaining
    → total s.nr_procese s.remaining ≤ n
    → EndsEmpty (demo_main n s)
unfolding demo_main
demo_main-EndsEmpty n s v l m = second (
    ticks_from-Reached (total s.nr_procese s.remaining) n 10 0 (print cooperative s) l (record {
      kept = record { current_ok = v.current_ok; left = v.left };
      at_most = m;
      at_least = omega arith;
    }))
  where
    second :
        {o : Option Demo}
        → Reached n o
        → EndsEmpty (elim o [ none ↦ none | some t ↦ second_part n t ])
    second (reached k b) = second_part-EndsEmpty n _ k b
