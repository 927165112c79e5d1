-- ===== src/Standalone/Rounds.antt =====
-- A tick of src/scheduler.c takes one from the rounds that are left.
use native.Mathlib.Nat.{mod-lt}
use os_itsc.Base.{
  ℕ, zero, suc, ◌+◌, ◌-◌, ◌≤◌, ◌<◌, ◌≡◌, refl, ap, ap₂, ◌∙◌, fun_ext, inl, inr, true, false, ◌&&◌,
  ℤ, pos, negsuc, pos_part, ◌-ℤ◌, leb_ℤ, ltb, leb, ◌==◌, if◌then◌else◌, update, for_range,
  Bool-cases, eq_refl, arith,
}
use os_itsc.Standalone.{
  Demo, finished, greeting, time_finished, print, go_on, move_down, demo_finish,
  demo_scheduler_tick,
}

-- The rounds that the first `n` processes have left.
unfoldable pub total : ℕ → (ℕ → ℤ) → ℕ
total zero f = 0
total (suc n) f = total n f + pos_part (f n)

-- The current process is one of those that are left, and each of them has rounds left.
pub record IsDemo (s : Demo) : Type 0 where
  pub current_ok : 0 < s.nr_procese → s.current < s.nr_procese
  pub left : (i : ℕ) → i < s.nr_procese → 0 < pos_part (s.remaining i)

abbrev moved {ℓ} : {A : Type ℓ} → ℕ → ℕ → (ℕ → A) → ℕ → A
moved from end f j = if leb from j && ltb j end then f (j + 1) else f j

move_from :
    (n i end : ℕ) (s : Demo)
    → i + n ≡ end
    → for_range n i
        (λ i t. record t {
          processes = update t.processes i (t.processes (i + 1));
          remaining = update t.remaining i (t.remaining (i + 1));
        })
        s
      ≡ record s { processes = moved i end s.processes; remaining = moved i end s.remaining }
unfolding for_range
move_from zero i end s e =
    ap₂ (λ p r. record s { processes = p; remaining = r }) (fun_ext λ j. ground arith)
      (fun_ext λ j. ground arith)
move_from (suc n) i end s e =
    move_from n (i + 1) end _ (omega arith)
    ∙ ap₂ (λ p r. record s { processes = p; remaining = r }) (fun_ext λ j. ground arith)
        (fun_ext λ j. ground arith)

total-congruent : (n : ℕ) (f g : ℕ → ℤ) → ((i : ℕ) → i < n → f i ≡ g i) → total n f ≡ total n g
unfolding total
total-congruent zero f g e = refl
total-congruent (suc n) f g e =
    let rest : total n f ≡ total n g = total-congruent n f g (λ i l. e i (omega arith)) in
    let last : f n ≡ g n = e n (omega arith) in omega (arith, rest, ap pos_part last)

-- The sum without the process at `c`, the others moved down.
total-moved :
    (n c : ℕ) (f : ℕ → ℤ) → c ≤ n → total n (moved c n f) + pos_part (f c) ≡ total (suc n) f
unfolding total
total-moved zero c f l =
    let here : c ≡ 0 = omega arith in omega (arith, ap (λ i. pos_part (f i)) here)
total-moved (suc n) c f l = elim (Bool-cases (ltb c (suc n))) [
  | inl before ↦
      let same : total n (moved c (suc n) f) ≡ total n (moved c n f) =
        total-congruent n (moved c (suc n) f) (moved c n f) (λ i b. ground arith) in
      let last : moved c (suc n) f n ≡ f (n + 1) = ground arith in
      let next : f (n + 1) ≡ f (suc n) = ap f (one_more n) in
      omega (arith, same, ap pos_part last, ap pos_part next, total-moved n c f (ground arith))
  | inr at_end ↦
      let here : f c ≡ f (suc n) = ap f (last_one c n l at_end) in
      let same : total n (moved c (suc n) f) ≡ total n f =
        total-congruent n (moved c (suc n) f) f (λ i b. ground arith) in
      let last : moved c (suc n) f n ≡ f n = ground arith in
      omega (arith, same, ap pos_part last, ap pos_part here)
]
  where
    one_more : (m : ℕ) → m + 1 ≡ suc m
    one_more m = omega arith

    last_one : (c n : ℕ) → c ≤ suc n → ltb c (suc n) ≡ false → c ≡ suc n
    last_one c n l h = ground arith

-- What a tick does to a demonstration: one round less is left, and the invariant is kept.
pub record Ticked (s t : Demo) : Type 0 where
  pub kept : IsDemo t
  pub one_less : total t.nr_procese t.remaining + 1 ≡ total s.nr_procese s.remaining

total-update :
    (n c : ℕ) (f : ℕ → ℤ) (x : ℤ)
    → c < n
    → total n (update f c x) + pos_part (f c) ≡ total n f + pos_part x
unfolding total
total-update zero c f x l = absurd (omega arith)
total-update (suc n) c f x l = elim (Bool-cases (n == c)) [
  | inl here ↦
      let same : total n (update f c x) ≡ total n f =
        total-congruent n (update f c x) f (λ i b. ground arith) in
      let at : f n ≡ f c = ap f (equal n c here) in rw here (omega (arith, same, ap pos_part at))
  | inr there ↦ rw there (omega (arith, total-update n c f x (ground arith)))
]
  where
    equal : (n c : ℕ) → (n == c) ≡ true → n ≡ c
    equal n c h = ground arith

-- A round less.
decreased : (x : ℤ) → 0 < pos_part x → pos_part (x -ℤ pos 1) + 1 ≡ pos_part x
decreased (pos n) l = ground arith
decreased (negsuc n) l = absurd (omega arith)

pub go_on-IsDemo :
    (s : Demo)
    → 0 < s.nr_procese
    → ((i : ℕ) → i < s.nr_procese → 0 < pos_part (s.remaining i))
    → IsDemo (go_on s)
go_on-IsDemo s l h = record { current_ok = λ _. mod-lt (s.current + 1) l; left = h }

move_down_lem :
    (s : Demo)
    → s.current < s.nr_procese
    → move_down s ≡ record s {
      processes = moved s.current (s.nr_procese - 1) s.processes;
      remaining = moved s.current (s.nr_procese - 1) s.remaining;
    }
unfolding move_down
move_down_lem s l =
    move_from (s.nr_procese - 1 - s.current) s.current (s.nr_procese - 1) s (omega arith)

total-taken :
    (n c : ℕ) (f : ℕ → ℤ)
    → c < n
    → pos_part (f c) ≡ 0
    → total (n - 1) (moved c (n - 1) f) ≡ total n f
total-taken zero c f l z = absurd (omega arith)
total-taken (suc n) c f l z =
    let less : suc n - 1 ≡ n = omega arith in
    rw less (omega (arith, total-moved n c f (omega arith), z))

moved-left :
    (n c : ℕ) (f : ℕ → ℤ)
    → ((i : ℕ) → i < n → (i == c) ≡ false → 0 < pos_part (f i))
    → (i : ℕ) → i < n - 1
    → 0 < pos_part (moved c (n - 1) f i)
moved-left n c f h i l = elim (Bool-cases (leb c i && ltb i (n - 1))) [
  | inl behind ↦ rw behind (h (i + 1) (omega arith) (ground arith))
  | inr before ↦ rw before (h i (omega arith) (ground arith))
]

-- The process that has no round left is taken out.
demo_finish-IsDemo :
    (s : Demo)
    → s.current < s.nr_procese
    → pos_part (s.remaining s.current) ≡ 0
    → ((i : ℕ) → i < s.nr_procese → (i == s.current) ≡ false → 0 < pos_part (s.remaining i))
    → IsDemo (demo_finish s)
      × (total (demo_finish s).nr_procese (demo_finish s).remaining
          ≡ total s.nr_procese s.remaining)
unfolding demo_finish
demo_finish-IsDemo s l z h =
    let t : Demo = print (finished (s.current + 1)) s in
    let sum = total-taken s.nr_procese s.current s.remaining l z in
    let rest = moved-left s.nr_procese s.current s.remaining h in
    let u : Demo = record t {
      nr_procese = s.nr_procese - 1;
      processes = moved s.current (s.nr_procese - 1) s.processes;
      remaining = moved s.current (s.nr_procese - 1) s.remaining;
    } in
    elim (Bool-cases (s.nr_procese - 1 == 0)) [
      | inl last ↦
          rw (demo_finish, move_down_lem t l, last)
            (record { current_ok = λ b. absurd (ground arith); left = rest }, sum)
      | inr more ↦
          rw (demo_finish, move_down_lem t l, more) (go_on-IsDemo u (ground arith) rest, sum)
    ]

-- After a round of the current process, which is not the last one of it or is.
round :
    (s : Demo) (x : ℤ)
    → IsDemo s
    → 0 < s.nr_procese
    → x ≡ s.remaining s.current -ℤ pos 1
    → (total s.nr_procese (update s.remaining s.current x) + 1 ≡ total s.nr_procese s.remaining)
      × ((i : ℕ)
          → i < s.nr_procese
          → (i == s.current) ≡ false
          → 0 < pos_part (update s.remaining s.current x i))
round s x v l e =
    let fewer = decreased (s.remaining s.current) (v.left s.current (v.current_ok l)) in
    (
      omega (
        arith,
        fewer,
        ap pos_part e,
        total-update s.nr_procese s.current s.remaining x (v.current_ok l),
      ),
      λ i b n. rw n (v.left i b),
    )

-- A tick with processes left keeps the current process among them, and takes one round from the sum
-- of the rounds that they have left.
pub demo_scheduler_tick-Ticked :
    (s : Demo) → IsDemo s → 0 < s.nr_procese → Ticked s (demo_scheduler_tick s)
unfolding demo_scheduler_tick
demo_scheduler_tick-Ticked s v l =
    let x = s.remaining s.current -ℤ pos 1 in
    let some_left : (s.nr_procese == 0) ≡ false = ground arith in
    let (sum, others) = round s x v l refl in
    let at : (s.current == s.current) ≡ true = eq_refl s.current in
    let u : Demo = record (print (greeting (s.processes s.current)) s) {
      remaining = update s.remaining s.current x;
      slice = s.slice + 1;
    } in
    elim (Bool-cases (leb_ℤ x (pos 0))) [
      | inl over ↦
          let zero_left : pos_part (update s.remaining s.current x s.current) ≡ 0 =
            rw at (ground arith) in
          let (kept, same) = demo_finish-IsDemo u (v.current_ok l) zero_left others in
          rw (demo_scheduler_tick, some_left, at, over)
            (record { kept = kept; one_less = omega (arith, same, sum) })
      | inr more ↦
          let all_left : (i : ℕ)
              → i < s.nr_procese
              → 0 < pos_part (update s.remaining s.current x i) =
            λ i b. elim (Bool-cases (i == s.current)) [
              | inl here ↦ rw here (ground arith)
              | inr there ↦ others i b there
            ] in
          elim (Bool-cases (s.preemptive_mode && leb 4 (s.slice + 1))) [
            | inl next ↦
                rw (demo_scheduler_tick, some_left, at, more, next)
                  (record {
                    kept = go_on-IsDemo (print (time_finished (s.current + 1)) u) l all_left;
                    one_less = sum;
                  })
            | inr stay ↦
                rw (demo_scheduler_tick, some_left, at, more, stay)
                  (record {
                    kept = record { current_ok = v.current_ok; left = all_left };
                    one_less = sum;
                  })
          ]
    ]
