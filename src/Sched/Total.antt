-- ===== src/Sched/Total.antt =====
-- The pick at the start of a tick, and the whole tick.
use mathlib.Core.Bool.{false≢true}
use os_itsc.Base.{
  Returns, returns, ℕ, zero, suc, ◌≤◌, ◌<◌, ◌≡◌, refl, sym, ◌∙◌, inl, inr, Bool, true, false, ◌&&◌,
  Option, none, some, ℤ, pos, negsuc, minus_one, ltb, lt→ltb, ◌==◌, if◌then◌else◌, Bool-cases, ◌+ℤ◌,
  arith,
}
use os_itsc.Kernel.{is_running, is_runnable, Kernel, state_of}
use os_itsc.Sched.{
  rem_ℤ, pick_from, pick_next_ready, wake, update_waiting, has_ready_from, pick_anew,
  pick_current_from, switch_to, run_at, scheduler_tick,
}
use os_itsc.Sched.Tables.{update_waiting_lem}
use os_itsc.Sched.Pick.{found, nobody, pick_next_ready-Picked, pick_next_ready_out_of_bounds}
use os_itsc.Sched.Invariant.{
  IsSched, IsSched-congr, IsParked, switch_to-IsSched, update_waiting-IsSched,
}
use os_itsc.Sched.Steps.{not_running-IsParked}
use os_itsc.Sched.Tick.{
  is_index, is_started, IsCall, IsSteady, placed-lt, run_at-IsSteady, has_ready_from-false,
}

-- What the pick leaves: the invariant, and a current process if the tick goes on.
abbrev GoodPick : Bool × Kernel → Type 0
GoodPick (go_on, t) = IsSteady t × (go_on ≡ true → is_index t.current ≡ true)

rem_one : (m : ℕ) → rem_ℤ (negsuc m +ℤ pos 0) 1 ≡ pos 0
unfolding rem_ℤ
rem_one m = ground arith

-- With one process, a pick from a negative index looks at process 0.
pick_from_one :
    (k : Kernel) (n m : ℕ)
    → n ≡ 1
    → k.nr_procese ≡ 1
    → pick_from n 0 (negsuc m) k
      ≡ (if is_runnable (state_of k 0) then some (pos 0) else some minus_one)
unfolding pick_from
pick_from_one k zero m e h = absurd (omega arith)
pick_from_one k (suc zero) m e h = rw (pick_from, h, rem_one m) refl
pick_from_one k (suc (suc n)) m e h = absurd (omega arith)

pick_next_ready_one :
    (k : Kernel) (m : ℕ)
    → k.nr_procese ≡ 1
    → pick_next_ready (negsuc m) k
      ≡ (if is_runnable (state_of k 0) then some (pos 0) else some minus_one)
unfolding pick_next_ready
pick_next_ready_one k m h = pick_from_one k k.nr_procese m h h

negative-IsParked : {k : Kernel} (m : ℕ) → k.current ≡ negsuc m → IsSched k → IsParked k
negative-IsParked {k} m e v = record {
  fits = v.fits;
  where_ok = v.where_ok;
  heap_ok = v.heap_ok;
  slots = λ i lt. ground (arith, v.slots i lt);
}

module _ {k : Kernel} where
  switched :
      (idx : ℕ)
      → idx < k.nr_procese
      → IsParked k
      → GoodPick (true, record (switch_to (pos idx) k) { slice = 0 })
  unfolding switch_to
  switched idx lt p = (record { sched = switch_to-IsSched idx 0 lt p; started = refl }, λ _. refl)

  stopped : is_started k.current k.nr_procese ≡ true → IsSched k → GoodPick (false, k)
  stopped s v = (record { sched = v; started = s }, λ h. absurd (false≢true h))

  pick_anew-GoodPick :
      (cur : ℤ)
      → k.current ≡ cur
      → IsSched k
      → IsParked k
      → is_started cur k.nr_procese ≡ true
      → 0 < k.nr_procese
      → Returns GoodPick (pick_anew cur k)
  unfolding pick_anew
  pick_anew-GoodPick (pos c) e v p s h = elim (pick_next_ready-Picked k c) [
    | found j lo hi r before q ↦ rw (q, pick_anew) (returns (switched _ (omega arith) p))
    | nobody before q ↦ rw (q, pick_anew) (returns (stopped (rw e s) v))
  ]
  pick_anew-GoodPick (negsuc m) e v p s h =
      let one : k.nr_procese ≡ 1 = ground arith in
      elim (Bool-cases (is_runnable (state_of k 0))) [
        | inl r ↦
            rw (pick_next_ready_one k m one, r, pick_anew) (returns (switched 0 (omega arith) p))
        | inr r ↦ rw (pick_next_ready_one k m one, r, pick_anew) (returns (stopped (rw e s) v))
      ]

  pick_current-GoodPick :
      (cur : ℤ)
      → k.current ≡ cur
      → IsSched k
      → is_started cur k.nr_procese ≡ true
      → 0 < k.nr_procese
      → Returns GoodPick (pick_current_from cur k)
  unfolding pick_current_from
  pick_current-GoodPick (negsuc m) e v s h =
      pick_anew-GoodPick (negsuc m) e v (negative-IsParked m e v) s h
  pick_current-GoodPick (pos c) e v s h =
      let lt : c < k.nr_procese = placed-lt e v.where_ok in
      elim (Bool-cases (ltb c k.nr_procese && is_running (state_of k c))) [
        | inl stays ↦ rw stays (returns (record { sched = v; started = rw e refl }, λ _. rw e refl))
        | inr goes ↦ rw goes (
            pick_anew-GoodPick (pos c) e v
              (not_running-IsParked c e (ground (arith, lt→ltb c k.nr_procese lt)) v) s h)
      ]

awake-current :
    (k : Kernel)
    → ((update_waiting k).current ≡ k.current) × ((update_waiting k).nr_procese ≡ k.nr_procese)
awake-current k = rw (update_waiting_lem k) (refl, refl)

awake-runnable :
    (k : Kernel) (i : ℕ)
    → is_runnable (state_of k i) ≡ true
    → is_runnable (state_of (update_waiting k) i) ≡ true
unfolding wake
awake-runnable k i h = rw (update_waiting_lem k) (ground arith)

has_ready_of :
    (k : Kernel) (i : ℕ)
    → i < k.nr_procese
    → is_runnable (state_of k i) ≡ true
    → has_ready_from k.nr_procese 0 k ≡ true
has_ready_of k i lt r = elim (Bool-cases (has_ready_from k.nr_procese 0 k)) [
  | inl h ↦ h
  | inr h ↦
      absurd (
        false≢true
          (sym (has_ready_from-false k.nr_procese 0 k i h (omega arith) (omega arith)) ∙ r))
]

pick_anew_lost : (k : Kernel) → 2 ≤ k.nr_procese → pick_anew minus_one k ≡ none
unfolding pick_anew
pick_anew_lost k h = rw (pick_next_ready_out_of_bounds k h, pick_anew) refl

pick_current_lost :
    (cur : ℤ) (k : Kernel) → cur ≡ minus_one → 2 ≤ k.nr_procese → pick_current_from cur k ≡ none
unfolding pick_current_from
pick_current_lost cur k e h = rw e (pick_anew_lost k h)

module _ (call : ℕ → Kernel → Option Kernel) where
  module _ (good : IsCall call) where
    go_on_with :
        {o : Option (Bool × Kernel)}
        → Returns GoodPick o
        → Returns IsSteady (elim o [
          | none ↦ none
          | some (go_on, t) ↦ if go_on then run_at call t.current t else some t
        ])
    go_on_with (returns {a = (true, t)} p) =
        run_at-IsSteady call good t.current refl (p.1 refl) p.0.sched
    go_on_with (returns {a = (false, t)} p) = returns p.0

    -- For code of processes that returns and keeps the invariant of the scheduler, with some
    -- process current: from a state with that invariant, and with a current process or at most one
    -- process, `scheduler_tick` ends, reads nothing outside of the process table, and leaves such
    -- a state.
    pub scheduler_tick-IsSteady :
        (k : Kernel) → IsSteady k → Returns IsSteady (scheduler_tick call k)
    unfolding scheduler_tick
    scheduler_tick-IsSteady k s =
        let t = update_waiting k in
        let w = update_waiting-IsSched s.sched in
        let (cur, nr) = awake-current k in
        elim (Bool-cases (k.nr_procese == 0)) [
          | inl empty ↦ rw empty (returns s)
          | inr some_left ↦ rw some_left (elim (Bool-cases (has_ready_from t.nr_procese 0 t)) [
            | inl has ↦ rw has (
                go_on_with
                  (pick_current-GoodPick t.current refl w (rw (cur, nr) s.started) (ground arith)))
            | inr idle ↦ rw idle (
                returns (record {
                  sched = IsSched-congr refl refl refl refl w;
                  started = rw (cur, nr) s.started;
                }))
          ])
        ]

  -- If `current` is -1 and there are two processes or more, one of them ready or running, a tick
  -- reads `proc_table[-1]`.
  pub scheduler_tick_out_of_bounds :
      (k : Kernel) (i : ℕ)
      → k.current ≡ minus_one
      → 2 ≤ k.nr_procese
      → i < k.nr_procese
      → is_runnable (state_of k i) ≡ true
      → scheduler_tick call k ≡ none
  unfolding scheduler_tick
  scheduler_tick_out_of_bounds k i e h lt r =
      let t = update_waiting k in
      let (cur, nr) = awake-current k in
      let some_left : (k.nr_procese == 0) ≡ false = ground arith in
      let still : is_runnable (state_of t i) ≡ true = awake-runnable k i r in
      let has : has_ready_from t.nr_procese 0 t ≡ true =
        has_ready_of t i (omega (arith, nr)) still in
      let lost : pick_current_from t.current t ≡ none =
        pick_current_lost t.current t (cur ∙ e) (omega (arith, nr)) in
      rw (some_left, has, lost) refl
