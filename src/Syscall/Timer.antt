-- ===== src/Syscall/Timer.antt =====
-- The timer handler of src/idt.c around a scheduler tick.
use os_itsc.Base.{
  Returns, returns, ℕ, ◌≡◌, refl, inl, inr, false, Option, none, some, ℤ, pos, negsuc, Bool-cases,
  arith,
}
use os_itsc.Kernel.{Kernel}
use os_itsc.Sched.Invariant.{IsSched-congr}
use os_itsc.Sched.Tick.{IsCall, IsSteady}
use os_itsc.Sched.Total.{scheduler_tick-IsSteady}
use os_itsc.Syscall.{timer_handler, entered, save_esp}

saved_heap : (c esp : ℕ) (k : Kernel) → (save_esp (pos c) esp (entered k)).heap ≡ k.heap
unfolding save_esp
saved_heap c esp k = ground arith

saved-IsSteady :
    {k : Kernel} (cur : ℤ) (esp : ℕ) → IsSteady k → IsSteady (save_esp cur esp (entered k))
unfolding save_esp
saved-IsSteady (negsuc n) esp s = record {
  sched = IsSched-congr refl refl refl refl s.sched;
  started = s.started;
}
saved-IsSteady {k} (pos c) esp s = record {
  sched = record {
    fits = ground (arith, s.sched.fits);
    where_ok = ground (arith, s.sched.where_ok);
    heap_ok = rw (saved_heap c esp k) s.sched.heap_ok;
    slots = λ i lt. ground (arith, s.sched.slots i);
  };
  started = ground (arith, s.started);
}

left :
    {o : Option Kernel}
    → Returns IsSteady o
    → Returns
        (λ t. IsSteady t × (t.in_tick ≡ false))
        (elim o [ none ↦ none | some t ↦ some (record t { in_tick = false }) ])
left (returns {a} s) =
    returns
      (record { sched = IsSched-congr refl refl refl refl s.sched; started = s.started }, refl)

-- For code of processes that returns and keeps the invariant of the scheduler, with some process
-- current: a timer interrupt in a state with that invariant, and with a current process or at most
-- one process, is handled, in such a state, and inside a tick exactly if the interrupt came inside
-- one.
pub timer_handler-IsSteady :
    (call : ℕ → Kernel → Option Kernel)
    → IsCall call
    → (esp : ℕ) (k : Kernel) → IsSteady k
    → Returns (λ t. IsSteady t × (t.in_tick ≡ k.in_tick)) (timer_handler call esp k)
unfolding timer_handler
timer_handler-IsSteady call good esp k s = elim (Bool-cases k.in_tick) [
  | inl inside ↦ rw inside (
      returns
        (record { sched = IsSched-congr refl refl refl refl s.sched; started = s.started }, refl))
  | inr outside ↦
      rw outside (left (scheduler_tick-IsSteady call good _ (saved-IsSteady k.current esp s)))
]
