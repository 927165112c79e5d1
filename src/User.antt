-- ===== src/User.antt =====
-- The user programs of src/u1.c, src/u2.c, src/prog1.c and src/prog2.c as sequences of system calls.
-- The address of a message or of a buffer is an argument; the registers that a call does not set are 0.
-- A result is the state where the program ends or returns; `none` is a call that does not return.
use os_itsc.Base.{
  ℕ, zero, suc, ◌+◌, ◌-◌, ◌^◌, ◌%◌, Bool, Option, none, some, ℤ, pos, negsuc, ltb, ◌==◌,
  if◌then◌else◌,
}
use os_itsc.Kernel.{Kernel}
use os_itsc.Proc.{to_int}
use os_itsc.Syscall.{syscall_handler}

-- `int $0x80` for the result in `eax`.
unfoldable pub call : (ℕ → Bool) → ℕ → ℕ → ℕ → ℕ → Kernel → Option (ℕ × Kernel)
unfolding syscall_handler
call own eax ebx ecx edx k =
    elim (syscall_handler own (record { eax = eax; ebx = ebx; ecx = ecx; edx = edx }) k) [
      | none ↦ none
      | some (r, t) ↦ some (r.eax, t)
    ]

abbrev pub state_after : Option (ℕ × Kernel) → Option Kernel
state_after none = none
state_after (some (n, k)) = some k

-- The call 5.
unfoldable pub exit_call : (ℕ → Bool) → Kernel → Option Kernel
unfolding call
exit_call own k = state_after (call own 5 0 0 0 k)

-- A call that is made on the state after another.
abbrev pub and_then : (Kernel → Option Kernel) → Option Kernel → Option Kernel
and_then f none = none
and_then f (some k) = f k

unfoldable pub u1 : (ℕ → Bool) → ℕ → Kernel → Option Kernel
unfolding call exit_call
u1 own msg k = and_then (exit_call own) (state_after (call own 1 1 msg 38 k))

-- What `u2` does with what it reads: `n > 0`, `n < 0`, or neither.
abbrev pub u2_pass : (ℕ → Bool) → ℕ → ℤ → Kernel → Option Kernel
u2_pass own buf (negsuc _) k = exit_call own k
u2_pass own buf (pos n) k = if n == 0 then some k else state_after (call own 1 1 buf n k)

unfoldable pub u2 : (ℕ → Bool) → ℕ → Kernel → Option Kernel
unfolding call exit_call
u2 own buf k = elim (call own 6 0 buf 64 k) [
  | none ↦ none
  | some (n, t) ↦ u2_pass own buf (to_int n) t
]

-- `(now - start) < 5000` of unsigned words.
abbrev pub is_early : ℕ → ℕ → Bool
is_early start now = ltb ((now + 2 ^ 32 - start) % 2 ^ 32) 5000

-- What comes between two rounds of the loop is an argument.
module _ (own : ℕ → Bool) (interrupts : Kernel → Option Kernel) where
  -- The loop of `prog1` and `prog2`, on fuel.
  unfoldable pub wait_ticks_from : ℕ → ℕ → Kernel → Option Kernel
  unfolding call
  wait_ticks_from zero start k = none
  wait_ticks_from (suc n) start k = elim (call own 3 0 0 0 k) [
    | none ↦ none
    | some (now, t) ↦ (elim (interrupts t) [
      | none ↦ none
      | some u ↦
          (let rest = wait_ticks_from n start u in if is_early start now then rest else some u)
    ])
  ]

  abbrev pub wait_from_now : ℕ → Option (ℕ × Kernel) → Option Kernel
  wait_from_now fuel none = none
  wait_from_now fuel (some (start, k)) = wait_ticks_from fuel start k

  -- `prog1` and `prog2`, which differ in the message.
  unfoldable pub prog : ℕ → ℕ → Kernel → Option Kernel
  unfolding call exit_call wait_ticks_from
  prog fuel msg k = elim (call own 1 1 msg 18 k) [
    | none ↦ none
    | some (_, t) ↦ and_then (exit_call own) (wait_from_now fuel (call own 3 0 0 0 t))
  ]
