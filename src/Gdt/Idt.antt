-- ===== src/Gdt/Idt.antt =====
-- The setup of the interrupt table, of the controllers and of the timer in src/idt.c. What is written
-- to a port is a list of ports and bytes, in order. The addresses of the stubs are arguments.
use os_itsc.Base.{
  ℕ, ◌+◌, ◌*◌, ◌/◌, ◌%◌, ◌^◌, ◌<◌, ◌≡◌, refl, List, [], ◌∷◌, ◌++◌, append_assoc, ◌==◌, update,
  arith, false,
}
use os_itsc.Gdt.{IdtEntry, idt_gate}

abbrev pub Idt : Type 0
Idt = ℕ → IdtEntry

abbrev pub idt_set_gate : ℕ → ℕ → ℕ → ℕ → Idt → Idt
idt_set_gate num base sel flags t = update t num (idt_gate base sel flags)

abbrev pub Ports : Type 0
Ports = List (ℕ × ℕ)

-- `outb`: a byte of the value.
abbrev pub outb : ℕ → ℕ → Ports → Ports
outb port val out = out ++ (port, val % 2 ^ 8) ∷ []

unfoldable pub pit_init : ℕ → Ports → Ports
pit_init frequency out =
    let divisor = 1193182 / frequency in
    outb 0x40 (divisor / 2 ^ 8) (outb 0x40 divisor (outb 0x43 0x36 out))

unfoldable pub pic_remap : Ports → Ports
pic_remap out =
    out
    ++ (0x20, 0x11)
      ∷ (0xA0, 0x11)
      ∷ (0x21, 0x20)
      ∷ (0xA1, 0x28)
      ∷ (0x21, 0x04)
      ∷ (0xA1, 0x02)
      ∷ (0x21, 0x01)
      ∷ (0xA1, 0x01)
      ∷ (0x21, 0xFE)
      ∷ (0xA1, 0xFF)
      ∷ []

-- `init_interrupts`, but for what it prints.
unfoldable pub init_interrupts : ℕ → Idt × Ports → Idt × Ports
unfolding pic_remap pit_init
init_interrupts timer_stub (t, out) =
    (idt_set_gate 0x20 timer_stub 0x08 0x8E t, pit_init 100 (pic_remap out))

unfoldable pub init_exceptions : ℕ → ℕ → Idt → Idt
init_exceptions df_stub gpf_stub t =
    idt_set_gate 0x0D gpf_stub 0x08 0x8E (idt_set_gate 0x08 df_stub 0x08 0x8E t)

-- `init_syscalls`, but for what it prints.
unfoldable pub init_syscalls : ℕ → Idt → Idt
init_syscalls syscall_stub t = idt_set_gate 0x80 syscall_stub 0x08 0xEE t

-- The order of `kernel_main`.
unfoldable pub init_idt : ℕ → ℕ → ℕ → ℕ → Idt × Ports → Idt × Ports
unfolding init_interrupts init_exceptions init_syscalls
init_idt df_stub gpf_stub syscall_stub timer_stub (t, out) =
    init_interrupts timer_stub
      (init_syscalls syscall_stub (init_exceptions df_stub gpf_stub t), out)

-- What the processor does on an interrupt, from the table: the handler, and the least privilege that
-- an `int` instruction needs for it.
abbrev pub handler_of : IdtEntry → ℕ
handler_of e = e.offset_low + e.offset_high * 2 ^ 16

abbrev pub level_needed : IdtEntry → ℕ
level_needed e = e.type_attr / 32 % 4

abbrev pub is_gate : IdtEntry → ℕ
is_gate e = e.type_attr / 128

-- The entry of a vector after the setup.
record IsVector (present level handler : ℕ) (e : IdtEntry) : Type 0 where
  gate : is_gate e ≡ present
  needed : level_needed e ≡ level
  entered : handler_of e ≡ handler

-- A vector that is set nowhere is as it was.
init_idt_elsewhere :
    (df gpf sys timer n : ℕ) (t : Idt) (out : Ports)
    → (n == 0x08) ≡ false
    → (n == 0x0D) ≡ false
    → (n == 0x20) ≡ false
    → (n == 0x80) ≡ false
    → (init_idt df gpf sys timer (t, out)).0 n ≡ t n
unfolding init_idt init_interrupts init_exceptions init_syscalls
init_idt_elsewhere df gpf sys timer n t out a b c d = rw (c, d, b, a) refl

-- Of the four stubs at 32-bit addresses, each is entered through its vector, only the system call can
-- be raised by an instruction of a user program, and the other vectors stay as they were.
init_idt_vectors :
    (df gpf sys timer : ℕ) (t : Idt) (out : Ports)
    → df < 2 ^ 32
    → gpf < 2 ^ 32
    → sys < 2 ^ 32
    → timer < 2 ^ 32
    → let u = (init_idt df gpf sys timer (t, out)).0 in
      IsVector 1 0 df (u 0x08)
      × IsVector 1 0 gpf (u 0x0D)
      × IsVector 1 0 timer (u 0x20)
      × IsVector 1 3 sys (u 0x80)
unfolding init_idt init_interrupts init_exceptions init_syscalls idt_gate
init_idt_vectors df gpf sys timer t out a b c d = (
  record { gate = refl; needed = refl; entered = omega arith },
  record { gate = refl; needed = refl; entered = omega arith },
  record { gate = refl; needed = refl; entered = omega arith },
  record { gate = refl; needed = refl; entered = omega arith },
)

-- The two bytes that follow the mode make the divisor, for a frequency that gives one of 16 bits.
pit_init_divisor :
    (frequency : ℕ) (out : Ports)
    → 1193182 / frequency < 2 ^ 16
    → (low high : ℕ) × (pit_init frequency out
        ≡ out ++ (0x43, 0x36) ∷ (0x40, low) ∷ (0x40, high) ∷ [])
      × low + high * 2 ^ 8 ≡ 1193182 / frequency
unfolding pit_init
pit_init_divisor frequency out l = (
  1193182 / frequency % 2 ^ 8,
  1193182 / frequency / 2 ^ 8 % 2 ^ 8,
  simp append_assoc refl,
  omega arith,
)
