-- ===== src/Gdt.antt =====
-- The descriptor encodings of src/gdt.c and src/idt.c. A descriptor is the record of its bit fields.
pub mod Tss
pub mod Idt
pub mod Tests
use os_itsc.Base.{ℕ, ◌+◌, ◌*◌, ◌/◌, ◌%◌, ◌^◌, ◌<◌, ◌≡◌, arith}

-- `struct gdt_entry`
pub record GdtEntry : Type 0 where
  pub limit_low : ℕ
  pub base_low : ℕ
  pub base_middle : ℕ
  pub access : ℕ
  pub granularity : ℕ
  pub base_high : ℕ

-- `gdt_set_gate`: the two halves of `granularity` have no bit in common, so `|` adds them.
unfoldable pub gdt_gate : ℕ → ℕ → ℕ → ℕ → GdtEntry
gdt_gate base limit access gran = record {
  limit_low = limit % 2 ^ 16;
  base_low = base % 2 ^ 16;
  base_middle = base / 2 ^ 16 % 2 ^ 8;
  access = access;
  granularity = limit / 2 ^ 16 % 16 + gran / 16 % 16 * 16;
  base_high = base / 2 ^ 24 % 2 ^ 8;
}

-- What the processor reads out of a descriptor.
abbrev pub gdt_base : GdtEntry → ℕ
gdt_base e = e.base_low + e.base_middle * 2 ^ 16 + e.base_high * 2 ^ 24

abbrev pub gdt_limit : GdtEntry → ℕ
gdt_limit e = e.limit_low + e.granularity % 16 * 2 ^ 16

-- Of a 32-bit base and 8-bit flags, the processor reads back the base, the low 20 bits of the
-- limit, and the upper half of the flags.
pub gdt_gate-decodes :
    (base limit access gran : ℕ)
    → base < 2 ^ 32
    → gran < 2 ^ 8
    → (gdt_base (gdt_gate base limit access gran) ≡ base)
      × (gdt_limit (gdt_gate base limit access gran) ≡ limit % 2 ^ 20)
      × ((gdt_gate base limit access gran).granularity / 16 ≡ gran / 16)
unfolding gdt_gate
gdt_gate-decodes base limit access gran b g = (omega arith, omega arith, omega arith)

-- `struct idt_entry_t`
pub record IdtEntry : Type 0 where
  pub offset_low : ℕ
  pub selector : ℕ
  pub zero_byte : ℕ
  pub type_attr : ℕ
  pub offset_high : ℕ

-- `idt_set_gate`
unfoldable pub idt_gate : ℕ → ℕ → ℕ → IdtEntry
idt_gate base sel flags = record {
  offset_low = base % 2 ^ 16;
  offset_high = base / 2 ^ 16 % 2 ^ 16;
  selector = sel;
  zero_byte = 0;
  type_attr = flags;
}

-- Of a 32-bit address, the handler that the processor enters is the one that was set.
idt_gate-decodes :
    (base sel flags : ℕ)
    → base < 2 ^ 32
    → (idt_gate base sel flags).offset_low + (idt_gate base sel flags).offset_high * 2 ^ 16 ≡ base
unfolding idt_gate
idt_gate-decodes base sel flags b = omega arith
