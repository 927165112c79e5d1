-- ===== src/Gdt/Tss.antt =====
-- gdt_init of src/gdt.c and the task state segment of src/tss.c, as its 26 words. Loading them is
-- assembly.
use os_itsc.Base.{ℕ, ◌+◌, ◌-◌, ◌/◌, ◌%◌, ◌≡◌, ◌==◌, if◌then◌else◌, update}
use os_itsc.Gdt.{GdtEntry, gdt_gate, gdt_base, gdt_limit}

abbrev pub Gdt : Type 0
Gdt = ℕ → GdtEntry

abbrev pub gdt_set_gate : ℕ → ℕ → ℕ → ℕ → ℕ → Gdt → Gdt
gdt_set_gate num base limit access gran g = update g num (gdt_gate base limit access gran)

unfoldable pub gdt_init : Gdt → Gdt
gdt_init g = gdt_set_gate 5 0 0 0 0 (
    gdt_set_gate 4 0 0xFFFF_FFFF 0xF2 0xCF (
      gdt_set_gate 3 0 0xFFFF_FFFF 0xFA 0xCF (
        gdt_set_gate 2 0 0xFFFF_FFFF 0x92 0xCF
          (gdt_set_gate 1 0 0xFFFF_FFFF 0x9A 0xCF (gdt_set_gate 0 0 0 0 0 g)))))

-- `struct tss_entry` by the index of the word: `esp0` is 1, `ss0` 2 and `iomap_base` 25.
abbrev pub Tss : Type 0
Tss = ℕ → ℕ

-- `sizeof(tss)`
abbrev pub tss_size : ℕ
tss_size = 104

unfoldable pub tss_init : ℕ → Tss
tss_init kernel_stack_top = update (update (update (λ _. 0) 2 0x10) 1 kernel_stack_top) 25 tss_size

abbrev pub tss_set_esp0 : ℕ → Tss → Tss
tss_set_esp0 stack t = update t 1 stack

-- `base` is the address of the segment.
unfoldable pub tss_install_gdt : ℕ → Gdt → Gdt
tss_install_gdt base g = gdt_set_gate 5 base (tss_size - 1) 0x89 0x00 g

-- The privilege level of a descriptor.
abbrev pub level_of : GdtEntry → ℕ
level_of e = e.access / 32 % 4

-- A segment of 4 GB from 0 on, for code of that level.
pub record IsFlat (level code : ℕ) (e : GdtEntry) : Type 0 where
  pub from_zero : gdt_base e ≡ 0
  pub largest : gdt_limit e ≡ 0xF_FFFF
  pub in_pages : e.granularity / 128 ≡ 1
  pub level_is : level_of e ≡ level
  pub present : e.access / 128 ≡ 1
  pub is_segment : e.access / 16 % 2 ≡ 1
  pub executable : e.access / 8 % 2 ≡ code
  pub accessible : e.access / 2 % 2 ≡ 1
  pub wide : e.granularity / 64 % 2 ≡ 1

-- The level and the kind of the segments 1 to 4.
abbrev pub level_at : ℕ → ℕ
level_at i = if i == 3 then 3 else if i == 4 then 3 else 0

abbrev pub code_at : ℕ → ℕ
code_at i = if i == 1 then 1 else if i == 3 then 1 else 0

-- The descriptor of a task state that is present, not in use, and for the kernel alone.
pub record IsTask (base : ℕ) (e : GdtEntry) : Type 0 where
  pub begins : gdt_base e ≡ base
  pub ends : gdt_limit e + 1 ≡ tss_size
  pub in_bytes : e.granularity / 128 ≡ 0
  pub access_is : e.access ≡ 0x89
