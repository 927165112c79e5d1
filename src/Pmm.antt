-- ===== src/Pmm.antt =====
-- src/pmm.c: physical frames in a bitmap of 32-bit words.
pub mod Bits
pub mod Count
pub mod Frames
pub mod Init
pub mod Tests
use os_itsc.Base.{
  ℕ, zero, suc, ◌+◌, ◌-◌, ◌*◌, ◌/◌, ◌%◌, ◌^◌, Bool, true, false, not, ltb, leb, ◌==◌, if◌then◌else◌,
  update, for_range,
}

abbrev pub page_size : ℕ
page_size = 4096

-- `w & (1 << off)`, `w | (1 << off)` and `w & ~(1 << off)`, digit by digit.
unfoldable pub test_bit : ℕ → ℕ → Bool
test_bit w zero = w % 2 == 1
test_bit w (suc off) = test_bit (w / 2) off

unfoldable pub set_bit : ℕ → ℕ → ℕ
set_bit w zero = w / 2 * 2 + 1
set_bit w (suc off) = set_bit (w / 2) off * 2 + w % 2

unfoldable pub clear_bit : ℕ → ℕ → ℕ
clear_bit w zero = w / 2 * 2
clear_bit w (suc off) = clear_bit (w / 2) off * 2 + w % 2

-- The static variables; `base` is the address of the bitmap.
pub record Pmm : Type 0 where
  pub base : ℕ
  pub bitmap : ℕ → ℕ
  pub total_frames : ℕ
  pub used_frames : ℕ

-- The bit of frame `f`.
unfoldable pub frame_used : (ℕ → ℕ) → ℕ → Bool
unfolding test_bit
frame_used m f = test_bit (m (f / 32)) (f % 32)

unfoldable pub mark_used : ℕ → (ℕ → ℕ) → ℕ → ℕ
unfolding set_bit
mark_used f m = update m (f / 32) (set_bit (m (f / 32)) (f % 32))

unfoldable pub mark_free : ℕ → (ℕ → ℕ) → ℕ → ℕ
unfolding clear_bit
mark_free f m = update m (f / 32) (clear_bit (m (f / 32)) (f % 32))

abbrev pub bitmap_bytes : ℕ → ℕ
bitmap_bytes total = total / 8 + (if total % 8 == 0 then 0 else 1)

abbrev pub round_up_page : ℕ → ℕ
round_up_page x = (x + page_size - 1) % 2 ^ 32 / page_size * page_size

abbrev pub first_free : ℕ → ℕ → ℕ
first_free base total = (base + bitmap_bytes total + page_size - 1) % 2 ^ 32 / page_size

unfoldable pub pmm_init : ℕ → ℕ → Pmm → Pmm
unfolding mark_free
pmm_init total_mem_kb kernel_end_addr p =
    let total = total_mem_kb * 1024 % 2 ^ 32 / page_size in
    let base = round_up_page kernel_end_addr in
    let first = first_free base total in
    let all_used = for_range (bitmap_bytes total / 4) 0 (λ i m. update m i 0xffff_ffff) p.bitmap in
    record {
      base = base;
      bitmap = for_range (total - first) first mark_free all_used;
      total_frames = total;
      used_frames = first;
    }

-- The loop of `pmm_alloc_frame` from frame `f`, with the rounds left first.
unfoldable pub alloc_from : ℕ → ℕ → Pmm → ℕ × Pmm
unfolding frame_used mark_used
alloc_from zero f p = (0, p)
alloc_from (suc n) f p =
    let rest = alloc_from n (f + 1) p in
    if frame_used p.bitmap f then rest else (
      f * page_size % 2 ^ 32,
      record p { bitmap = mark_used f p.bitmap; used_frames = (p.used_frames + 1) % 2 ^ 32 },
    )

unfoldable pub pmm_alloc_frame : Pmm → ℕ × Pmm
unfolding alloc_from
pmm_alloc_frame p = alloc_from p.total_frames 0 p

unfoldable pub pmm_free_frame : ℕ → Pmm → Pmm
unfolding frame_used mark_free
pmm_free_frame phys p =
    let f = phys / page_size in
    if leb p.total_frames f
    then p
    else if frame_used p.bitmap f
    then record p {
      bitmap = mark_free f p.bitmap;
      used_frames = (p.used_frames + 2 ^ 32 - 1) % 2 ^ 32;
    }
    else p
