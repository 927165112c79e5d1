-- ===== src/Pmm/Init.antt =====
-- pmm_init of src/pmm.c.
use os_itsc.Base.{
  ℕ, zero, suc, ◌+◌, ◌-◌, ◌*◌, ◌/◌, ◌%◌, ◌^◌, ◌≤◌, ◌<◌, ◌≡◌, refl, ◌∙◌, ◌⊎◌, inl, inr, min, true,
  false, ◌&&◌, ltb, leb, ◌==◌, if◌then◌else◌, update, for_range, Bool-cases, arith,
}
use os_itsc.Pmm.{
  Pmm, page_size, test_bit, frame_used, mark_free, bitmap_bytes, round_up_page, first_free,
  pmm_init,
}
use os_itsc.Pmm.Bits.{used-mark_free}
use os_itsc.Pmm.Count.{count_used}
use os_itsc.Pmm.Frames.{IsPmm}

-- `n` binary ones.
unfoldable ones : ℕ → ℕ
ones zero = 0
ones (suc n) = ones n * 2 + 1

test_bit-ones : (n i : ℕ) → i < n → test_bit (ones n) i ≡ true
unfolding test_bit ones
test_bit-ones zero i l = absurd (omega arith)
test_bit-ones (suc n) zero l = let odd : (ones n * 2 + 1) % 2 ≡ 1 = omega arith in rw odd refl
test_bit-ones (suc n) (suc i) l =
    let half : (ones n * 2 + 1) / 2 ≡ ones n = omega arith in
    rw half (test_bit-ones n i (omega arith))

full_word : (i : ℕ) → i < 32 → test_bit 0xffff_ffff i ≡ true
unfolding ones
full_word i l = test_bit-ones 32 i l

-- The loop that fills the words.
filled_words :
    (n from j w : ℕ) (m : ℕ → ℕ)
    → (m j ≡ w) ⊎ from ≤ j
    → j < from + n
    → for_range n from (λ i t. update t i w) m j ≡ w
unfolding for_range
filled_words zero from j w m (inl h) l = h
filled_words zero from j w m (inr g) l = absurd (omega arith)
filled_words (suc n) from j w m h l =
    filled_words n (from + 1) j w (update m from w)
      (elim (Bool-cases (j == from)) [
        | inl here ↦ inl (rw here refl)
        | inr there ↦ elim h [ inl e ↦ inl (rw there e) | inr g ↦ inr (ground arith) ]
      ])
      (omega arith)

-- The loop that frees the frames of a range.
freed_range :
    (n from g : ℕ) (m : ℕ → ℕ)
    → frame_used (for_range n from mark_free m) g
      ≡ (if leb from g && ltb g (from + n) then false else frame_used m g)
unfolding for_range
freed_range zero from g m =
    let outside : (leb from g && ltb g (from + 0)) ≡ false = ground arith in rw outside refl
freed_range (suc n) from g m =
    freed_range n (from + 1) g (mark_free from m) ∙ ground (arith, used-mark_free m from g)

count_below :
    (m : ℕ → ℕ) (first n : ℕ)
    → ((g : ℕ) → g < n → frame_used m g ≡ ltb g first)
    → count_used m n ≡ min n first
unfolding count_used
count_below m first zero h = omega arith
count_below m first (suc n) h =
    ground (arith, count_below m first n (λ g l. h g (omega arith)), h n (omega arith))

-- The frames after both loops, for a bitmap of whole words.
marked :
    (total first g : ℕ) (m : ℕ → ℕ)
    → total % 32 ≡ 0
    → first ≤ total
    → g < total
    → frame_used
        (for_range
          (total - first)
          first
          mark_free
          (for_range (bitmap_bytes total / 4) 0 (λ i t. update t i 0xffff_ffff) m))
        g
      ≡ ltb g first
unfolding frame_used
marked total first g m w f l =
    let bytes : bitmap_bytes total / 4 ≡ total / 32 = ground arith in
    let full = for_range (bitmap_bytes total / 4) 0 (λ i t. update t i 0xffff_ffff) m in
    let word : full (g / 32) ≡ 0xffff_ffff =
      filled_words (bitmap_bytes total / 4) 0 (g / 32) 0xffff_ffff m (inr (omega arith))
        (omega (arith, bytes)) in
    let all_used : frame_used full g ≡ true = used_word full g word in
    freed_range (total - first) first g full ∙ ground (arith, all_used)
  where
    used_word : (t : ℕ → ℕ) (g : ℕ) → t (g / 32) ≡ 0xffff_ffff → frame_used t g ≡ true
    used_word t g e = rw (frame_used, e) (full_word (g % 32) (omega arith))

-- The frames of the kernel and of the bitmap, for a kernel that ends 256 KB before the memory does.
bounds :
    (total end : ℕ)
    → total ≤ 1048576
    → end + 2 ^ 18 < 2 ^ 32
    → end + 2 ^ 18 ≤ total * page_size
    → (first_free (round_up_page end) total ≤ total)
      × (end + bitmap_bytes total ≤ first_free (round_up_page end) total * page_size)
bounds total end l w m =
    let small : bitmap_bytes total ≤ 131072 = ground arith in
    let above : end ≤ round_up_page end = omega arith in
    let near : round_up_page end ≤ end + 4095 = omega arith in
    spread (round_up_page end) (bitmap_bytes total) (end + bitmap_bytes total) (omega arith)
      (omega arith) (omega arith)
  where
    spread :
        (a b c : ℕ)
        → a + b < 2 ^ 32 - 8192
        → a + b + 4095 < total * page_size + page_size
        → c ≤ a + b
        → ((a + b + page_size - 1) % 2 ^ 32 / page_size ≤ total)
          × (c ≤ (a + b + page_size - 1) % 2 ^ 32 / page_size * page_size)
    spread a b c p q r = (omega arith, omega arith)

-- For a memory of whole 128 KB blocks below 4 GB and a kernel that ends at least 256 KB before it does,
-- `pmm_init` makes the allocator's state right: the counter is the number of frames in use, and these
-- are the frames below the counter, which hold the kernel and the bitmap.
pub pmm_init-IsPmm :
    (kb end : ℕ) (p : Pmm)
    → kb % 128 ≡ 0
    → kb < 2 ^ 22
    → 0 < kb
    → end + 2 ^ 18 < 2 ^ 32
    → end + 2 ^ 18 ≤ kb * 1024
    → let q = pmm_init kb end p in
      IsPmm q
      × ((g : ℕ) → g < q.total_frames → frame_used q.bitmap g ≡ ltb g q.used_frames)
      × (end + bitmap_bytes q.total_frames ≤ q.used_frames * page_size)
unfolding pmm_init
pmm_init-IsPmm kb end p w s z l m =
    let q = pmm_init kb end p in
    let frames : q.total_frames ≡ kb / 4 = omega arith in
    let (few, above) =
      bounds q.total_frames end (omega (arith, frames)) l (omega (arith, frames)) in
    let used : (g : ℕ) → g < q.total_frames → frame_used q.bitmap g ≡ ltb g q.used_frames =
      λ g b. marked q.total_frames q.used_frames g p.bitmap (omega (arith, frames)) few b in
    let counted = count_below q.bitmap q.used_frames q.total_frames used in
    let some_bytes : 0 < bitmap_bytes q.total_frames =
      has_bytes q.total_frames (omega (arith, frames)) in
    let some_used : ltb 0 q.used_frames ≡ true = first_used q.used_frames (omega (arith, above)) in
    (
      record {
        counted = omega (arith, counted);
        addressed = omega (arith, frames);
        reserved = used 0 (omega (arith, frames)) ∙ some_used;
      },
      used,
      above,
    )
  where
    has_bytes : (t : ℕ) → 32 ≤ t → 0 < bitmap_bytes t
    has_bytes t h = omega arith

    first_used : (n : ℕ) → 0 < n → ltb 0 n ≡ true
    first_used n h = ground arith
