-- ===== src/Pmm/Count.antt =====
-- The number of frames in use, when one frame is marked.
use os_itsc.Base.{ℕ, zero, suc, ◌+◌, ◌≤◌, ◌≡◌, true, false, ltb, if◌then◌else◌, arith}
use os_itsc.Pmm.{frame_used, mark_used, mark_free}
use os_itsc.Pmm.Bits.{used-mark_used, used-mark_free}

-- The number of frames below `n` that are in use.
unfoldable pub count_used : (ℕ → ℕ) → ℕ → ℕ
count_used m zero = 0
count_used m (suc n) = count_used m n + (if frame_used m n then 1 else 0)

pub count_used-le : (m : ℕ → ℕ) (n : ℕ) → count_used m n ≤ n
unfolding count_used
count_used-le m zero = omega arith
count_used-le m (suc n) = ground (arith, count_used-le m n)

module _ (m : ℕ → ℕ) (f : ℕ) where
  pub count-mark_used :
      (n : ℕ)
      → frame_used m f ≡ false
      → count_used (mark_used f m) n ≡ count_used m n + (if ltb f n then 1 else 0)
  unfolding count_used
  count-mark_used zero e = ground arith
  count-mark_used (suc n) e = ground (arith, count-mark_used n e, used-mark_used m f n)

  pub count-mark_free :
      (n : ℕ)
      → frame_used m f ≡ true
      → count_used (mark_free f m) n + (if ltb f n then 1 else 0) ≡ count_used m n
  unfolding count_used
  count-mark_free zero e = ground arith
  count-mark_free (suc n) e = ground (arith, count-mark_free n e, used-mark_free m f n)
