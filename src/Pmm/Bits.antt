-- ===== src/Pmm/Bits.antt =====
-- The bits of a word, and of the bitmap, under the three bit operations.
use os_itsc.Base.{
  ℕ, zero, suc, ◌+◌, ◌*◌, ◌/◌, ◌%◌, ◌≡◌, refl, ap, ◌∙◌, inl, inr, true, false, ◌==◌, if◌then◌else◌,
  Bool-cases, arith,
}
use os_itsc.Pmm.{test_bit, set_bit, clear_bit, frame_used, mark_used, mark_free}

half_twice : (a w : ℕ) → ((a * 2 + w % 2) / 2 ≡ a) × ((a * 2 + w % 2) % 2 ≡ w % 2)
half_twice a w = omega arith

test-set_bit : (w i j : ℕ) → test_bit (set_bit w i) j ≡ (if j == i then true else test_bit w j)
unfolding test_bit set_bit
test-set_bit w zero zero = ground arith
test-set_bit w zero (suc j) = ap (λ v. test_bit v j) {y = w / 2} (omega arith) ∙ ground arith
test-set_bit w (suc i) zero = ground arith
test-set_bit w (suc i) (suc j) =
    ap (λ v. test_bit v j) {y = set_bit (w / 2) i} (omega arith)
    ∙ test-set_bit (w / 2) i j
    ∙ ground arith

test-clear_bit : (w i j : ℕ) → test_bit (clear_bit w i) j ≡ (if j == i then false else test_bit w j)
unfolding test_bit clear_bit
test-clear_bit w zero zero = ground arith
test-clear_bit w zero (suc j) = ap (λ v. test_bit v j) {y = w / 2} (omega arith) ∙ ground arith
test-clear_bit w (suc i) zero = ground arith
test-clear_bit w (suc i) (suc j) =
    ap (λ v. test_bit v j) {y = clear_bit (w / 2) i} (omega arith)
    ∙ test-clear_bit (w / 2) i j
    ∙ ground arith

same_frame : (f g : ℕ) → (f / 32 == g / 32) ≡ true → (f % 32 == g % 32) ≡ (f == g)
same_frame f g h = ground arith

other_frame : (f g : ℕ) → (f / 32 == g / 32) ≡ false → (f == g) ≡ false
other_frame f g h = ground arith

-- Marking a frame sets its bit, and no other.
pub used-mark_used :
    (m : ℕ → ℕ) (f g : ℕ) → frame_used (mark_used f m) g ≡ (if g == f then true else frame_used m g)
unfolding frame_used mark_used
used-mark_used m f g = elim (Bool-cases (g / 32 == f / 32)) [
  | inl same ↦
      rw (same, test-set_bit (m (f / 32)) (f % 32) (g % 32), same_frame g f same) (ground arith)
  | inr other ↦ rw (other, other_frame g f other) refl
]

-- Freeing a frame clears its bit, and no other.
pub used-mark_free :
    (m : ℕ → ℕ) (f g : ℕ)
    → frame_used (mark_free f m) g ≡ (if g == f then false else frame_used m g)
unfolding frame_used mark_free
used-mark_free m f g = elim (Bool-cases (g / 32 == f / 32)) [
  | inl same ↦
      rw (same, test-clear_bit (m (f / 32)) (f % 32) (g % 32), same_frame g f same) (ground arith)
  | inr other ↦ rw (other, other_frame g f other) refl
]
