-- ===== src/Vga/Pixels.antt =====
-- What the drawing of src/vga.c puts at a pixel of the screen.
use os_itsc.Base.{
  ℕ, zero, suc, ◌+◌, ◌*◌, ◌<◌, ◌≡◌, refl, sym, ap, ◌∙◌, true, false, ◌&&◌, ◌||◌, ℤ, pos, negsuc,
  pos_part, ◌+ℤ◌, ltb_ℤ, leb_ℤ, ltb, leb, if◌then◌else◌, for_range, Bool, arith,
}
use os_itsc.Vga.{Screen, scr_w, scr_h, put_pixel, fill_row, fill_rect}

-- The byte of the pixel in column `px` and row `py`.
abbrev pub pixel : ℕ → ℕ → Screen → ℕ
pixel px py s = s (py * scr_w + px)

-- The numbers from `a` on that are less than `a + n`.
abbrev pub spans : ℤ → ℕ → ℕ → Bool
spans a n p = leb_ℤ a (pos p) && ltb_ℤ (pos p) (a +ℤ pos n)

spans_none : (a : ℤ) (p : ℕ) → spans a 0 p ≡ false
spans_none (pos a) p = ground arith
spans_none (negsuc a) p = ground arith

spans_left :
    (a i n p : ℕ) → spans (negsuc a +ℤ pos i) n p ≡ (leb i (p + a + 1) && ltb (p + a + 1) (i + n))
spans_left a i n p = ground arith

split_span :
    (q i n : ℕ)
    → (leb i q && ltb q (i + suc n))
      ≡ (leb i q && ltb q (i + 1) || leb (i + 1) q && ltb q (i + 1 + n))
split_span q i n = ground arith

spans_step :
    (a : ℤ) (i n p : ℕ)
    → spans (a +ℤ pos i) (suc n) p ≡ (spans (a +ℤ pos i) 1 p || spans (a +ℤ pos (i + 1)) n p)
spans_step (pos a) i n p = ground arith
spans_step (negsuc a) i n p =
    rw (spans_left a i (suc n) p, spans_left a i 1 p, spans_left a (i + 1) n p)
      (split_span (p + a + 1) i n)

-- Two writes of one color, or one where either is.
either :
    (b c d : Bool) (w v : ℕ)
    → (if c && d then w else if b && d then w else v) ≡ (if (b || c) && d then w else v)
either true true true w v = refl
either true true false w v = refl
either true false true w v = refl
either true false false w v = refl
either false true d w v = refl
either false false d w v = refl

either_row :
    (d b c : Bool) (w v : ℕ)
    → (if d && c then w else if d && b then w else v) ≡ (if d && (b || c) then w else v)
either_row false b c w v = refl
either_row true true true w v = refl
either_row true true false w v = refl
either_row true false c w v = refl

not_in : (d : Bool) (w v : ℕ) → v ≡ (if d && false then w else v)
not_in true w v = refl
not_in false w v = refl

plus_zero : (z : ℤ) → z +ℤ pos 0 ≡ z
plus_zero (pos n) = ground arith
plus_zero (negsuc n) = ground arith

module _ (px py : ℕ) (hx : px < scr_w) (hy : py < scr_h) where
  put_pixel_hits :
      (x y : ℤ) (color : ℕ) (s : Screen)
      → pixel px py (put_pixel x y color s)
        ≡ (if spans x 1 px && spans y 1 py then color else pixel px py s)
  unfolding put_pixel
  put_pixel_hits (pos x) (pos y) color s = ground arith
  put_pixel_hits (pos x) (negsuc y) color s = ground arith
  put_pixel_hits (negsuc x) y color s = ground arith

  row_lem :
      (n i : ℕ) (x y : ℤ) (color : ℕ) (s : Screen)
      → pixel px py (for_range n i (λ k t. put_pixel (x +ℤ pos k) y color t) s)
        ≡ (if spans (x +ℤ pos i) n px && spans y 1 py then color else pixel px py s)
  unfolding for_range
  row_lem zero i x y color s = rw (spans_none (x +ℤ pos i) px) refl
  row_lem (suc n) i x y color s =
      row_lem n (i + 1) x y color (put_pixel (x +ℤ pos i) y color s)
      ∙ ap (λ v. if spans (x +ℤ pos (i + 1)) n px && spans y 1 py then color else v)
          (put_pixel_hits (x +ℤ pos i) y color s)
      ∙ either (spans (x +ℤ pos i) 1 px) (spans (x +ℤ pos (i + 1)) n px) (spans y 1 py) color _
      ∙ ap (λ b. if b && spans y 1 py then color else pixel px py s) (sym (spans_step x i n px))

  fill_row_lem :
      (x y w : ℤ) (color : ℕ) (s : Screen)
      → pixel px py (fill_row x y w color s)
        ≡ (if spans x (pos_part w) px && spans y 1 py then color else pixel px py s)
  unfolding fill_row
  fill_row_lem x y w color s =
      row_lem (pos_part w) 0 x y color s
      ∙ ap (λ z. if spans z (pos_part w) px && spans y 1 py then color else pixel px py s)
          (plus_zero x)

  rows_lem :
      (n j : ℕ) (x y w : ℤ) (color : ℕ) (s : Screen)
      → pixel px py (for_range n j (λ k t. fill_row x (y +ℤ pos k) w color t) s)
        ≡ (if spans x (pos_part w) px && spans (y +ℤ pos j) n py then color else pixel px py s)
  unfolding for_range
  rows_lem zero j x y w color s =
      not_in (spans x (pos_part w) px) color (pixel px py s)
      ∙ ap (λ b. if spans x (pos_part w) px && b then color else pixel px py s)
          (sym (spans_none (y +ℤ pos j) py))
  rows_lem (suc n) j x y w color s =
      let inside = spans x (pos_part w) px in
      rows_lem n (j + 1) x y w color (fill_row x (y +ℤ pos j) w color s)
      ∙ ap (λ v. if inside && spans (y +ℤ pos (j + 1)) n py then color else v)
          (fill_row_lem x (y +ℤ pos j) w color s)
      ∙ either_row inside (spans (y +ℤ pos j) 1 py) (spans (y +ℤ pos (j + 1)) n py) color _
      ∙ ap (λ b. if inside && b then color else pixel px py s) (sym (spans_step y j n py))

  -- A rectangle of any size at any place, off the screen too, colors the pixels of the screen that
  -- lie in it, and leaves the others as they were.
  pub fill_rect_lem :
      (x y w h : ℤ) (color : ℕ) (s : Screen)
      → pixel px py (fill_rect x y w h color s)
        ≡ (if spans x (pos_part w) px && spans y (pos_part h) py then color else pixel px py s)
  unfolding fill_rect
  fill_rect_lem x y w h color s =
      rows_lem (pos_part h) 0 x y w color s
      ∙ ap
          (λ z. if spans x (pos_part w) px && spans z (pos_part h) py then color else pixel px py s)
          (plus_zero y)
