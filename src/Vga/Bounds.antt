-- ===== src/Vga/Bounds.antt =====
-- The bytes that the drawing of src/vga.c writes, and the cursor of its terminal.
use os_itsc.Base.{
  ℕ, zero, suc, ◌+◌, ◌*◌, ◌≤◌, ◌<◌, ◌≡◌, refl, ◌∙◌, inl, inr, List, [], ◌∷◌, ℤ, pos, negsuc, ◌+ℤ◌,
  ◌-ℤ◌, ltb, leb, ◌==◌, for_range, Bool-cases, arith,
}
use os_itsc.Console.{newline}
use os_itsc.Vga.{
  Screen, scr_w, scr_h, put_pixel, fill_row, fill_rect, frame, draw_bits, draw_char, draw_from,
  draw_string, draw_window, Term, term_cols, term_rows, term_scroll, term_newline, term_put,
  term_print,
}

-- Two screens with the same bytes behind the screen.
abbrev pub SameBeyond : Screen → Screen → Type 0
SameBeyond s t = (i : ℕ) → scr_w * scr_h ≤ i → t i ≡ s i

-- A loop whose rounds write on the screen only does so too.
loop-SameBeyond :
    (n i : ℕ) (step : ℕ → Screen → Screen) (s : Screen)
    → ((j : ℕ) (t : Screen) → j < i + n → SameBeyond t (step j t))
    → SameBeyond s (for_range n i step s)
unfolding for_range
loop-SameBeyond zero i step s keep p h = refl
loop-SameBeyond (suc n) i step s keep p h =
    loop-SameBeyond n (i + 1) step (step i s) (λ j t lt. keep j t (omega arith)) p h
    ∙ keep i s (omega arith) p h

put_pixel-SameBeyond : (x y : ℤ) (color : ℕ) (s : Screen) → SameBeyond s (put_pixel x y color s)
unfolding put_pixel
put_pixel-SameBeyond (pos x) (pos y) color s p h = ground arith
put_pixel-SameBeyond (pos x) (negsuc n) color s p h = refl
put_pixel-SameBeyond (negsuc n) y color s p h = refl

fill_rect-SameBeyond :
    (x y w h : ℤ) (color : ℕ) (s : Screen) → SameBeyond s (fill_rect x y w h color s)
unfolding fill_rect fill_row
fill_rect-SameBeyond x y w h color s = loop-SameBeyond _ 0 _ s (λ j t lt.
    loop-SameBeyond _ 0 _ t (λ i u l. put_pixel-SameBeyond (x +ℤ pos i) (y +ℤ pos j) color u))

two_pixels :
    (x y u v : ℤ) (first second : ℕ) (s : Screen)
    → SameBeyond s (put_pixel u v second (put_pixel x y first s))
two_pixels x y u v first second s p h =
    put_pixel-SameBeyond u v second (put_pixel x y first s) p h
    ∙ put_pixel-SameBeyond x y first s p h

frame-SameBeyond :
    (x y w h : ℤ) (first second : ℕ) (s : Screen) → SameBeyond s (frame x y w h first second s)
unfolding frame
frame-SameBeyond x y w h first second s p b =
    loop-SameBeyond _ 0 _ _
      (λ j t l. two_pixels x (y +ℤ pos j) (x +ℤ w -ℤ pos 1) (y +ℤ pos j) first second t) p b
    ∙ loop-SameBeyond _ 0 _ s
        (λ i t l. two_pixels (x +ℤ pos i) y (x +ℤ pos i) (y +ℤ h -ℤ pos 1) first second t) p b

-- The terminal cursor is in the grid.
pub record IsTerm (t : Term) : Type 0 where
  pub column : t.term_x < term_cols
  pub row : t.term_y < term_rows

scroll-SameBeyond : (s : Screen) → SameBeyond s (term_scroll s)
unfolding term_scroll
scroll-SameBeyond s p h =
    loop-SameBeyond _ _ _ _ (λ i t l q c. ground arith) p h
    ∙ loop-SameBeyond _ 0 _ s (λ i t l q c. ground arith) p h

newline_drawn :
    (x : ℕ) (s : Screen) {t : Term}
    → IsTerm t
    → IsTerm (term_newline (record t { term_x = x; screen = s }))
unfolding term_newline
newline_drawn x s {t} v = elim (Bool-cases (leb term_rows (t.term_y + 1))) [
  | inl over ↦ rw over (record { column = omega arith; row = omega arith })
  | inr within ↦ rw within (record { column = omega arith; row = ground arith })
]

newline-SameBeyond : (t : Term) → SameBeyond t.screen (term_newline t).screen
unfolding term_newline
newline-SameBeyond t p h = ground (arith, scroll-SameBeyond t.screen p h)

module _ (font : ℕ → ℕ → ℕ) where
  draw_bits-SameBeyond :
      (x y : ℤ) (bits color : ℕ) (s : Screen) → SameBeyond s (draw_bits font x y bits color s)
  unfolding draw_bits
  draw_bits-SameBeyond x y bits color s =
      loop-SameBeyond 8 0 _ s
        (λ col t l p h. ground (arith, put_pixel-SameBeyond (x +ℤ pos col) y color t p h))

  draw_char-SameBeyond :
      (x y : ℤ) (c color : ℕ) (s : Screen) → SameBeyond s (draw_char font x y c color s)
  unfolding draw_char
  draw_char-SameBeyond x y c color s = elim (Bool-cases (ltb 127 c)) [
    | inl wide ↦ rw wide (λ p h. refl)
    | inr known ↦ rw known (
        loop-SameBeyond 8 0 _ s
          (λ row t l. draw_bits-SameBeyond x (y +ℤ pos row) (font c row) color t))
  ]

  draw_from-SameBeyond :
      (x cx y : ℤ) (cs : List ℕ) (color : ℕ) (s : Screen)
      → SameBeyond s (draw_from font x cx y cs color s)
  unfolding draw_from
  draw_from-SameBeyond x cx y [] color s p h = refl
  draw_from-SameBeyond x cx y (c ∷ cs) color s p h = elim (Bool-cases (c == newline)) [
    | inl line ↦ rw line (draw_from-SameBeyond x x (y +ℤ pos 9) cs color s p h)
    | inr shown ↦ rw shown (
        draw_from-SameBeyond x (cx +ℤ pos 8) y cs color (draw_char font cx y c color s) p h
        ∙ draw_char-SameBeyond cx y c color s p h)
  ]

  -- A window of any size at any place, off the screen too, writes no byte behind the screen.
  draw_window_bounds :
      (x y w h : ℤ) (title : List ℕ) (s : Screen) (i : ℕ)
      → scr_w * scr_h ≤ i
      → draw_window font x y w h title s i ≡ s i
  unfolding draw_window draw_string
  draw_window_bounds x y w h title s i b =
      frame-SameBeyond x y w h 15 8 _ i b
      ∙ draw_from-SameBeyond _ _ _ title 15 _ i b
      ∙ fill_rect-SameBeyond _ _ (w -ℤ pos 2) (pos 14) 1 (fill_rect x y w h 7 s) i b
      ∙ fill_rect-SameBeyond x y w h 7 s i b

  term_put-IsTerm : (color c : ℕ) (t : Term) → IsTerm t → IsTerm (term_put font color c t)
  unfolding term_put
  term_put-IsTerm color c t v = elim (Bool-cases (c == newline)) [
    | inl line ↦ rw line (newline_drawn t.term_x t.screen v)
    | inr other ↦ rw other (elim (Bool-cases (c == 13)) [
      | inl back ↦ rw back (record { column = omega arith; row = v.row })
      | inr shown ↦ rw shown (elim (Bool-cases (leb term_cols (t.term_x + 1))) [
        | inl over ↦ rw over (newline_drawn (t.term_x + 1) _ v)
        | inr within ↦ rw within (record { column = ground arith; row = v.row })
      ])
    ])
  ]

  term_put-SameBeyond :
      (color c : ℕ) (t : Term) → SameBeyond t.screen (term_put font color c t).screen
  unfolding term_put
  term_put-SameBeyond color c t p h = ground (
    arith,
    draw_char-SameBeyond (pos (t.term_x * 8)) (pos (t.term_y * 9)) c color t.screen p h,
    newline-SameBeyond t p h,
    newline-SameBeyond
        (record {
          term_x = t.term_x + 1;
          term_y = t.term_y;
          screen = draw_char font (pos (t.term_x * 8)) (pos (t.term_y * 9)) c color t.screen;
        })
        p h,
  )

  -- From a cursor in the grid of 40 columns and 22 rows, printing leaves the cursor there, and
  -- writes no byte behind the screen.
  pub term_print-IsTerm :
      (cs : List ℕ) (color : ℕ) (t : Term) (i : ℕ)
      → IsTerm t
      → scr_w * scr_h ≤ i
      → IsTerm (term_print font cs color t) × ((term_print font cs color t).screen i ≡ t.screen i)
  unfolding term_print
  term_print-IsTerm [] color t i v b = (v, refl)
  term_print-IsTerm (c ∷ cs) color t i v b =
      let (w, e) =
        term_print-IsTerm cs color (term_put font color c t) i (term_put-IsTerm color c t v) b in
      (w, e ∙ term_put-SameBeyond color c t i b)
