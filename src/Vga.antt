-- ===== src/Vga.antt =====
-- src/vga.c: drawing on the 320 by 200 screen of mode 13h, and the terminal on it. The glyphs of
-- src/font8x8.h, a copy of another project's table, are the argument `font`: byte `row` of a
-- character.
pub mod Pixels
pub mod Bounds
pub mod Tests
use os_itsc.Base.{
  ℕ, zero, suc, ◌+◌, ◌-◌, ◌*◌, ◌/◌, Bool, true, false, ◌&&◌, List, [], ◌∷◌, ℤ, pos, negsuc, ◌+ℤ◌,
  ◌-ℤ◌, pos_part, ltb, leb, ◌==◌, if◌then◌else◌, update, for_range, length,
}
use os_itsc.Console.{newline, text}
use os_itsc.Pmm.{test_bit}

abbrev pub scr_w : ℕ
scr_w = 320

abbrev pub scr_h : ℕ
scr_h = 200

-- The bytes from `VGA_GFX` on, of which `scr_w * scr_h` are the screen.
abbrev pub Screen : Type 0
Screen = ℕ → ℕ

unfoldable pub put_pixel : ℤ → ℤ → ℕ → Screen → Screen
put_pixel (pos x) (pos y) color s =
    if ltb x scr_w && ltb y scr_h then update s (y * scr_w + x) color else s
put_pixel (pos _) (negsuc _) color s = s
put_pixel (negsuc _) y color s = s

unfoldable pub clear_screen : ℕ → Screen → Screen
clear_screen color s = for_range (scr_w * scr_h) 0 (λ i t. update t i color) s

-- The inner loop of `fill_rect`.
unfoldable pub fill_row : ℤ → ℤ → ℤ → ℕ → Screen → Screen
unfolding put_pixel
fill_row x y w color s = for_range (pos_part w) 0 (λ i t. put_pixel (x +ℤ pos i) y color t) s

unfoldable pub fill_rect : ℤ → ℤ → ℤ → ℤ → ℕ → Screen → Screen
unfolding fill_row
fill_rect x y w h color s = for_range (pos_part h) 0 (λ j t. fill_row x (y +ℤ pos j) w color t) s

-- The two loops of `draw_rect` and `draw_window` around a box: the first color is that of the upper
-- and the left side, the second that of the other two.
unfoldable pub frame : ℤ → ℤ → ℤ → ℤ → ℕ → ℕ → Screen → Screen
unfolding put_pixel
frame x y w h first second s =
    let sides =
      for_range (pos_part w) 0
        (λ i t. put_pixel (x +ℤ pos i) (y +ℤ h -ℤ pos 1) second (put_pixel (x +ℤ pos i) y first t))
        s in
    for_range (pos_part h) 0
      (λ j t. put_pixel (x +ℤ w -ℤ pos 1) (y +ℤ pos j) second (put_pixel x (y +ℤ pos j) first t))
      sides

unfoldable pub draw_rect : ℤ → ℤ → ℤ → ℤ → ℕ → Screen → Screen
unfolding frame
draw_rect x y w h color s = frame x y w h color color s

-- `str_px_len`, and the start of a line of that length in the middle.
unfoldable pub str_px_len : List ℕ → ℕ
str_px_len s = length s * 8

-- `TERM_COLS`, `TERM_ROWS` and `LINE_H`
abbrev pub term_cols : ℕ
term_cols = scr_w / 8

abbrev pub term_rows : ℕ
term_rows = scr_h / 9

abbrev pub line_h : ℕ
line_h = 9

-- `term_x`, `term_y` and the screen.
pub record Term : Type 0 where
  pub term_x : ℕ
  pub term_y : ℕ
  pub screen : Screen

unfoldable pub term_enter : Term → Term
unfolding clear_screen
term_enter t = record { term_x = 0; term_y = 0; screen = clear_screen 0 t.screen }

-- The lines move up by one, and the last one becomes black.
unfoldable pub term_scroll : Screen → Screen
term_scroll s =
    let kept = scr_w * (scr_h - line_h) in
    let moved = for_range kept 0 (λ i t. update t i (t (i + scr_w * line_h))) s in
    for_range (scr_w * line_h) kept (λ i t. update t i 0) moved

unfoldable pub term_newline : Term → Term
unfolding term_scroll
term_newline t =
    if leb term_rows (t.term_y + 1)
    then record { term_x = 0; term_y = term_rows - 1; screen = term_scroll t.screen }
    else record t { term_x = 0; term_y = t.term_y + 1 }

module _ (font : ℕ → ℕ → ℕ) where
  -- The inner loop of `draw_char`, over the columns of a row of the glyph.
  unfoldable pub draw_bits : ℤ → ℤ → ℕ → ℕ → Screen → Screen
  unfolding put_pixel
  draw_bits x y bits color s =
      for_range 8 0 (λ col t. if test_bit bits col then put_pixel (x +ℤ pos col) y color t else t) s

  unfoldable pub draw_char : ℤ → ℤ → ℕ → ℕ → Screen → Screen
  unfolding draw_bits
  draw_char x y c color s =
      if ltb 127 c
      then s
      else for_range 8 0 (λ row t. draw_bits x (y +ℤ pos row) (font c row) color t) s

  -- The loop of `draw_string` at `cx` and `y`; a line starts at `x`.
  unfoldable pub draw_from : ℤ → ℤ → ℤ → List ℕ → ℕ → Screen → Screen
  unfolding draw_char
  draw_from x cx y [] color s = s
  draw_from x cx y (c ∷ cs) color s =
      if c == newline
      then draw_from x x (y +ℤ pos 9) cs color s
      else draw_from x (cx +ℤ pos 8) y cs color (draw_char cx y c color s)

  unfoldable pub draw_string : ℤ → ℤ → List ℕ → ℕ → Screen → Screen
  unfolding draw_from
  draw_string x y cs color s = draw_from x x y cs color s

  -- `(SCR_W - w) / 2`, where a negative start is put to 0.
  unfoldable pub draw_string_centered : ℤ → List ℕ → ℕ → Screen → Screen
  unfolding draw_string str_px_len
  draw_string_centered cy cs color s = draw_string (pos ((scr_w - str_px_len cs) / 2)) cy cs color s

  unfoldable pub draw_window : ℤ → ℤ → ℤ → ℤ → List ℕ → Screen → Screen
  unfolding fill_rect draw_string frame
  draw_window x y w h title s = frame x y w h 15 8 (
      draw_string (x +ℤ pos 4) (y +ℤ pos 4) title 15
        (fill_rect (x +ℤ pos 1) (y +ℤ pos 1) (w -ℤ pos 2) (pos 14) 1 (fill_rect x y w h 7 s)))

  unfoldable pub draw_desktop : Screen → Screen
  unfolding clear_screen fill_rect draw_rect draw_string draw_window put_pixel
  draw_desktop s =
      let bar =
        for_range 320 0 (λ i t. put_pixel (pos i) (pos 188) 15 t)
          (fill_rect (pos 0) (pos 188) (pos 320) (pos 12) 7 (clear_screen 9 s)) in
      let start = draw_string (pos 5) (pos 191) (text "Start") 0 (
        draw_rect (pos 2) (pos 190) (pos 40) (pos 8) 8
          (fill_rect (pos 2) (pos 190) (pos 40) (pos 8) 7 bar)) in
      draw_string (pos 80) (pos 114) (text "-> Oprea :D") 1 (
        draw_string (pos 80) (pos 104) (text "-> Miodrag :3") 1 (
          draw_string (pos 80) (pos 94) (text "-> Petrut ;)") 1 (
            draw_string (pos 80) (pos 82) (text "Salut de la echipa:") 0
              (draw_window (pos 70) (pos 60) (pos 180) (pos 70) (text "Bun venit!") start))))

  -- The progress bar of the boot screen, without the delays between its steps.
  unfoldable pub draw_boot_screen : Screen → Screen
  unfolding clear_screen draw_window draw_string_centered draw_rect fill_rect
  draw_boot_screen s =
      for_range 5 0 (λ t u. fill_rect (pos 82) (pos 113) (pos (156 * (t + 1) / 5)) (pos 8) 1 u)
        (draw_rect (pos 80) (pos 111) (pos 160) (pos 12) 8 (
          draw_string_centered (pos 95) (text "Geamuri 98 is booting") 0 (
            draw_window (pos 60) (pos 65) (pos 200) (pos 70) (text "Geamuri 98")
              (clear_screen 0 s))))

  -- One character of `term_print`.
  unfoldable pub term_put : ℕ → ℕ → Term → Term
  unfolding draw_char term_newline
  term_put color c t =
      let drawn = draw_char (pos (t.term_x * 8)) (pos (t.term_y * line_h)) c color t.screen in
      let next = record t { term_x = t.term_x + 1; screen = drawn } in
      if c == newline
      then term_newline t
      else if c == 13
      then record t { term_x = 0 }
      else if leb term_cols (t.term_x + 1)
      then term_newline next
      else next

  unfoldable pub term_print : List ℕ → ℕ → Term → Term
  unfolding term_put
  term_print [] color t = t
  term_print (c ∷ cs) color t = term_print cs color (term_put color c t)
