-- ===== src/Vga/Tests.antt =====
-- Drawing at concrete places.
use os_itsc.Base.{ℕ, ◌+◌, ◌*◌, ◌≡◌, pos, negsuc, arith}
use os_itsc.Console.{text}
use os_itsc.Vga.{Screen, fill_rect, Term, term_print}
use os_itsc.Vga.Pixels.{fill_rect_lem}
use os_itsc.Vga.Bounds.{IsTerm, term_print-IsTerm}

-- A font of solid blocks, and a screen that is black.
abbrev blocks : ℕ → ℕ → ℕ
blocks c row = 255

abbrev black : Screen
black i = 0

-- The cursor at the end of the last line.
abbrev last_cell : Term
last_cell = record { term_x = 39; term_y = 21; screen = black }

term_print-IsTerm_example :
    IsTerm (term_print blocks (text "ab") 15 last_cell)
    × ((term_print blocks (text "ab") 15 last_cell).screen 64_100 ≡ black 64_100)
term_print-IsTerm_example =
    term_print-IsTerm blocks (text "ab") 15 last_cell 64_100
      (record { column = omega arith; row = omega arith }) (omega arith)

fill_rect_example : fill_rect (negsuc 4) (pos 10) (pos 10) (pos 3) 7 black (11 * 320 + 4) ≡ 7
fill_rect_example =
    fill_rect_lem 4 11 (omega arith) (omega arith) (negsuc 4) (pos 10) (pos 10) (pos 3) 7 black
