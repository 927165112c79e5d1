-- ===== src/Console/Tests.antt =====
-- The serial line at concrete states.
use os_itsc.Base.{refl, [], ◌∷◌, arith}
use os_itsc.Console.Readline.{Fits, uart_readline, uart_readline-Fits}

-- A character, an erasure of it, and two lines.
uart_readline-Fits_example : Fits 4 (uart_readline (97 ∷ 127 ∷ 98 ∷ 13 ∷ 99 ∷ 10 ∷ []) 4)
uart_readline-Fits_example =
    uart_readline-Fits (97 ∷ 127 ∷ 98 ∷ 13 ∷ 99 ∷ 10 ∷ []) 4 refl (omega arith)
