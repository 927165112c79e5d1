-- ===== src/Console/Readline.antt =====
-- uart_readline of src/uart.c over the bytes that come in on the serial line.
use mathlib.Core.Bool.{false≢true}
use os_itsc.Base.{
  ℕ, ◌+◌, ◌≤◌, ◌<◌, ◌≡◌, refl, ap, ◌∙◌, inl, inr, Bool, true, false, not, ◌&&◌, ◌||◌, Option, none,
  some, List, [], ◌∷◌, ◌++◌, append_assoc, length, ltb, lt→ltb, ◌==◌, if◌then◌else◌, Bool-cases,
  arith,
}

-- The bytes before the cursor, the last one first, behind which the line is put in order.
unfoldable pub rev_onto : List ℕ → List ℕ → List ℕ
rev_onto [] out = out
rev_onto (c ∷ cs) out = rev_onto cs (c ∷ out)

-- The line in `buffer`, what was sent back, and what is not read yet.
pub record Line : Type 0 where
  pub line : List ℕ
  pub echo : List ℕ
  pub rest : List ℕ

abbrev pub is_line_end : ℕ → Bool
is_line_end c = c == 13 || c == 10

abbrev pub is_erase : ℕ → Bool
is_erase c = c == 127 || c == 8

abbrev drop_last : List ℕ → List ℕ
drop_last [] = []
drop_last (c ∷ cs) = cs

-- What is sent back for an erased character, if there is one.
abbrev erased : List ℕ → List ℕ
erased [] = []
erased (c ∷ cs) = 8 ∷ b' ' ∷ 8 ∷ []

-- The loop, for the bytes that come in, `typed` the bytes in the buffer with the last one first, and
-- `out` the bytes sent back. `none` is the wait for a byte that does not come.
unfoldable pub readline_from : List ℕ → ℕ → List ℕ → List ℕ → Option Line
unfolding rev_onto
readline_from [] max_len typed out =
    if ltb (length typed + 1) max_len
    then none
    else some (record { line = rev_onto typed []; echo = out; rest = [] })
readline_from (c ∷ cs) max_len typed out =
    let shorter = readline_from cs max_len (drop_last typed) (out ++ erased typed) in
    let longer = readline_from cs max_len (c ∷ typed) (out ++ c ∷ []) in
    if ltb (length typed + 1) max_len
    then (if is_line_end c
        then some (record { line = rev_onto typed []; echo = out ++ 13 ∷ 10 ∷ []; rest = cs })
        else if is_erase c
        then shorter
        else longer)
    else some (record { line = rev_onto typed []; echo = out; rest = c ∷ cs })

unfoldable pub uart_readline : List ℕ → ℕ → Option Line
unfolding readline_from
uart_readline input max_len = readline_from input max_len [] []

-- A line that is read, with its NUL, fits.
pub data Fits (max_len : ℕ) : Option Line → Type 0 where
  fits : {l : Line} → length l.line < max_len → Fits max_len (some l)

length-rev_onto : (cs out : List ℕ) → length (rev_onto cs out) ≡ length cs + length out
unfolding rev_onto
length-rev_onto [] out = omega arith
length-rev_onto (c ∷ cs) out = length-rev_onto cs (c ∷ out) ∙ omega arith

abbrev pub any_end : List ℕ → Bool
any_end [] = false
any_end (c ∷ cs) = is_line_end c || any_end cs

drop_le : (typed : List ℕ) → length (drop_last typed) ≤ length typed
drop_le [] = omega arith
drop_le (c ∷ cs) = omega arith

readline_from-Fits :
    (input : List ℕ) (max_len : ℕ) (typed out : List ℕ)
    → any_end input ≡ true
    → length typed < max_len
    → Fits max_len (readline_from input max_len typed out)
unfolding readline_from
readline_from-Fits [] max_len typed out e h = absurd (false≢true e)
readline_from-Fits (c ∷ cs) max_len typed out e h =
    let short : length (rev_onto typed []) < max_len = omega (arith, length-rev_onto typed []) in
    elim (Bool-cases (ltb (length typed + 1) max_len)) [
      | inr full ↦ rw full (fits short)
      | inl room ↦ rw room (elim (Bool-cases (is_line_end c)) [
        | inl ends ↦ rw ends (fits short)
        | inr on ↦
            let later : any_end cs ≡ true = ground arith in
            rw on (elim (Bool-cases (is_erase c)) [
              | inl erase ↦ rw erase (
                  readline_from-Fits cs max_len (drop_last typed) _ later
                    (omega (arith, drop_le typed)))
              | inr plain ↦
                  rw plain (readline_from-Fits cs max_len (c ∷ typed) _ later (ground arith))
            ])
      ])
    ]

-- With a carriage return or a line feed among the bytes that come in, and a buffer of at least one
-- byte, the line ends, and is shorter than the buffer.
pub uart_readline-Fits :
    (input : List ℕ) (max_len : ℕ)
    → any_end input ≡ true
    → 0 < max_len
    → Fits max_len (uart_readline input max_len)
unfolding uart_readline
uart_readline-Fits input max_len e h = readline_from-Fits input max_len [] [] e h

-- No byte ends the line or erases.
abbrev pub is_plain : List ℕ → Bool
is_plain [] = true
is_plain (c ∷ cs) = not (is_line_end c) && not (is_erase c) && is_plain cs

readline_from_plain :
    (cs rest : List ℕ) (max_len : ℕ) (typed out : List ℕ)
    → is_plain cs ≡ true
    → length cs + length typed + 1 < max_len
    → readline_from (cs ++ 13 ∷ rest) max_len typed out
      ≡ some (record { line = rev_onto typed cs; echo = out ++ (cs ++ 13 ∷ 10 ∷ []); rest = rest })
unfolding readline_from rev_onto
readline_from_plain [] rest max_len typed out p h =
    rw (lt→ltb (length typed + 1) max_len (omega arith)) refl
readline_from_plain (c ∷ cs) rest max_len typed out p h =
    let no_end : is_line_end c ≡ false = ground arith in
    let no_erase : is_erase c ≡ false = ground arith in
    let later : is_plain cs ≡ true = ground arith in
    rw (lt→ltb (length typed + 1) max_len (omega arith), no_end, no_erase)
      (readline_from_plain cs rest max_len (c ∷ typed) (out ++ c ∷ []) later (omega arith)
        ∙ ap (λ e. some (record { line = rev_onto typed (c ∷ cs); echo = e; rest = rest }))
            (append_assoc out (c ∷ []) (cs ++ 13 ∷ 10 ∷ [])))

-- A line of characters that neither end a line nor erase, shorter than the buffer by two or more,
-- is read as it was typed once a carriage return comes in, and sent back with the end of the line;
-- the bytes behind it stay.
uart_readline_plain :
    (cs rest : List ℕ) (max_len : ℕ)
    → is_plain cs ≡ true
    → length cs + 1 < max_len
    → uart_readline (cs ++ 13 ∷ rest) max_len
      ≡ some (record { line = cs; echo = cs ++ 13 ∷ 10 ∷ []; rest = rest })
unfolding uart_readline rev_onto
uart_readline_plain cs rest max_len p h = readline_from_plain cs rest max_len [] [] p (omega arith)
