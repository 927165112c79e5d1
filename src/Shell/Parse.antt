-- ===== src/Shell/Parse.antt =====
-- The arguments of commands in shell_loop of src/kernel.c.
use os_itsc.Base.{
  ℕ, zero, suc, ◌+◌, ◌-◌, ◌*◌, ◌/◌, ◌%◌, ◌≤◌, ◌<◌, ◌≡◌, refl, ap, ◌∙◌, inl, inr, Bool, true, false,
  not, ◌&&◌, ◌||◌, List, [], ◌∷◌, ◌++◌, pos, ◌-ℤ◌, length, ◌==◌, Bool-cases, arith,
}
use os_itsc.Console.{text, digits_onto, uart_int}
use os_itsc.Proc.Pipeline.{is_equal}
use os_itsc.Shell.{
  wait, write, bad_syntax, is_prefix, is_digit, digits_from, parse_wait, name_part, line_part,
  write_behind, parse_write, parse_later, parse_command,
}
use os_itsc.Strings.{strcmp, strncmp, is_pipeline}

-- The digits of a number are read as that number.
digits_from-digits_onto :
    (fuel n : ℕ) (out : List ℕ)
    → n < fuel
    → digits_from (digits_onto fuel n out) 0 ≡ digits_from out n
unfolding digits_onto digits_from
digits_from-digits_onto zero n out h = absurd (omega arith)
digits_from-digits_onto (suc fuel) n out h = elim (Bool-cases (n == 0)) [
  | inl z ↦ rw z (ap (digits_from out) (ground arith))
  | inr nz ↦
      let is_one : is_digit (n % 10 + b'0') ≡ true = ground arith in
      let sum : n / 10 * 10 + (n % 10 + b'0' - b'0') ≡ n = omega arith in
      rw nz (
        digits_from-digits_onto fuel (n / 10) ((n % 10 + b'0') ∷ out) (ground arith)
        ∙ rw (is_one, sum) refl)
]

digits_from-uart_int : (n : ℕ) → digits_from (uart_int (pos n)) 0 ≡ n
unfolding uart_int digits_from
digits_from-uart_int n = elim (Bool-cases (n == 0)) [
  | inl z ↦ rw z (ground arith)
  | inr nz ↦ rw nz (digits_from-digits_onto (n + 1) n [] (omega arith))
]

no_bar : (fuel n : ℕ) (out : List ℕ) → is_pipeline (digits_onto fuel n out) ≡ is_pipeline out
unfolding digits_onto is_pipeline
no_bar zero n out = refl
no_bar (suc fuel) n out = elim (Bool-cases (n == 0)) [
  | inl z ↦ rw z refl
  | inr nz ↦
      let plain : (n % 10 + b'0' == b'|') ≡ false = ground arith in
      rw nz (no_bar fuel (n / 10) ((n % 10 + b'0') ∷ out) ∙ rw plain refl)
]

no_bar_in_int : (n : ℕ) → is_pipeline (uart_int (pos n)) ≡ false
unfolding uart_int is_pipeline
no_bar_in_int n = elim (Bool-cases (n == 0)) [
  | inl z ↦ rw z refl
  | inr nz ↦ rw nz (no_bar (n + 1) n [])
]

digit_minus : (p : ℕ) → pos (p + b'0') -ℤ pos b'0' ≡ pos p
digit_minus p = ground arith

-- The line `wait`, with the number of a process of one digit and the number of ticks as
-- `uart_print_int` prints it, is read as that command.
parse_command-wait :
    (p t : ℕ)
    → p < 10
    → parse_command (text "wait " ++ (p + b'0') ∷ b' ' ∷ uart_int (pos t)) ≡ wait (pos p) t
unfolding parse_command is_pipeline is_equal is_prefix strcmp strncmp parse_wait
parse_command-wait p t h =
    let plain : (p + b'0' == b'|') ≡ false = ground arith in
    rw (plain, no_bar_in_int t, digits_from-uart_int t) (ap (λ z. wait z t) (digit_minus p))

abbrev pub no_space : List ℕ → Bool
no_space [] = true
no_space (c ∷ cs) = not (c == b' ') && no_space cs

-- One line of text.
abbrev pub one_line : List ℕ → Bool
one_line [] = true
one_line (c ∷ cs) = not (c == 13 || c == 10) && one_line cs

line_part_all : (cs : List ℕ) → one_line cs ≡ true → line_part cs ≡ cs
unfolding line_part
line_part_all [] h = refl
line_part_all (c ∷ cs) h =
    let plain : (c == 13 || c == 10) ≡ false = ground arith in
    rw plain (ap (λ z. c ∷ z) (line_part_all cs (ground arith)))

name_part_fits :
    (n : ℕ) (name rest : List ℕ)
    → no_space name ≡ true
    → length name ≤ n
    → name_part n (name ++ b' ' ∷ rest) ≡ (name, b' ' ∷ rest)
unfolding name_part
name_part_fits zero [] rest h l = refl
name_part_fits (suc n) [] rest h l = refl
name_part_fits zero (c ∷ name) rest h l = absurd (omega arith)
name_part_fits (suc n) (c ∷ name) rest h l =
    let plain : (c == b' ') ≡ false = ground arith in
    rw (plain, name_part_fits n name rest (ground arith) (omega arith)) refl

-- The line `write`, with a name of at most 31 bytes without a space and a content of at least one
-- byte without a line end, and no bar in either, is read as that command.
parse_command-write :
    (name content : List ℕ)
    → no_space name ≡ true
    → length name ≤ 31
    → 0 < length content
    → one_line content ≡ true
    → is_pipeline (name ++ b' ' ∷ content) ≡ false
    → parse_command (text "write " ++ (name ++ b' ' ∷ content)) ≡ write name content
unfolding parse_command is_pipeline is_equal is_prefix strcmp strncmp parse_later parse_write
parse_command-write name [] h l z o b = absurd (omega arith)
parse_command-write name (c ∷ cs) h l z o b =
    rw (b, name_part_fits 31 name (c ∷ cs) h l, line_part_all (c ∷ cs) o) refl

-- No space comes next.
abbrev plain_next : List ℕ → Bool
plain_next [] = true
plain_next (c ∷ cs) = not (c == b' ')

name_part_long :
    (n : ℕ) (name rest : List ℕ)
    → no_space name ≡ true
    → n < length name
    → plain_next (name_part n (name ++ rest)).1 ≡ true
unfolding name_part
name_part_long n [] rest h l = absurd (omega arith)
name_part_long zero (c ∷ name) rest h l = ground arith
name_part_long (suc n) (c ∷ name) rest h l =
    let plain : (c == b' ') ≡ false = ground arith in
    rw plain (name_part_long n name rest (ground arith) (omega arith))

refused : (name rest : List ℕ) → plain_next rest ≡ true → write_behind name rest ≡ bad_syntax
refused name [] h = refl
refused name (c ∷ cs) h = let plain : (c == b' ') ≡ false = ground arith in rw plain refl

-- The line `write`, with a name of 32 bytes or more without a space, and no bar in the line, is
-- refused, whatever follows.
parse_command-write_long :
    (name rest : List ℕ)
    → no_space name ≡ true
    → 31 < length name
    → is_pipeline (name ++ rest) ≡ false
    → parse_command (text "write " ++ (name ++ rest)) ≡ bad_syntax
unfolding parse_command is_pipeline is_equal is_prefix strcmp strncmp parse_later parse_write
parse_command-write_long name rest h l b = rw b (
    refused (name_part 31 (name ++ rest)).0 (name_part 31 (name ++ rest)).1
      (name_part_long 31 name rest h l))
