-- ===== src/Console.antt =====
-- The serial console of src/uart.c and the text console of src/kernel.c as the bytes that they are
-- given, in order. The port of the serial line and the busy loop on it are hardware.
pub mod Screen
pub mod Readline
pub mod Tests
use Prim.Native.Char.{code}
use Prim.Native.String.{String}
use os_itsc.Base.{
  ℕ, zero, suc, ◌+◌, ◌/◌, ◌%◌, ◌^◌, List, [], ◌∷◌, ◌++◌, ℤ, pos, negsuc, ltb, ◌-◌, ◌==◌,
  if◌then◌else◌,
}

-- The bytes of a string literal.
abbrev pub text : String → List ℕ
text String.[] = []
text (String.◌∷◌ c s) = code c ∷ text s

abbrev pub newline : ℕ
newline = 10

-- What `uart_print` sends: a carriage return before each line feed.
unfoldable pub uart_bytes : List ℕ → List ℕ
uart_bytes [] = []
uart_bytes (c ∷ cs) = (if c == newline then 13 ∷ c ∷ [] else c ∷ []) ++ uart_bytes cs

-- The loop `while (num > 0) { buffer[i++] = (num % 10) + '0'; num /= 10; }`, on fuel; what is printed
-- is the buffer from its end.
unfoldable pub digits_onto : ℕ → ℕ → List ℕ → List ℕ
digits_onto zero num out = out
digits_onto (suc fuel) num out =
    let rest = digits_onto fuel (num / 10) ((num % 10 + b'0') ∷ out) in
    if num == 0 then out else rest

-- `uart_print_int`: a negative number prints nothing.
unfoldable pub uart_int : ℤ → List ℕ
unfolding digits_onto
uart_int (negsuc n) = []
uart_int (pos n) = if n == 0 then b'0' ∷ [] else digits_onto (n + 1) n []

-- `kprint_int`
unfoldable pub kprint_int : ℤ → List ℕ
unfolding digits_onto
kprint_int (negsuc n) = b'-' ∷ digits_onto (n + 2) (n + 1) []
kprint_int (pos n) = if n == 0 then b'0' ∷ [] else digits_onto (n + 1) n []

unfoldable pub hex_char : ℕ → ℕ
hex_char d = if ltb d 10 then b'0' + d else b'A' + (d - 10)

-- The loop of `uart_print_hex` and `kprint_hex`: `i` falls by four from 28.
unfoldable pub hex_from : ℕ → ℕ → List ℕ
hex_from zero n = []
hex_from (suc k) n = hex_char (n / 16 ^ k % 16) ∷ hex_from k n

unfoldable pub print_hex : ℕ → List ℕ
unfolding hex_from hex_char
print_hex n = text "0x" ++ hex_from 8 n
