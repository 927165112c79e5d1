-- ===== src/Console/Screen.antt =====
-- The text console of src/kernel.c as the cells at `VGA_ADDRESS` and the cursor: kclear_screen,
-- kclear_line, kprint_newline and kprint.
use os_itsc.Base.{
  ℕ, zero, suc, ◌+◌, ◌*◌, ◌≤◌, ◌<◌, ◌≡◌, refl, ◌∙◌, inl, inr, List, [], ◌∷◌, leb, ltb, ◌==◌,
  if◌then◌else◌, update, for_range, Bool-cases, arith,
}
use os_itsc.Console.{newline}

abbrev pub vga_width : ℕ
vga_width = 80

abbrev pub vga_height : ℕ
vga_height = 25

-- `c | VGA_COLOR` for a byte `c`, as 16 bits. `char` is signed, so a byte from 128 on has the upper
-- bits set before the color is.
abbrev pub cell : ℕ → ℕ
cell c = if ltb c 128 then 0x0f00 + c else 0xff00 + c

-- `vga_col`, `vga_row`, and the cells from `VGA_ADDRESS` on.
pub record TextScreen : Type 0 where
  pub vga_col : ℕ
  pub vga_row : ℕ
  pub cells : ℕ → ℕ

unfoldable pub kclear_screen : TextScreen → TextScreen
kclear_screen t = record {
  vga_col = 0;
  vga_row = 0;
  cells = for_range (vga_width * vga_height) 0 (λ i s. update s i (cell b' ')) t.cells;
}

unfoldable pub kclear_line : TextScreen → TextScreen
kclear_line t = record t {
  cells = for_range vga_width 0 (λ i s. update s (i + t.vga_row * vga_width) (cell b' ')) t.cells;
}

unfoldable pub kprint_newline : TextScreen → TextScreen
unfolding kclear_line
kprint_newline t = kclear_line (record t {
  vga_col = 0;
  vga_row = if leb vga_height (t.vga_row + 1) then 0 else t.vga_row + 1;
})

-- One character of `kprint`.
unfoldable pub kput : ℕ → TextScreen → TextScreen
unfolding kprint_newline
kput c t =
    let next = record t {
      vga_col = t.vga_col + 1;
      cells = update t.cells (t.vga_row * vga_width + t.vga_col) (cell c);
    } in
    if c == newline
    then kprint_newline t
    else if leb vga_width (t.vga_col + 1)
    then kprint_newline next
    else next

unfoldable pub kprint_on : List ℕ → TextScreen → TextScreen
unfolding kput
kprint_on [] t = t
kprint_on (c ∷ cs) t = kprint_on cs (kput c t)

-- The cursor is on the screen.
pub record IsText (t : TextScreen) : Type 0 where
  pub column : t.vga_col < vga_width
  pub row : t.vga_row < vga_height

loop_cells :
    (n i at : ℕ) (v : ℕ) (s : ℕ → ℕ) (p : ℕ)
    → for_range n i (λ k u. update u (k + at) v) s p
      ≡ (if leb (i + at) p then if ltb p (i + at + n) then v else s p else s p)
unfolding for_range
loop_cells zero i at v s p = ground arith
loop_cells (suc n) i at v s p = loop_cells n (i + 1) at v (update s (i + at) v) p ∙ ground arith

newline-IsText :
    (c : ℕ) (s : ℕ → ℕ) (t : TextScreen)
    → IsText t
    → IsText (kprint_newline (record t { vga_col = c; cells = s }))
unfolding kprint_newline kclear_line
newline-IsText c s t v = record { column = omega arith; row = ground (arith, v.row) }

newline_cells :
    (t : TextScreen) (p : ℕ) → vga_width * vga_height ≤ p → (kprint_newline t).cells p ≡ t.cells p
unfolding kprint_newline kclear_line
newline_cells t p h = elim (Bool-cases (leb vga_height (t.vga_row + 1))) [
  | inl over ↦ rw over (loop_cells 80 0 0 _ t.cells p ∙ ground arith)
  | inr within ↦
      rw within (loop_cells 80 0 ((t.vga_row + 1) * vga_width) _ t.cells p ∙ ground arith)
]

-- `kprint_newline` leaves the line of the cursor blank.
kprint_newline_blank :
    (t : TextScreen) (col : ℕ)
    → col < vga_width
    → (kprint_newline t).cells ((kprint_newline t).vga_row * vga_width + col) ≡ cell b' '
unfolding kprint_newline kclear_line
kprint_newline_blank t col h = elim (Bool-cases (leb vga_height (t.vga_row + 1))) [
  | inl over ↦ rw over (loop_cells 80 0 0 _ t.cells _ ∙ ground arith)
  | inr within ↦
      rw within (loop_cells 80 0 ((t.vga_row + 1) * vga_width) _ t.cells _ ∙ ground arith)
]

kput-IsText : (c : ℕ) (t : TextScreen) → IsText t → IsText (kput c t)
unfolding kput
kput-IsText c t v = elim (Bool-cases (c == newline)) [
  | inl line ↦ rw line (newline-IsText t.vga_col t.cells t v)
  | inr shown ↦ rw shown (elim (Bool-cases (leb vga_width (t.vga_col + 1))) [
    | inl over ↦ rw over (newline-IsText (t.vga_col + 1) _ t v)
    | inr within ↦ rw within (record { column = ground arith; row = v.row })
  ])
]

kput_cells :
    (c : ℕ) (t : TextScreen) (p : ℕ)
    → IsText t
    → vga_width * vga_height ≤ p
    → (kput c t).cells p ≡ t.cells p
unfolding kput
kput_cells c t p v h =
    let r = v.row in
    let l = v.column in
    ground (
      arith,
      newline_cells t p h,
      newline_cells
          (record {
            vga_col = t.vga_col + 1;
            vga_row = t.vga_row;
            cells = update t.cells (t.vga_row * vga_width + t.vga_col) (cell c);
          })
          p h,
    )

-- Printing from a cursor on the screen leaves the cursor there, and writes no cell behind the screen.
kprint_on-IsText :
    (cs : List ℕ) (t : TextScreen) (p : ℕ)
    → IsText t
    → vga_width * vga_height ≤ p
    → IsText (kprint_on cs t) × ((kprint_on cs t).cells p ≡ t.cells p)
unfolding kprint_on
kprint_on-IsText [] t p v h = (v, refl)
kprint_on-IsText (c ∷ cs) t p v h =
    let (w, e) = kprint_on-IsText cs (kput c t) p (kput-IsText c t v) h in
    (w, e ∙ kput_cells c t p v h)
