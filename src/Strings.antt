-- ===== src/Strings.antt =====
-- The string functions of src/kernel.c: strcmp, strncmp, trim and is_pipeline. A string is the list
-- of its bytes before the NUL, none of which is 0.
pub mod Compare
use os_itsc.Base.{
  ℕ, zero, suc, Bool, true, false, ◌||◌, List, [], ◌∷◌, ℤ, pos, ◌-ℤ◌, ◌==◌, if◌then◌else◌,
}

-- `*(unsigned char *)s1 - *(unsigned char *)s2`, where the end of a string reads 0.
abbrev pub difference : List ℕ → List ℕ → ℤ
difference [] [] = pos 0
difference [] (d ∷ ds) = pos 0 -ℤ pos d
difference (c ∷ cs) [] = pos c
difference (c ∷ cs) (d ∷ ds) = pos c -ℤ pos d

unfoldable pub strcmp : List ℕ → List ℕ → ℤ
strcmp [] t = difference [] t
strcmp (c ∷ cs) [] = difference (c ∷ cs) []
strcmp (c ∷ cs) (d ∷ ds) =
    let rest = strcmp cs ds in if c == d then rest else difference (c ∷ cs) (d ∷ ds)

-- For a count that is not negative, the last argument in the source.
unfoldable pub strncmp : List ℕ → List ℕ → ℕ → ℤ
strncmp s t zero = pos 0
strncmp [] t (suc n) = difference [] t
strncmp (c ∷ cs) [] (suc n) = difference (c ∷ cs) []
strncmp (c ∷ cs) (d ∷ ds) (suc n) =
    let rest = strncmp cs ds n in if c == d then rest else difference (c ∷ cs) (d ∷ ds)

-- `while (*s == ' ') s++;`
unfoldable pub skip_spaces : List ℕ → List ℕ
skip_spaces [] = []
skip_spaces (c ∷ cs) = let rest = skip_spaces cs in if c == b' ' then rest else c ∷ cs

-- A space with nothing left behind it is cut off.
abbrev pub cut : ℕ → List ℕ → List ℕ
cut c [] = if c == b' ' then [] else c ∷ []
cut c (d ∷ ds) = c ∷ d ∷ ds

-- `while (end > s && *end == ' ') *end-- = '\0';` behind the first byte.
unfoldable pub drop_spaces : List ℕ → List ℕ
drop_spaces [] = []
drop_spaces (c ∷ cs) = cut c (drop_spaces cs)

-- The first byte always stays.
abbrev pub trim_end : List ℕ → List ℕ
trim_end [] = []
trim_end (c ∷ cs) = c ∷ drop_spaces cs

unfoldable pub trim : List ℕ → List ℕ
unfolding skip_spaces drop_spaces
trim s = trim_end (skip_spaces s)

unfoldable pub is_pipeline : List ℕ → Bool
is_pipeline [] = false
is_pipeline (c ∷ cs) = c == b'|' || is_pipeline cs
