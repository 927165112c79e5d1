-- ===== src/Strings/Compare.antt =====
-- The comparisons and the trimming of src/kernel.c.
use os_itsc.Base.{
  ℕ, zero, suc, ◌+◌, ◌≡◌, ◌≢◌, ◌↔◌, ◌-ℤ◌, refl, sym, ap, ap₂, ◌∙◌, inl, inr, Bool, true, false, not,
  ◌&&◌, List, [], ◌∷◌, ◌++◌, ℤ, pos, pos_part, neg_part, length, ◌==◌, if◌then◌else◌, Bool-cases,
  arith,
}
use os_itsc.Strings.{difference, strcmp, strncmp, skip_spaces, cut, drop_spaces, trim_end, trim}

-- No byte is 0.
abbrev pub is_string : List ℕ → Bool
is_string [] = true
is_string (c ∷ cs) = not (c == 0) && is_string cs

size_of : {a b : ℤ} → a ≡ b → pos_part a + neg_part a ≡ pos_part b + neg_part b
size_of e = ap (λ (z : ℤ). pos_part z + neg_part z) e

pub strcmp_same : (s : List ℕ) → strcmp s s ≡ pos 0
unfolding strcmp
strcmp_same [] = refl
strcmp_same (c ∷ cs) = ground (arith, strcmp_same cs)

different : (c d : ℕ) → (c == d) ≡ false → pos c -ℤ pos d ≢ pos 0
different c d h e = absurd (ground (arith, size_of e))

strcmp_zero_left :
    (s t : List ℕ) → is_string s ≡ true → is_string t ≡ true → strcmp s t ≡ pos 0 → s ≡ t
unfolding strcmp
strcmp_zero_left [] [] p q e = refl
strcmp_zero_left [] (d ∷ ds) p q e = absurd (ground (arith, size_of e))
strcmp_zero_left (c ∷ cs) [] p q e = absurd (ground (arith, size_of e))
strcmp_zero_left (c ∷ cs) (d ∷ ds) p q e = elim (Bool-cases (c == d)) [
  | inl same ↦ ap₂ ◌∷◌ (ground arith) (
      strcmp_zero_left cs ds (ground arith) (ground arith)
        (sym (ap (λ b. if b then strcmp cs ds else difference (c ∷ cs) (d ∷ ds)) same) ∙ e))
  | inr other ↦ absurd (
      different c d other
        (sym (ap (λ b. if b then strcmp cs ds else difference (c ∷ cs) (d ∷ ds)) other) ∙ e))
]

strncmp_append : (t rest : List ℕ) → strncmp (t ++ rest) t (length t) ≡ pos 0
unfolding strncmp
strncmp_append [] rest = refl
strncmp_append (d ∷ ds) rest = ground (arith, strncmp_append ds rest)

-- What stands behind a first byte that is the same.
behind :
    {c d : ℕ} {cs : List ℕ} (ds : List ℕ)
    → (c == d) ≡ true
    → (rest : List ℕ) × (cs ≡ ds ++ rest)
    → (rest : List ℕ) × (c ∷ cs ≡ (d ∷ ds) ++ rest)
behind ds same (rest, e) = (rest, ap₂ ◌∷◌ (ground arith) e)

strncmp_zero :
    (s t : List ℕ)
    → is_string s ≡ true
    → is_string t ≡ true
    → strncmp s t (length t) ≡ pos 0
    → (rest : List ℕ) × (s ≡ t ++ rest)
unfolding strncmp
strncmp_zero s [] p q e = (s, refl)
strncmp_zero [] (d ∷ ds) p q e = absurd (ground (arith, size_of e))
strncmp_zero (c ∷ cs) (d ∷ ds) p q e =
    let test = λ (b : Bool). if b then strncmp cs ds (length ds) else pos c -ℤ pos d in
    elim (Bool-cases (c == d)) [
      | inl same ↦
          behind ds same (strncmp_zero cs ds (ground arith) (ground arith) (sym (ap test same) ∙ e))
      | inr other ↦ absurd (different c d other (sym (ap test other) ∙ e))
    ]

-- The comparison of as many bytes as a string has gives 0 exactly if the other string begins with
-- that one.
strncmp_lem :
    (s t : List ℕ)
    → is_string s ≡ true
    → is_string t ≡ true
    → (strncmp s t (length t) ≡ pos 0) ↔ ((rest : List ℕ) × (s ≡ t ++ rest))
strncmp_lem s t p q = (strncmp_zero s t p q, λ (rest, e). rw e (strncmp_append t rest))

-- No space at either end.
abbrev starts_well : List ℕ → Bool
starts_well [] = true
starts_well (c ∷ cs) = not (c == b' ')

abbrev ends_well : List ℕ → Bool
ends_well [] = true
ends_well (c ∷ []) = not (c == b' ')
ends_well (c ∷ d ∷ ds) = ends_well (d ∷ ds)

skip_starts : (s : List ℕ) → starts_well (skip_spaces s) ≡ true
unfolding skip_spaces
skip_starts [] = refl
skip_starts (c ∷ cs) = ground (arith, skip_starts cs)

cut_ends : (c : ℕ) (s : List ℕ) → ends_well s ≡ true → ends_well (cut c s) ≡ true
cut_ends c [] h = ground arith
cut_ends c (d ∷ ds) h = h

drop_ends : (s : List ℕ) → ends_well (drop_spaces s) ≡ true
unfolding drop_spaces
drop_ends [] = refl
drop_ends (c ∷ cs) = cut_ends c (drop_spaces cs) (drop_ends cs)

cons_ends :
    (c : ℕ) (s : List ℕ) → (c == b' ') ≡ false → ends_well s ≡ true → ends_well (c ∷ s) ≡ true
cons_ends c [] h e = ground arith
cons_ends c (d ∷ ds) h e = e

trimmed :
    (s : List ℕ)
    → starts_well s ≡ true
    → (starts_well (trim_end s) ≡ true) × (ends_well (trim_end s) ≡ true)
trimmed [] h = (refl, refl)
trimmed (c ∷ cs) h = (h, cons_ends c (drop_spaces cs) (ground arith) (drop_ends cs))

-- `n` spaces.
unfoldable pub spaces : ℕ → List ℕ
spaces zero = []
spaces (suc n) = b' ' ∷ spaces n

skip_from : (s : List ℕ) → (n : ℕ) × (s ≡ spaces n ++ skip_spaces s)
unfolding skip_spaces spaces
skip_from [] = (0, refl)
skip_from (c ∷ cs) = elim (Bool-cases (c == b' ')) [
  | inl space ↦ let (n, e) = skip_from cs in rw space (suc n, ap₂ ◌∷◌ (ground arith) e)
  | inr other ↦ rw other (0, refl)
]

cut_from : (c m : ℕ) (r cs : List ℕ) → cs ≡ r ++ spaces m → (n : ℕ) × (c ∷ cs ≡ cut c r ++ spaces n)
unfolding spaces
cut_from c m [] cs e = elim (Bool-cases (c == b' ')) [
  | inl space ↦ rw space (suc m, ap₂ ◌∷◌ (ground arith) e)
  | inr other ↦ rw other (m, ap (λ l. c ∷ l) e)
]
cut_from c m (d ∷ ds) cs e = (m, ap (λ l. c ∷ l) e)

drop_from : (s : List ℕ) → (n : ℕ) × (s ≡ drop_spaces s ++ spaces n)
unfolding drop_spaces spaces
drop_from [] = (0, refl)
drop_from (c ∷ cs) = let (m, e) = drop_from cs in cut_from c m (drop_spaces cs) cs e

end_from : (s : List ℕ) → (n : ℕ) × (s ≡ trim_end s ++ spaces n)
unfolding spaces
end_from [] = (0, refl)
end_from (c ∷ cs) = let (n, e) = drop_from cs in (n, ap (λ l. c ∷ l) e)

-- A trimmed string has no space at either end, and the string is that one between spaces.
trim_lem :
    (s : List ℕ)
    → (starts_well (trim s) ≡ true)
      × (ends_well (trim s) ≡ true)
      × ((n : ℕ) × (m : ℕ) × (s ≡ spaces n ++ (trim s ++ spaces m)))
unfolding trim
trim_lem s =
    let (a, b) = trimmed (skip_spaces s) (skip_starts s) in
    let (n, e) = skip_from s in
    let (m, f) = end_from (skip_spaces s) in (a, b, (n, m, e ∙ ap (λ l. spaces n ++ l) f))

-- Two strings compare as equal exactly if they are.
strcmp_lem :
    (s t : List ℕ) → is_string s ≡ true → is_string t ≡ true → (strcmp s t ≡ pos 0) ↔ (s ≡ t)
strcmp_lem s t p q = (strcmp_zero_left s t p q, λ e. rw e (strcmp_same t))
