-- ===== src/Vmm/Walk.antt =====
-- The processor's walk of a page directory of src/vmm.c.
use mathlib.Core.Bool.{false≢true}
use os_itsc.Base.{
  ℕ, zero, suc, ◌+◌, ◌/◌, ◌%◌, ◌^◌, ◌<◌, ◌≡◌, refl, sym, ap, ◌∙◌, inl, inr, Bool, true, false, ◌&&◌,
  Option, none, some, ◌==◌, if◌then◌else◌, Bool-cases, arith,
}
use os_itsc.Pmm.{page_size, frame_used}
use os_itsc.Pmm.Frames.{IsPmm}
use os_itsc.Vmm.{Vmm, or_low, entry, is_present, table_of, pd_idx, pt_idx, store}

-- The physical address for `v`, or `none` for a page fault.
abbrev pub walked : ℕ → ℕ → ℕ → Option ℕ
walked e f v = if is_present e && is_present f then some (table_of f + v % page_size) else none

unfoldable pub translate : ℕ → ℕ → Vmm → Option ℕ
translate pd v s = let e = s.page pd (pd_idx v) in walked e (s.page (table_of e) (pt_idx v)) v

-- The directory and the tables that it names are frames in use, and all of them are different.
pub record IsSpace (pd : ℕ) (s : Vmm) : Type 0 where
  pub frames_ok : IsPmm s.frames
  pub aligned : pd % page_size ≡ 0
  pub directory : frame_used s.frames.bitmap (pd / page_size) ≡ true
  pub directory_real : pd / page_size < s.frames.total_frames
  pub tables :
      (i : ℕ)
      → i < 1024
      → is_present (s.page pd i) ≡ true
      → frame_used s.frames.bitmap (s.page pd i / page_size) ≡ true
  pub real :
      (i : ℕ)
      → i < 1024
      → is_present (s.page pd i) ≡ true
      → (0 < s.page pd i / page_size) × (s.page pd i / page_size < s.frames.total_frames)
  pub apart :
      (i : ℕ)
      → i < 1024
      → is_present (s.page pd i) ≡ true
      → (s.page pd i / page_size == pd / page_size) ≡ false
  pub distinct :
      (i j : ℕ)
      → i < 1024
      → j < 1024
      → is_present (s.page pd i) ≡ true
      → is_present (s.page pd j) ≡ true
      → (i == j) ≡ false
      → (s.page pd i / page_size == s.page pd j / page_size) ≡ false

halve : ℕ → ℕ → ℕ
halve zero a = a
halve (suc n) a = halve n (a / 2)

halve-or_low : (n a b : ℕ) → halve n (or_low n a b) ≡ halve n a
unfolding halve or_low
halve-or_low zero a b = refl
halve-or_low (suc n) a b = ap (halve n) (omega arith) ∙ halve-or_low n (a / 2) (b / 2)

halve_page : (a : ℕ) → halve 12 a ≡ a / page_size
unfolding halve
halve_page a = omega arith

pub page-or_low : (a b : ℕ) → or_low 12 a b / page_size ≡ a / page_size
page-or_low a b = sym (halve_page (or_low 12 a b)) ∙ halve-or_low 12 a b ∙ halve_page a

pub entry_lem : (a b : ℕ) → (entry a b % 2 ≡ 1) × (entry a b / page_size ≡ a / page_size)
unfolding entry
entry_lem a b = (omega arith, omega (arith, page-or_low a b))

pub same_index : (i j : ℕ) → (i == j) ≡ true → i ≡ j
same_index i j h = ground arith

-- Two addresses of 32 bits are in one page if the indices agree.
same_page :
    (a b : ℕ)
    → a < 2 ^ 32
    → b < 2 ^ 32
    → (pd_idx a == pd_idx b && pt_idx a == pt_idx b) ≡ (a / page_size == b / page_size)
same_page a b ha hb = ground arith

pub pd_idx_lt : (a : ℕ) → a < 2 ^ 32 → pd_idx a < 1024
pd_idx_lt a h = omega arith

pick_walked :
    (b : Bool) (e x f a : ℕ)
    → is_present e ≡ true
    → walked e (if b then x else f) a ≡ (
        if b
        then (if is_present x then some (table_of x + a % page_size) else none)
        else walked e f a)
pick_walked true e x f a h = rw h refl
pick_walked false e x f a h = refl

module _ {pd : ℕ} {s : Vmm} (v : IsSpace pd s) where
  pub apart_table :
      (i : ℕ) → i < 1024 → is_present (s.page pd i) ≡ true → (pd == table_of (s.page pd i)) ≡ false
  apart_table i lt p = ground (arith, v.apart i lt p, v.aligned)

  other_table :
      (i j : ℕ)
      → i < 1024
      → j < 1024
      → is_present (s.page pd i) ≡ true
      → is_present (s.page pd j) ≡ true
      → (table_of (s.page pd i) == table_of (s.page pd j)) ≡ (i == j)
  other_table i j hi hj p q = elim (Bool-cases (i == j)) [
    | inl same ↦ rw same (ground arith)
    | inr other ↦ rw other (ground (arith, v.distinct i j hi hj p q other))
  ]

  differ :
      (a b : ℕ)
      → is_present (s.page pd (pd_idx a)) ≡ false
      → is_present (s.page pd (pd_idx b)) ≡ true
      → (a / page_size == b / page_size) ≡ false
  differ a b g p = elim (Bool-cases (a / page_size == b / page_size)) [
    | inr other ↦ other
    | inl same ↦
        let e : pd_idx a ≡ pd_idx b = ground arith in
        absurd (false≢true (sym g ∙ ap (λ i. is_present (s.page pd i)) e ∙ p))
  ]

  module _ (i k x : ℕ) (hi : i < 1024) (p : is_present (s.page pd i) ≡ true) where
    -- What is read back when a word is stored in the table of entry `i`.
    pub directory-store : (j : ℕ) → (store (table_of (s.page pd i)) k x s).page pd j ≡ s.page pd j
    directory-store j = rw (apart_table i hi p)

    table-store :
        (j l : ℕ)
        → j < 1024
        → is_present (s.page pd j) ≡ true
        → (store (table_of (s.page pd i)) k x s).page (table_of (s.page pd j)) l
          ≡ (if j == i && l == k then x else s.page (table_of (s.page pd j)) l)
    table-store j l hj q = elim (Bool-cases (j == i)) [
      | inl same ↦
          rw (other_table j i hj hi q p, same)
            (ap (λ m. if l == k then x else s.page (table_of (s.page pd m)) l)
              (sym (same_index j i same)))
      | inr other ↦ rw (other_table j i hj hi q p, other)
    ]

  -- A word is stored in the table for `virt`.
  pub translate-store :
      (virt x a : ℕ)
      → virt < 2 ^ 32
      → a < 2 ^ 32
      → is_present (s.page pd (pd_idx virt)) ≡ true
      → translate pd a (store (table_of (s.page pd (pd_idx virt))) (pt_idx virt) x s) ≡ (
          if a / page_size == virt / page_size
          then (if is_present x then some (table_of x + a % page_size) else none)
          else translate pd a s)
  unfolding translate
  translate-store virt x a hv ha p =
      let i = pd_idx virt in
      let ia = pd_idx a in
      let t = store (table_of (s.page pd i)) (pt_idx virt) x s in
      let e = s.page pd ia in
      let hi = pd_idx_lt virt hv in
      let hia = pd_idx_lt a ha in
      ap (λ z. walked z (t.page (table_of z) (pt_idx a)) a)
        (directory-store i (pt_idx virt) x hi p ia)
      ∙ (elim (Bool-cases (is_present e)) [
        | inl there ↦
            ap (λ z. walked e z a) (table-store i (pt_idx virt) x hi p ia (pt_idx a) hia there)
            ∙ pick_walked (ia == i && pt_idx a == pt_idx virt) e x _ a there
            ∙ ap
                (λ b.
                  if b
                  then (if is_present x then some (table_of x + a % page_size) else none)
                  else walked e (s.page (table_of e) (pt_idx a)) a)
                (same_page a virt ha hv)
        | inr gone ↦ rw (gone, differ a virt gone p) refl
      ])
