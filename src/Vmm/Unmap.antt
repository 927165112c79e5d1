-- ===== src/Vmm/Unmap.antt =====
-- vmm_unmap_page of src/vmm.c and the processor's walk.
use mathlib.Core.Bool.{false≢true}
use os_itsc.Base.{
  ℕ, zero, suc, ◌+◌, ◌/◌, ◌^◌, ◌≤◌, ◌<◌, ◌≡◌, refl, sym, ap, ◌∙◌, inl, inr, Bool, true, false, none,
  ◌==◌, if◌then◌else◌, eq_refl, Bool-cases, arith,
}
use os_itsc.Pmm.{page_size, frame_used, pmm_free_frame}
use os_itsc.Pmm.Frames.{IsPmm, pmm_free_frame-IsPmm, total-pmm_free_frame}
use os_itsc.Vmm.{
  Vmm, is_present, table_of, pd_idx, pt_idx, store, with_frames, is_empty_from, vmm_unmap_page,
}
use os_itsc.Vmm.Walk.{
  IsSpace, translate, walked, translate-store, apart_table, directory-store, pd_idx_lt, same_index,
}
use os_itsc.Vmm.Fresh.{IsSpace-congr, walked_absent}

empty_lem :
    (n i : ℕ) (q : ℕ → ℕ) (k : ℕ)
    → is_empty_from n i q ≡ true
    → i ≤ k
    → k < i + n
    → is_present (q k) ≡ false
unfolding is_empty_from
empty_lem zero i q k h lo hi = absurd (omega arith)
empty_lem (suc n) i q k h lo hi = grind (arith, empty_lem n (i + 1) q k)

swap_eq : (a b : ℕ) → (a == b) ≡ false → (b == a) ≡ false
swap_eq a b h = ground arith

walked_gone : (e f a : ℕ) → is_present f ≡ false → walked e f a ≡ none
walked_gone e f a h = ground arith

-- The directory without the empty table of entry `i`.
abbrev without_table : ℕ → ℕ → Vmm → Vmm
without_table pd i s =
    store pd i 0 (with_frames (pmm_free_frame (table_of (s.page pd i)) s.frames) s)

module _ {pd : ℕ} {s : Vmm} (v : IsSpace pd s) (i : ℕ) (hi : i < 1024)
    (there : is_present (s.page pd i) ≡ true) where
  left_entry : (j : ℕ) → (without_table pd i s).page pd j ≡ (if j == i then 0 else s.page pd j)
  left_entry j = rw (eq_refl pd) refl

  left_present : (j : ℕ) → is_present ((without_table pd i s).page pd j) ≡ true → (j == i) ≡ false
  left_present j p = elim (Bool-cases (j == i)) [
    | inr other ↦ other
    | inl same ↦ absurd (
        false≢true (
          ap (λ (b : Bool). is_present (if b then 0 else s.page pd j)) (sym same)
          ∙ sym (ap is_present (left_entry j))
          ∙ p))
  ]

  was_there :
      (j : ℕ)
      → is_present ((without_table pd i s).page pd j) ≡ true
      → is_present (s.page pd j) ≡ true
  was_there j p =
      ap (λ b. is_present (if b then 0 else s.page pd j)) (sym (left_present j p))
      ∙ sym (ap is_present (left_entry j))
      ∙ p

  same_entry :
      (j : ℕ)
      → is_present ((without_table pd i s).page pd j) ≡ true
      → (without_table pd i s).page pd j ≡ s.page pd j
  same_entry j p = left_entry j ∙ rw (left_present j p) refl

  freed :
      IsPmm (pmm_free_frame (table_of (s.page pd i)) s.frames)
      × ((g : ℕ)
          → g < s.frames.total_frames
          → frame_used (pmm_free_frame (table_of (s.page pd i)) s.frames).bitmap g ≡ (
              if g == table_of (s.page pd i) / page_size
              then false
              else frame_used s.frames.bitmap g))
  freed =
      pmm_free_frame-IsPmm (table_of (s.page pd i)) (omega (arith, (v.real i hi there).0))
        v.frames_ok

  still_used :
      (g : ℕ)
      → g < s.frames.total_frames
      → (g == s.page pd i / page_size) ≡ false
      → frame_used s.frames.bitmap g ≡ true
      → frame_used (pmm_free_frame (table_of (s.page pd i)) s.frames).bitmap g ≡ true
  still_used g lt other u = ground (arith, freed.1 g lt)

  without-IsSpace : IsSpace pd (without_table pd i s)
  without-IsSpace = record {
    frames_ok = freed.0;
    aligned = v.aligned;
    directory =
        still_used (pd / page_size) v.directory_real (ground (arith, v.apart i hi there))
          v.directory;
    directory_real = rw (total-pmm_free_frame (table_of (s.page pd i)) s.frames) v.directory_real;
    real = λ j h p.
        rw (same_entry j p, total-pmm_free_frame (table_of (s.page pd i)) s.frames)
          (v.real j h (was_there j p));
    tables = λ j h p.
        let q = was_there j p in
        rw (same_entry j p) (
          still_used (s.page pd j / page_size) (v.real j h q).1
            (v.distinct j i h hi q there (left_present j p)) (v.tables j h q));
    apart = λ j h p. rw (same_entry j p) (v.apart j h (was_there j p));
    distinct = λ j l hj hl p q n.
        rw (same_entry j p, same_entry l q)
          (v.distinct j l hj hl (was_there j p) (was_there l q) n);
  }

  translate-without :
      (a : ℕ)
      → a < 2 ^ 32
      → is_empty_from 1024 0 (s.page (table_of (s.page pd i))) ≡ true
      → translate pd a (without_table pd i s) ≡ translate pd a s
  unfolding translate
  translate-without a ha empty = elim (Bool-cases (pd_idx a == i)) [
    | inl same ↦
        let t = without_table pd i s in
        let at : pd_idx a ≡ i = same_index (pd_idx a) i same in
        let blank : is_present (t.page pd (pd_idx a)) ≡ false =
          ap is_present (left_entry (pd_idx a)) ∙ rw same refl in
        let none_there : is_present (s.page (table_of (s.page pd (pd_idx a))) (pt_idx a)) ≡ false =
          ap (λ j. is_present (s.page (table_of (s.page pd j)) (pt_idx a))) at
          ∙ empty_lem 1024 0 (s.page (table_of (s.page pd i))) (pt_idx a) empty (omega arith)
              (omega arith) in
        walked_absent _ _ a blank ∙ sym (walked_gone _ _ a none_there)
    | inr other ↦
        let t = without_table pd i s in
        let e = s.page pd (pd_idx a) in
        let kept : t.page pd (pd_idx a) ≡ e = left_entry (pd_idx a) ∙ rw other refl in
        ap (λ z. walked z (t.page (table_of z) (pt_idx a)) a) kept
        ∙ (elim (Bool-cases (is_present e)) [
          | inl here ↦
              rw (swap_eq pd (table_of e) (apart_table v (pd_idx a) (pd_idx_lt a ha) here)) refl
          | inr gone ↦ walked_absent e _ a gone ∙ sym (walked_absent e _ a gone)
        ])
  ]

-- What the walk gives once the page of `virt` is unmapped.
abbrev pub Unmapped : ℕ → ℕ → Vmm → Vmm → Type 0
Unmapped pd virt s t =
    (a : ℕ)
    → a < 2 ^ 32
    → translate pd a t ≡ (if a / page_size == virt / page_size then none else translate pd a s)

unmap_table :
    (pd virt e : ℕ) (s t : Vmm)
    → t.page pd (pd_idx virt) ≡ e
    → IsSpace pd t
    → virt < 2 ^ 32
    → is_present (t.page pd (pd_idx virt)) ≡ true
    → Unmapped pd virt s t
    → let u =
        if is_empty_from 1024 0 (t.page (table_of e))
        then store pd (pd_idx virt) 0 (with_frames (pmm_free_frame (table_of e) t.frames) t)
        else t in
      IsSpace pd u × Unmapped pd virt s u
unmap_table pd virt e s t eq v hv there m =
    rw (← eq)
      (elim (Bool-cases (is_empty_from 1024 0 (t.page (table_of (t.page pd (pd_idx virt)))))) [
        | inr filled ↦ rw filled (v, m)
        | inl empty ↦ rw empty (
          without-IsSpace v (pd_idx virt) (pd_idx_lt virt hv) there,
          λ a ha. translate-without v (pd_idx virt) (pd_idx_lt virt hv) there a ha empty ∙ m a ha,
        )
      ])

absent_walk :
    (pd virt a : ℕ) (s : Vmm)
    → a / page_size ≡ virt / page_size
    → is_present (s.page pd (pd_idx virt)) ≡ false
    → translate pd a s ≡ none
unfolding translate
absent_walk pd virt a s e h =
    let at : pd_idx a ≡ pd_idx virt = omega (arith, e) in
    walked_absent _ _ a (ap (λ j. is_present (s.page pd j)) at ∙ h)

unmapped_before :
    (pd virt a : ℕ) (s : Vmm)
    → is_present (s.page pd (pd_idx virt)) ≡ false
    → translate pd a s ≡ (if a / page_size == virt / page_size then none else translate pd a s)
unmapped_before pd virt a s h = elim (Bool-cases (a / page_size == virt / page_size)) [
  | inl same ↦ rw same (absent_walk pd virt a s (same_index _ _ same) h)
  | inr other ↦ rw other refl
]

-- Unmapping a 32-bit address in a directory whose tables are frames in use of their own: the tables
-- stay so, the walk finds no page for the addresses of that page, and what it found before for any
-- other 32-bit address, also where an empty table is freed.
pub vmm_unmap_page-IsSpace :
    {pd : ℕ} {s : Vmm} (virt : ℕ)
    → IsSpace pd s
    → virt < 2 ^ 32
    → IsSpace pd (vmm_unmap_page pd virt s) × Unmapped pd virt s (vmm_unmap_page pd virt s)
unfolding vmm_unmap_page
vmm_unmap_page-IsSpace {pd} {s} virt v hv =
    elim (Bool-cases (is_present (s.page pd (pd_idx virt)))) [
      | inr absent ↦ rw absent (v, λ a ha. unmapped_before pd virt a s absent)
      | inl there ↦
          let i = pd_idx virt in
          let t = store (table_of (s.page pd i)) (pt_idx virt) 0 s in
          let kept = directory-store v i (pt_idx virt) 0 (pd_idx_lt virt hv) there in
          rw there (
            unmap_table pd virt (s.page pd i) s t (kept i) (IsSpace-congr refl kept v) hv
              (ap is_present (kept i) ∙ there) (λ a ha. translate-store v virt 0 a hv ha there))
    ]
