-- ===== src/Vmm/Fresh.antt =====
-- The new table that vmm_map_page of src/vmm.c adds to a directory.
use mathlib.Core.Bool.{false≢true}
use os_itsc.Base.{
  ℕ, zero, suc, ◌+◌, ◌*◌, ◌/◌, ◌^◌, ◌<◌, ◌≡◌, refl, sym, ap, ◌∙◌, inl, inr, true, false, ◌&&◌, none,
  ltb, leb, ◌==◌, if◌then◌else◌, eq_refl, update, for_range, Bool-cases, arith,
}
use os_itsc.Pmm.{page_size, frame_used}
use os_itsc.Pmm.Bits.{used-mark_used}
use os_itsc.Pmm.Frames.{taken, taken-IsPmm}
use os_itsc.Vmm.{Vmm, entry, is_present, table_of, pd_idx, pt_idx, store, clear_page, with_frames}
use os_itsc.Vmm.Walk.{IsSpace, translate, walked, entry_lem, apart_table, pd_idx_lt, same_index}

clear_lem :
    (n i : ℕ) (q : ℕ → ℕ) (j : ℕ)
    → for_range n i (λ k r. update r k 0) q j ≡ (if leb i j && ltb j (i + n) then 0 else q j)
unfolding for_range
clear_lem zero i q j = ground arith
clear_lem (suc n) i q j = clear_lem n (i + 1) (update q i 0) j ∙ ground arith

pub cleared : (p : ℕ) (s : Vmm) (j : ℕ) → j < 1024 → (clear_page p s).page p j ≡ 0
unfolding clear_page
cleared p s j h = ground (arith, clear_lem 1024 0 (s.page p) j)

other_page : (p q : ℕ) (s : Vmm) → (q == p) ≡ false → (clear_page p s).page q ≡ s.page q
unfolding clear_page
other_page p q s h = rw h

pub IsSpace-congr :
    {pd : ℕ} {s t : Vmm}
    → t.frames ≡ s.frames
    → ((j : ℕ) → t.page pd j ≡ s.page pd j)
    → IsSpace pd s
    → IsSpace pd t
IsSpace-congr {pd} {s} {t} f e v = record {
  frames_ok = rw f v.frames_ok;
  aligned = v.aligned;
  directory = rw f v.directory;
  directory_real = rw f v.directory_real;
  real = λ i lt p. rw (f, e i) (v.real i lt (sym (ap is_present (e i)) ∙ p));
  tables = λ i lt p. rw (f, e i) (v.tables i lt (sym (ap is_present (e i)) ∙ p));
  apart = λ i lt p. rw (e i) (v.apart i lt (sym (ap is_present (e i)) ∙ p));
  distinct = λ i j hi hj p q n.
      rw (e i, e j)
        (v.distinct i j hi hj (sym (ap is_present (e i)) ∙ p) (sym (ap is_present (e j)) ∙ q) n);
}

swap_eq : (a b : ℕ) → (a == b) ≡ false → (b == a) ≡ false
swap_eq a b h = ground arith

pub walked_blank : (e f a : ℕ) → f ≡ 0 → walked e f a ≡ none
walked_blank e f a h = ground arith

pub walked_absent : (e f a : ℕ) → is_present e ≡ false → walked e f a ≡ none
walked_absent e f a h = rw h refl

-- A new table for entry `i`, at frame `f`.
abbrev pub fresh : ℕ → ℕ → ℕ → ℕ → Vmm → Vmm
fresh pd i f flags s =
    store pd i (entry (f * page_size) flags)
      (clear_page (f * page_size) (with_frames (taken f s.frames) s))

module _ {pd : ℕ} {s : Vmm} (v : IsSpace pd s) (f : ℕ)
    (free : frame_used s.frames.bitmap f ≡ false) where
  pd_apart : (pd == f * page_size) ≡ false
  pd_apart = elim (Bool-cases (pd == f * page_size)) [
    | inr other ↦ other
    | inl same ↦
        let e : pd / page_size ≡ f = ground arith in
        absurd (false≢true (sym free ∙ ap (frame_used s.frames.bitmap) (sym e) ∙ v.directory))
  ]

  table_apart :
      (j : ℕ)
      → j < 1024
      → is_present (s.page pd j) ≡ true
      → (table_of (s.page pd j) == f * page_size) ≡ false
  table_apart j h p = elim (Bool-cases (table_of (s.page pd j) == f * page_size)) [
    | inr other ↦ other
    | inl same ↦
        let e : s.page pd j / page_size ≡ f = ground arith in
        absurd (false≢true (sym free ∙ ap (frame_used s.frames.bitmap) (sym e) ∙ v.tables j h p))
  ]

  module _ (i flags : ℕ) (absent : is_present (s.page pd i) ≡ false) where
    fresh_entry :
        (j : ℕ)
        → (fresh pd i f flags s).page pd j
          ≡ (if j == i then entry (f * page_size) flags else s.page pd j)
    fresh_entry j = rw (eq_refl pd) (
        ap (λ (q : ℕ → ℕ). if j == i then entry (f * page_size) flags else q j)
          (other_page (f * page_size) pd (with_frames (taken f s.frames) s) pd_apart))

    -- The frame of entry `j`, and whether it is there.
    fresh_frame :
        (j : ℕ)
        → (fresh pd i f flags s).page pd j / page_size
          ≡ (if j == i then f else s.page pd j / page_size)
    fresh_frame j = rw (fresh_entry j) (elim (Bool-cases (j == i)) [
      | inl same ↦ rw same (omega (arith, (entry_lem (f * page_size) flags).1))
      | inr other ↦ rw other refl
    ])

    pub fresh_present :
        (j : ℕ)
        → is_present ((fresh pd i f flags s).page pd j)
          ≡ (if j == i then true else is_present (s.page pd j))
    fresh_present j = rw (fresh_entry j) (elim (Bool-cases (j == i)) [
      | inl same ↦ rw same (ground (arith, (entry_lem (f * page_size) flags).0))
      | inr other ↦ rw other refl
    ])

    was_present :
        (j : ℕ)
        → (j == i) ≡ false
        → is_present ((fresh pd i f flags s).page pd j) ≡ true
        → is_present (s.page pd j) ≡ true
    was_present j other p =
        ap (λ b. if b then true else is_present (s.page pd j)) (sym other)
        ∙ sym (fresh_present j)
        ∙ p

    frame_apart :
        (j : ℕ)
        → j < 1024
        → (j == i) ≡ false
        → is_present ((fresh pd i f flags s).page pd j) ≡ true
        → (s.page pd j / page_size == f) ≡ false
    frame_apart j h other p = ground (arith, table_apart j h (was_present j other p))

    pub fresh-IsSpace : f < s.frames.total_frames → IsSpace pd (fresh pd i f flags s)
    unfolding clear_page
    fresh-IsSpace lt = record {
      frames_ok = taken-IsPmm f lt free v.frames_ok;
      aligned = v.aligned;
      directory = ground (arith, used-mark_used s.frames.bitmap f (pd / page_size), v.directory);
      directory_real = v.directory_real;
      real = λ j h p. rw (fresh_frame j) (elim (Bool-cases (j == i)) [
        | inl same ↦ rw same (ground (arith, v.frames_ok.reserved, free), lt)
        | inr other ↦ rw other (v.real j h (was_present j other p))
      ]);
      tables = λ j h p.
          rw (fresh_frame j, used-mark_used s.frames.bitmap f)
            (elim (Bool-cases (j == i)) [
              | inl same ↦ rw same (rw (eq_refl f) refl)
              | inr other ↦ rw other (ground (arith, v.tables j h (was_present j other p)))
            ]);
      apart = λ j h p. rw (fresh_frame j) (elim (Bool-cases (j == i)) [
        | inl same ↦ rw same (ground (arith, pd_apart, v.aligned))
        | inr other ↦ rw other (v.apart j h (was_present j other p))
      ]);
      distinct = λ j l hj hl p q n.
          rw (fresh_frame j, fresh_frame l)
            (elim (Bool-cases (j == i)) [
              | inl same ↦ rw same (elim (Bool-cases (l == i)) [
                | inl too ↦ absurd (ground arith)
                | inr other ↦ rw other (ground (arith, frame_apart l hl other q))
              ])
              | inr other ↦ rw other (elim (Bool-cases (l == i)) [
                | inl same ↦ rw same (frame_apart j hj other p)
                | inr apart' ↦
                    rw apart'
                      (v.distinct j l hj hl (was_present j other p) (was_present l apart' q) n)
              ])
            ]);
    }

    new_table : (k : ℕ) → k < 1024 → (fresh pd i f flags s).page (f * page_size) k ≡ 0
    new_table k h =
        rw (swap_eq (pd) (f * page_size) pd_apart)
          (cleared (f * page_size) (with_frames (taken f s.frames) s) k h)

    old_table :
        (j : ℕ)
        → j < 1024
        → is_present (s.page pd j) ≡ true
        → (fresh pd i f flags s).page (table_of (s.page pd j)) ≡ s.page (table_of (s.page pd j))
    old_table j h p = rw (swap_eq pd (table_of (s.page pd j)) (apart_table v j h p)) (
        other_page (f * page_size) (table_of (s.page pd j)) (with_frames (taken f s.frames) s)
          (table_apart j h p))

    old_entry : (j : ℕ) → (j == i) ≡ false → (fresh pd i f flags s).page pd j ≡ s.page pd j
    old_entry j other = fresh_entry j ∙ rw other refl

    -- The new table maps nothing.
    pub translate-fresh :
        (a : ℕ) → a < 2 ^ 32 → translate pd a (fresh pd i f flags s) ≡ translate pd a s
    unfolding translate
    translate-fresh a ha = elim (Bool-cases (pd_idx a == i)) [
      | inl same ↦
          let t = fresh pd i f flags s in
          let at : t.page pd (pd_idx a) / page_size ≡ f = fresh_frame (pd_idx a) ∙ rw same refl in
          let blank : t.page (table_of (t.page pd (pd_idx a))) (pt_idx a) ≡ 0 =
            ap (λ g. t.page (g * page_size) (pt_idx a)) at ∙ new_table (pt_idx a) (omega arith) in
          walked_blank (t.page pd (pd_idx a)) _ a blank
          ∙ sym (
              walked_absent _ _ a
                (ap (λ j. is_present (s.page pd j)) (same_index (pd_idx a) i same) ∙ absent))
      | inr other ↦
          let t = fresh pd i f flags s in
          let e = s.page pd (pd_idx a) in
          ap (λ z. walked z (t.page (table_of z) (pt_idx a)) a) (old_entry (pd_idx a) other)
          ∙ (elim (Bool-cases (is_present e)) [
            | inl there ↦
                ap (λ (q : ℕ → ℕ). walked e (q (pt_idx a)) a)
                  (old_table (pd_idx a) (pd_idx_lt a ha) there)
            | inr gone ↦ walked_absent e _ a gone ∙ sym (walked_absent e _ a gone)
          ])
    ]
