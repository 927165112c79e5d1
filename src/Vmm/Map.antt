-- ===== src/Vmm/Map.antt =====
-- vmm_map_page of src/vmm.c and the processor's walk.
use os_itsc.Base.{
  ℕ, ◌+◌, ◌*◌, ◌/◌, ◌%◌, ◌^◌, ◌<◌, ◌≡◌, refl, ap, ◌∙◌, inl, inr, true, false, none, some, ◌==◌,
  if◌then◌else◌, eq_refl, Bool-cases, arith,
}
use os_itsc.Pmm.{page_size, frame_used}
use os_itsc.Pmm.Frames.{got, out_of_memory, pmm_alloc_frame-Allocated}
use os_itsc.Vmm.{Vmm, entry, is_present, table_of, pd_idx, pt_idx, set_entry, vmm_map_page}
use os_itsc.Vmm.Walk.{IsSpace, translate, translate-store, entry_lem, directory-store, pd_idx_lt}
use os_itsc.Vmm.Fresh.{IsSpace-congr, fresh, fresh_present, fresh-IsSpace, translate-fresh}

-- What mapping a page comes to.
pub data Mapped (pd virt phys : ℕ) (s : Vmm) (t : Vmm) : Type 0 where
  mapped :
      ((a : ℕ)
        → a < 2 ^ 32
        → translate pd a t ≡ (
            if a / page_size == virt / page_size
            then some (table_of phys + a % page_size)
            else translate pd a s))
      → Mapped pd virt phys s t
  no_frame :
      ((g : ℕ) → g < s.frames.total_frames → frame_used s.frames.bitmap g ≡ true)
      → is_present (s.page pd (pd_idx virt)) ≡ false
      → t ≡ s
      → Mapped pd virt phys s t

entry_lands :
    (phys flags a : ℕ)
    → (if is_present (entry phys flags)
        then some (table_of (entry phys flags) + a % page_size)
        else none)
      ≡ some (table_of phys + a % page_size)
entry_lands phys flags a =
    let (one, page) = entry_lem phys flags in
    ap (λ z. if z == 1 then some (table_of (entry phys flags) + a % page_size) else none) one
    ∙ ap (λ z. some (z * page_size + a % page_size)) page

module _ {pd : ℕ} {s : Vmm} (v : IsSpace pd s) (virt phys flags : ℕ) (hv : virt < 2 ^ 32) where
  set_entry_lands :
      (a : ℕ)
      → a < 2 ^ 32
      → is_present (s.page pd (pd_idx virt)) ≡ true
      → translate pd a (set_entry pd virt phys flags s) ≡ (
          if a / page_size == virt / page_size
          then some (table_of phys + a % page_size)
          else translate pd a s)
  set_entry_lands a ha p =
      translate-store v virt (entry phys flags) a hv ha p
      ∙ ap (λ z. if a / page_size == virt / page_size then z else translate pd a s)
          (entry_lands phys flags a)

  set_entry-IsSpace :
      is_present (s.page pd (pd_idx virt)) ≡ true → IsSpace pd (set_entry pd virt phys flags s)
  set_entry-IsSpace p =
      IsSpace-congr refl
        (directory-store v (pd_idx virt) (pt_idx virt) (entry phys flags) (pd_idx_lt virt hv) p) v

map_fresh :
    {pd : ℕ} {s : Vmm} (virt phys flags f : ℕ)
    → IsSpace pd s
    → virt < 2 ^ 32
    → is_present (s.page pd (pd_idx virt)) ≡ false
    → frame_used s.frames.bitmap f ≡ false
    → f < s.frames.total_frames
    → let t = set_entry pd virt phys flags (fresh pd (pd_idx virt) f flags s) in
      IsSpace pd t × Mapped pd virt phys s t
map_fresh {pd} {s} virt phys flags f v hv absent free lt =
    let i = pd_idx virt in
    let w = fresh-IsSpace v f free i flags absent lt in
    let there : is_present ((fresh pd i f flags s).page pd i) ≡ true =
      fresh_present v f free i flags absent i ∙ rw (eq_refl i) refl in
    (
      set_entry-IsSpace w virt phys flags hv there,
      mapped (λ a ha.
          set_entry_lands w virt phys flags hv a ha there
          ∙ ap
              (λ z.
                if a / page_size == virt / page_size
                then some (table_of phys + a % page_size)
                else z)
              (translate-fresh v f free i flags absent a ha)),
    )

-- Mapping a 32-bit address in a directory whose tables are frames in use of their own: the tables
-- stay so, and the walk of any 32-bit address gives the new page for the addresses of that page and
-- what it gave before for the others; or no frame is free for the new table that is needed, and
-- nothing changes.
pub vmm_map_page-Mapped :
    {pd : ℕ} {s : Vmm} (virt phys flags : ℕ)
    → IsSpace pd s
    → virt < 2 ^ 32
    → IsSpace pd (vmm_map_page pd virt phys flags s)
      × Mapped pd virt phys s (vmm_map_page pd virt phys flags s)
unfolding vmm_map_page
vmm_map_page-Mapped {pd} {s} virt phys flags v hv =
    elim (Bool-cases (is_present (s.page pd (pd_idx virt)))) [
      | inl there ↦ rw there (
        set_entry-IsSpace v virt phys flags hv there,
        mapped (λ a ha. set_entry_lands v virt phys flags hv a ha there),
      )
      | inr absent ↦ rw absent (elim (pmm_alloc_frame-Allocated s.frames) [
        | out_of_memory before e ↦
            rw e (v, no_frame (λ g lt. before g (omega arith) lt) absent refl)
        | got f lo hi free before e ↦
            let nz : (f * page_size % 2 ^ 32 == 0) ≡ false =
              ground (arith, v.frames_ok.reserved, v.frames_ok.addressed) in
            let at : f * page_size % 2 ^ 32 ≡ f * page_size =
              omega (arith, v.frames_ok.addressed) in
            rw (e, nz, at) (map_fresh virt phys flags f v hv absent free hi)
      ])
    ]
