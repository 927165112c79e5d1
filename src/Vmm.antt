-- ===== src/Vmm.antt =====
-- src/vmm.c: page directories over the frame allocator. A page of memory is its 1024 words by index,
-- found by the physical address of its first byte: physical memory is mapped to itself.
-- Loading cr3 and switching paging on in cr0 are assembly.
pub mod Walk
pub mod Fresh
pub mod Map
pub mod Unmap
pub mod Identity
pub mod Tests
use os_itsc.Base.{
  ℕ, zero, suc, ◌+◌, ◌-◌, ◌*◌, ◌/◌, ◌%◌, ◌^◌, max, Bool, true, false, ◌||◌, Option, none, some, ltb,
  leb, ◌==◌, if◌then◌else◌, update, for_range,
}
use os_itsc.Pmm.{Pmm, page_size, pmm_alloc_frame, pmm_free_frame}

-- `kernel_pd`, the frames, and the pages of memory.
pub record Vmm : Type 0 where
  pub kernel_pd : ℕ
  pub frames : Pmm
  pub page : ℕ → ℕ → ℕ

-- `a | (b & (2 ^ n - 1))`, digit by digit.
unfoldable pub or_low : ℕ → ℕ → ℕ → ℕ
or_low zero a b = a
or_low (suc n) a b = or_low n (a / 2) (b / 2) * 2 + max (a % 2) (b % 2)

-- `phys | (flags & 0xFFF) | 0x01`
unfoldable pub entry : ℕ → ℕ → ℕ
unfolding or_low
entry phys flags = or_low 12 phys flags / 2 * 2 + 1

-- `e & 0x01` and `e & ~0xFFF`
abbrev pub is_present : ℕ → Bool
is_present e = e % 2 == 1

abbrev pub table_of : ℕ → ℕ
table_of e = e / page_size * page_size

abbrev pub pd_idx : ℕ → ℕ
pd_idx virt = virt / 2 ^ 22

abbrev pub pt_idx : ℕ → ℕ
pt_idx virt = virt / 2 ^ 12 % 1024

-- `p[i] = v` in the page at `p`.
abbrev pub store : ℕ → ℕ → ℕ → Vmm → Vmm
store p i v s = record s { page = update s.page p (update (s.page p) i v) }

-- `for (i = 0; i < 1024; i++) p[i] = 0`
unfoldable pub clear_page : ℕ → Vmm → Vmm
clear_page p s = record s {
  page = update s.page p (for_range 1024 0 (λ i q. update q i 0) (s.page p));
}

abbrev pub with_frames : Pmm → Vmm → Vmm
with_frames p s = record s { frames = p }

-- The two last lines of `vmm_map_page`.
abbrev pub set_entry : ℕ → ℕ → ℕ → ℕ → Vmm → Vmm
set_entry pd virt phys flags s =
    store (table_of (s.page pd (pd_idx virt))) (pt_idx virt) (entry phys flags) s

unfoldable pub vmm_map_page : ℕ → ℕ → ℕ → ℕ → Vmm → Vmm
unfolding entry clear_page
vmm_map_page pd virt phys flags s =
    let (pt, p) = pmm_alloc_frame s.frames in
    let fresh = store pd (pd_idx virt) (entry pt flags) (clear_page pt (with_frames p s)) in
    if is_present (s.page pd (pd_idx virt))
    then set_entry pd virt phys flags s
    else if pt == 0
    then with_frames p s
    else set_entry pd virt phys flags fresh

-- The loop of `vmm_unmap_page` from index `i` on: no entry is present.
unfoldable pub is_empty_from : ℕ → ℕ → (ℕ → ℕ) → Bool
is_empty_from zero i q = true
is_empty_from (suc n) i q =
    let rest = is_empty_from n (i + 1) q in if is_present (q i) then false else rest

unfoldable pub vmm_unmap_page : ℕ → ℕ → Vmm → Vmm
unfolding is_empty_from
vmm_unmap_page pd virt s =
    let e = s.page pd (pd_idx virt) in
    let t = store (table_of e) (pt_idx virt) 0 s in
    if is_present e
    then (if is_empty_from 1024 0 (t.page (table_of e))
        then store pd (pd_idx virt) 0 (with_frames (pmm_free_frame (table_of e) t.frames) t)
        else t)
    else s

-- `for (j = 0; j < n; j++) if (pd[j] & 0x01) pmm_free_frame(pd[j] & ~0xFFF);`
unfoldable pub free_tables : ℕ → ℕ → Vmm → Vmm
free_tables n pd s =
    for_range n 0
      (λ j t.
        if is_present (t.page pd j)
        then with_frames (pmm_free_frame (table_of (t.page pd j)) t.frames) t
        else t)
      s

unfoldable pub vmm_destroy_pd : ℕ → Vmm → Vmm
unfolding free_tables
vmm_destroy_pd pd s = let t = free_tables 1024 pd s in with_frames (pmm_free_frame pd t.frames) t

-- One table of the kernel's directory is copied to a new one, whose entry keeps the low bits.
abbrev pub copy_table : ℕ → ℕ → ℕ → Vmm → Vmm
copy_table pd i pt s =
    let e = s.page s.kernel_pd i in
    let old = table_of e in
    let copied = record s {
      page =
          update s.page pt
            (for_range 1024 0 (λ j q. update q j (update s.page pt q old j)) (s.page pt));
    } in
    store pd i (or_low 12 pt e) copied

-- The loop of `vmm_create_pd` from index `i` on.
unfoldable pub copy_from : ℕ → ℕ → ℕ → Vmm → ℕ × Vmm
unfolding or_low free_tables
copy_from zero i pd s = (pd, s)
copy_from (suc n) i pd s =
    let (pt, p) = pmm_alloc_frame s.frames in
    let t = with_frames p s in
    let skipped = copy_from n (i + 1) pd s in
    let copied = copy_from n (i + 1) pd (copy_table pd i pt t) in
    let undone = free_tables i pd t in
    if is_present (s.page s.kernel_pd i)
    then (if pt == 0 then (0, with_frames (pmm_free_frame pd undone.frames) undone) else copied)
    else skipped

unfoldable pub vmm_create_pd : Vmm → ℕ × Vmm
unfolding copy_from clear_page
vmm_create_pd s =
    let (pd, p) = pmm_alloc_frame s.frames in
    let t = with_frames p s in if pd == 0 then (0, t) else copy_from 1024 0 pd (clear_page pd t)

-- `none` where the address of the loop wraps and the loop does not end.
unfoldable pub vmm_init : ℕ → Vmm → Option Vmm
unfolding clear_page vmm_map_page
vmm_init mem_kb s =
    let mem_size = mem_kb * 1024 % 2 ^ 32 in
    let (pd, p) = pmm_alloc_frame s.frames in
    let start = clear_page pd (record s { kernel_pd = pd; frames = p }) in
    let pages = (mem_size + page_size - 1) / page_size in
    if ltb (2 ^ 32 - page_size) mem_size
    then none
    else some
        (for_range pages 0 (λ k t. vmm_map_page pd (k * page_size) (k * page_size) 0x03 t) start)
