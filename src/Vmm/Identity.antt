-- ===== src/Vmm/Identity.antt =====
-- vmm_init of src/vmm.c maps every address of the memory to itself.
use mathlib.Core.Bool.{false≢true}
use os_itsc.Base.{
  ℕ, zero, suc, ◌+◌, ◌-◌, ◌*◌, ◌/◌, ◌%◌, ◌^◌, ◌≤◌, ◌<◌, ◌≡◌, refl, sym, ap, ◌∙◌, subst, ◌⊎◌, inl,
  inr, Returns, returns, true, false, Option, none, some, ltb, ◌==◌, if◌then◌else◌, for_range,
  Bool-cases, arith,
}
use os_itsc.Pmm.{Pmm, page_size, frame_used, pmm_alloc_frame}
use os_itsc.Pmm.Bits.{used-mark_used}
use os_itsc.Pmm.Frames.{IsPmm, got, out_of_memory, pmm_alloc_frame-Allocated, taken, taken-IsPmm}
use os_itsc.Vmm.{Vmm, pd_idx, table_of, is_present, clear_page, vmm_map_page, vmm_init}
use os_itsc.Vmm.Walk.{translate, IsSpace, same_index, pd_idx_lt}
use os_itsc.Vmm.Fresh.{cleared, walked_absent}
use os_itsc.Vmm.Map.{Mapped, mapped, no_frame, vmm_map_page-Mapped}

-- No frame is left.
abbrev pub IsFull : Pmm → Type 0
IsFull p = (g : ℕ) → g < p.total_frames → frame_used p.bitmap g ≡ true

-- The first `k` pages are mapped to themselves, and no other.
pub record IsIdentity (pd k : ℕ) (s : Vmm) : Type 0 where
  pub space : IsSpace pd s
  pub walks :
      (a : ℕ) → a < 2 ^ 32 → translate pd a s ≡ (if ltb (a / page_size) k then some a else none)

full_alloc : (p : Pmm) → IsFull p → pmm_alloc_frame p ≡ (0, p)
full_alloc p h = elim (pmm_alloc_frame-Allocated p) [
  | got f lo hi free before e ↦ absurd (false≢true (sym free ∙ h f hi))
  | out_of_memory before e ↦ e
]

-- Where no frame is left, a call of `vmm_map_page` takes none.
full_stays :
    (pd virt phys flags : ℕ) (s : Vmm)
    → IsFull s.frames
    → (vmm_map_page pd virt phys flags s).frames ≡ s.frames
unfolding vmm_map_page
full_stays pd virt phys flags s h = elim (Bool-cases (is_present (s.page pd (pd_idx virt)))) [
  | inl there ↦ rw (vmm_map_page, there) refl
  | inr absent ↦ rw (vmm_map_page, full_alloc s.frames h, absent) refl
]

page_of_address :
    (a k : ℕ)
    → (a / page_size == k * page_size / page_size) ≡ true
    → table_of (k * page_size) + a % page_size ≡ a
page_of_address a k h = let e = same_index _ _ h in omega (arith, e)

-- The walk after page `k` is mapped to itself.
one_more :
    (a k : ℕ) (before now : Option ℕ)
    → k < 1048576
    → before ≡ (if ltb (a / page_size) k then some a else none)
    → now ≡ (
        if a / page_size == k * page_size / page_size
        then some (table_of (k * page_size) + a % page_size)
        else before)
    → now ≡ (if ltb (a / page_size) (k + 1) then some a else none)
one_more a k before now h e f = elim (Bool-cases (a / page_size == k * page_size / page_size)) [
  | inl same ↦
      let here : ltb (a / page_size) (k + 1) ≡ true = ground arith in
      let whole : table_of (k * page_size) + a % page_size ≡ a = page_of_address a k same in
      f ∙ rw (same, here, whole) refl
  | inr other ↦
      let later : ltb (a / page_size) (k + 1) ≡ ltb (a / page_size) k = ground arith in
      f ∙ rw (other, later) e
]

module _ (pd k : ℕ) (s : Vmm) (h : k < 1048576) where
  abbrev next : Vmm
  next = vmm_map_page pd (k * page_size) (k * page_size) 0x03 s

  goes_on :
      IsIdentity pd k s
      → IsSpace pd next
      → Mapped pd (k * page_size) (k * page_size) s next
      → IsIdentity pd (k + 1) next ⊎ IsFull next.frames
  goes_on v space (mapped m) =
      inl (record { space = space; walks = λ a l. one_more a k _ _ h (v.walks a l) (m a l) })
  goes_on v space (no_frame full absent e) = inr (subst (λ t. IsFull t.frames) (sym e) full)

  next_page : IsIdentity pd k s ⊎ IsFull s.frames → IsIdentity pd (k + 1) next ⊎ IsFull next.frames
  next_page (inr full) =
      inr (subst IsFull (sym (full_stays pd (k * page_size) (k * page_size) 0x03 s full)) full)
  next_page (inl v) =
      let (space, m) =
        vmm_map_page-Mapped (k * page_size) (k * page_size) 0x03 v.space (omega arith) in
      goes_on v space m

abbrev all_pages : ℕ → ℕ → ℕ → Vmm → Vmm
all_pages n k pd s = for_range n k (λ j t. vmm_map_page pd (j * page_size) (j * page_size) 0x03 t) s

all_pages_lem :
    (n k m pd : ℕ) (s : Vmm)
    → k + n ≡ m
    → m ≤ 1048576
    → IsIdentity pd k s ⊎ IsFull s.frames
    → IsIdentity pd m (all_pages n k pd s) ⊎ IsFull (all_pages n k pd s).frames
unfolding for_range
all_pages_lem zero k m pd s e h v =
    let end : k ≡ m = omega (arith, e) in subst (λ j. IsIdentity pd j s ⊎ IsFull s.frames) end v
all_pages_lem (suc n) k m pd s e h v =
    all_pages_lem n (k + 1) m pd (vmm_map_page pd (k * page_size) (k * page_size) 0x03 s)
      (omega (arith, e)) h (next_page pd k s (omega (arith, e, h)) v)

-- A directory in a frame of its own and without an entry maps nothing.
module _ (s : Vmm) (f : ℕ) (v : IsPmm s.frames) (lt : f < s.frames.total_frames)
    (free : frame_used s.frames.bitmap f ≡ false) where
  abbrev pd_at : ℕ
  pd_at = f * page_size

  abbrev start : Vmm
  start = clear_page pd_at (record s { kernel_pd = pd_at; frames = taken f s.frames })

  no_entry : {A : Type 0} → (i : ℕ) → i < 1024 → is_present (start.page pd_at i) ≡ true → A
  no_entry i h p = absurd (
      false≢true (
        sym (
          ap is_present
            (cleared pd_at (record s { kernel_pd = pd_at; frames = taken f s.frames }) i h))
        ∙ p))

  start-IsSpace : IsSpace pd_at start
  unfolding clear_page
  start-IsSpace = record {
    frames_ok = taken-IsPmm f lt free v;
    aligned = omega arith;
    directory = ground (arith, used-mark_used s.frames.bitmap f (pd_at / page_size));
    directory_real = omega (arith, lt);
    tables = λ i h p. no_entry i h p;
    real = λ i h p. no_entry i h p;
    apart = λ i h p. no_entry i h p;
    distinct = λ i j hi hj p q. no_entry i hi p;
  }

  start-IsIdentity : IsIdentity pd_at 0 start
  unfolding translate
  start-IsIdentity = record {
    space = start-IsSpace;
    walks = λ a h.
        let blank : is_present (start.page pd_at (pd_idx a)) ≡ false = ap is_present (
          cleared pd_at (record s { kernel_pd = pd_at; frames = taken f s.frames }) (pd_idx a)
            (pd_idx_lt a h)) in
        let below : ltb (a / page_size) 0 ≡ false = ground arith in
        walked_absent _ _ a blank ∙ rw below refl;
  }

kernel-vmm_map_page :
    (pd virt phys flags : ℕ) (s : Vmm) → (vmm_map_page pd virt phys flags s).kernel_pd ≡ s.kernel_pd
unfolding vmm_map_page clear_page
kernel-vmm_map_page pd virt phys flags s =
    elim (Bool-cases (is_present (s.page pd (pd_idx virt)))) [
      | inl there ↦ rw there refl
      | inr absent ↦ elim (Bool-cases ((pmm_alloc_frame s.frames).0 == 0)) [
        | inl null ↦ rw (absent, null) refl
        | inr frame ↦ rw (absent, frame) refl
      ]
    ]

kernel-all_pages : (n k pd : ℕ) (s : Vmm) → (all_pages n k pd s).kernel_pd ≡ s.kernel_pd
unfolding for_range
kernel-all_pages zero k pd s = refl
kernel-all_pages (suc n) k pd s =
    kernel-all_pages n (k + 1) pd (vmm_map_page pd (k * page_size) (k * page_size) 0x03 s)
    ∙ kernel-vmm_map_page pd (k * page_size) (k * page_size) 0x03 s

-- The state in which the loop of `vmm_init` starts.
abbrev with_directory : ℕ × Pmm → Vmm → Vmm
with_directory (pd, p) s = clear_page pd (record s { kernel_pd = pd; frames = p })

begins :
    (s : Vmm)
    → IsPmm s.frames
    → let t = with_directory (pmm_alloc_frame s.frames) s in
      IsIdentity t.kernel_pd 0 t ⊎ IsFull t.frames
unfolding clear_page
begins s v = elim (pmm_alloc_frame-Allocated s.frames) [
  | got f lo hi free before e ↦
      let at : f * page_size % 2 ^ 32 ≡ f * page_size = omega (arith, v.addressed) in
      let start = ap (λ pd. (pd, taken f s.frames)) at in
      inl (
        subst (λ z. let t = with_directory z s in IsIdentity t.kernel_pd 0 t) (sym (e ∙ start))
          (start-IsIdentity s f v hi free))
  | out_of_memory before e ↦ inr (subst (λ z. IsFull z.1) (sym e) (λ g h. before g (omega arith) h))
]

-- With the allocator's state right and a memory that ends at least one page before 4 GB, `vmm_init`
-- returns, and unless no frame is left then, its directory and tables are frames in use of their own
-- and the walk finds, for an address of 32 bits, that address if it is in a page of the memory, and
-- no page otherwise.
pub vmm_init-IsIdentity :
    (mem_kb : ℕ) (s : Vmm)
    → IsPmm s.frames
    → mem_kb * 1024 ≤ 2 ^ 32 - page_size
    → Returns
        (λ t.
          IsIdentity t.kernel_pd ((mem_kb * 1024 + page_size - 1) / page_size) t ⊎ IsFull t.frames)
        (vmm_init mem_kb s)
unfolding vmm_init
vmm_init-IsIdentity mem_kb s v l =
    let start = with_directory (pmm_alloc_frame s.frames) s in
    let pages = (mem_kb * 1024 + page_size - 1) / page_size in
    let size : mem_kb * 1024 % 2 ^ 32 ≡ mem_kb * 1024 = omega arith in
    let fits : ltb (2 ^ 32 - page_size) (mem_kb * 1024) ≡ false = ground arith in
    let pd = (pmm_alloc_frame s.frames).0 in
    let few : pages ≤ 1048576 = omega arith in
    let kernel = kernel-all_pages pages 0 pd start in
    rw (size, fits)
      (returns (
        subst (λ k. let t = all_pages pages 0 pd start in IsIdentity k pages t ⊎ IsFull t.frames)
          (sym kernel) (all_pages_lem pages 0 pages pd start (omega arith) few (begins s v))))
