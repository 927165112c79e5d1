-- ===== src/Pmm/Frames.antt =====
-- The frame allocator against a count of the frames in use.
use os_itsc.Base.{
  ℕ, zero, suc, ◌+◌, ◌-◌, ◌*◌, ◌/◌, ◌%◌, ◌^◌, ◌≤◌, ◌<◌, ◌≡◌, ◌≢◌, ◌⊎◌, refl, sym, ap, ◌∙◌, inl, inr,
  Bool, true, false, ◌==◌, leb, if◌then◌else◌, Bool-cases, arith,
}
use os_itsc.Pmm.{
  Pmm, page_size, frame_used, mark_used, mark_free, alloc_from, pmm_alloc_frame, pmm_free_frame,
}
use os_itsc.Pmm.Bits.{used-mark_used, used-mark_free}
use os_itsc.Pmm.Count.{count_used, count_used-le, count-mark_used, count-mark_free}

-- The counter is right, every frame has an address, and frame 0 is never free.
pub record IsPmm (p : Pmm) : Type 0 where
  pub counted : p.used_frames ≡ count_used p.bitmap p.total_frames
  pub addressed : p.total_frames ≤ 1048576
  pub reserved : frame_used p.bitmap 0 ≡ true

-- The state with frame `f` taken.
abbrev pub taken : ℕ → Pmm → Pmm
taken f p = record p { bitmap = mark_used f p.bitmap; used_frames = (p.used_frames + 1) % 2 ^ 32 }

-- The lowest free frame from `f` on is taken, or there is none and nothing changes.
pub data Allocated (p : Pmm) (i end : ℕ) (out : ℕ × Pmm) : Type 0 where
  got :
      (f : ℕ)
      → i ≤ f
      → f < end
      → frame_used p.bitmap f ≡ false
      → ((g : ℕ) → i ≤ g → g < f → frame_used p.bitmap g ≡ true)
      → out ≡ (f * page_size % 2 ^ 32, taken f p)
      → Allocated p i end out
  out_of_memory :
      ((g : ℕ) → i ≤ g → g < end → frame_used p.bitmap g ≡ true)
      → out ≡ (0, p)
      → Allocated p i end out

module _ (p : Pmm) where
  later :
      (i g : ℕ)
      → frame_used p.bitmap i ≡ true
      → i ≤ g
      → (i + 1 ≤ g → frame_used p.bitmap g ≡ true)
      → frame_used p.bitmap g ≡ true
  later i g u le rest = grind arith

  skip :
      (i end : ℕ) (out : ℕ × Pmm)
      → frame_used p.bitmap i ≡ true
      → Allocated p (i + 1) end out
      → Allocated p i end out
  skip i end out u (got f lo hi fr before e) =
      got f (omega arith) hi fr (λ g a b. later i g u a (λ c. before g c b)) e
  skip i end out u (out_of_memory before e) =
      out_of_memory (λ g a b. later i g u a (λ c. before g c b)) e

  alloc_from-Allocated : (n i end : ℕ) → i + n ≡ end → Allocated p i end (alloc_from n i p)
  unfolding alloc_from
  alloc_from-Allocated zero i end e = out_of_memory (λ g a b. absurd (omega arith)) refl
  alloc_from-Allocated (suc n) i end e = elim (Bool-cases (frame_used p.bitmap i)) [
    | inl u ↦ rw u (skip i end _ u (alloc_from-Allocated n (i + 1) end (omega arith)))
    | inr fr ↦ rw fr (got i (omega arith) (omega arith) fr (λ g a b. absurd (omega arith)) refl)
  ]

  -- `pmm_alloc_frame` takes the lowest free frame and returns its address, or returns 0 and changes
  -- nothing if every frame is in use.
  pub pmm_alloc_frame-Allocated : Allocated p 0 p.total_frames (pmm_alloc_frame p)
  unfolding pmm_alloc_frame
  pmm_alloc_frame-Allocated = alloc_from-Allocated p.total_frames 0 p.total_frames (omega arith)

pub taken-IsPmm :
    {p : Pmm} (f : ℕ)
    → f < p.total_frames
    → frame_used p.bitmap f ≡ false
    → IsPmm p
    → IsPmm (taken f p)
taken-IsPmm {p} f lt fr v = record {
  counted =
      ground (
        arith,
        count-mark_used p.bitmap f p.total_frames fr,
        count_used-le p.bitmap p.total_frames,
      );
  addressed = v.addressed;
  reserved = ground (arith, used-mark_used p.bitmap f 0);
}

-- In a state with a right counter, frame 0 in use and at most 2^20 frames, an allocation leaves
-- such a state. It returns 0 if no frame is free; otherwise the address of a whole frame that was
-- free, and is in use from then on.
pub pmm_alloc_frame-IsPmm :
    {p : Pmm}
    → IsPmm p
    → IsPmm (pmm_alloc_frame p).1
      × (((pmm_alloc_frame p).0 ≡ 0) × ((g : ℕ) → g < p.total_frames → frame_used p.bitmap g ≡ true)
          ⊎ ((f : ℕ) × ((pmm_alloc_frame p).0 ≡ f * page_size)
              × (0 < f)
              × (frame_used p.bitmap f ≡ false)
              × (frame_used (pmm_alloc_frame p).1.bitmap f ≡ true)))
pmm_alloc_frame-IsPmm {p} v = elim (pmm_alloc_frame-Allocated p) [
  | got f lo hi fr before e ↦ rw e (
    taken-IsPmm f hi fr v,
    inr (
      f,
      omega (arith, v.addressed),
      ground (arith, v.reserved),
      fr,
      ground (arith, used-mark_used p.bitmap f f),
    ),
  )
  | out_of_memory before e ↦ rw e (v, inl (refl, λ g lt. before g (omega arith) lt))
]

freed-IsPmm :
    {p : Pmm} (f : ℕ)
    → f < p.total_frames
    → 0 < f
    → frame_used p.bitmap f ≡ true
    → IsPmm p
    → IsPmm (record p {
      bitmap = mark_free f p.bitmap;
      used_frames = (p.used_frames + 2 ^ 32 - 1) % 2 ^ 32;
    })
freed-IsPmm {p} f lt pos_f u v = record {
  counted =
      ground
        (arith, count-mark_free p.bitmap f p.total_frames u, count_used-le p.bitmap p.total_frames);
  addressed = v.addressed;
  reserved = ground (arith, used-mark_free p.bitmap f 0);
}

-- In a state with a right counter, frame 0 in use and at most 2^20 frames, freeing an address
-- behind the first page leaves such a state, in which the frame of the address is free and every
-- other frame is as it was.
pub pmm_free_frame-IsPmm :
    {p : Pmm} (phys : ℕ)
    → 4096 ≤ phys
    → IsPmm p
    → IsPmm (pmm_free_frame phys p)
      × ((g : ℕ)
          → g < p.total_frames
          → frame_used (pmm_free_frame phys p).bitmap g
            ≡ (if g == phys / page_size then false else frame_used p.bitmap g))
unfolding pmm_free_frame
pmm_free_frame-IsPmm {p} phys h v =
    let f = phys / page_size in
    elim (Bool-cases (leb p.total_frames f)) [
      | inl beyond ↦ rw beyond (v, λ g lt. ground arith)
      | inr within ↦ rw within (elim (Bool-cases (frame_used p.bitmap f)) [
        | inl u ↦
            rw u
              (freed-IsPmm f (ground arith) (omega arith) u v, λ g lt. used-mark_free p.bitmap f g)
        | inr fr ↦ rw fr (v, λ g lt. ground arith)
      ])
    ]

count-congr :
    (m n : ℕ → ℕ) (k : ℕ)
    → ((g : ℕ) → g < k → frame_used m g ≡ frame_used n g)
    → count_used m k ≡ count_used n k
unfolding count_used
count-congr m n zero h = refl
count-congr m n (suc k) h = ground (arith, h k, count-congr m n k (λ g lt. h g (omega arith)))

pub total-pmm_free_frame :
    (phys : ℕ) (p : Pmm) → (pmm_free_frame phys p).total_frames ≡ p.total_frames
unfolding pmm_free_frame
total-pmm_free_frame phys p = ground arith

same_frames :
    (p : Pmm) {b : Bool} (f : ℕ)
    → frame_used p.bitmap f ≡ false
    → (g a : ℕ) → a / page_size ≡ f
    → b ≡ (if g == a / page_size then false else frame_used (mark_used f p.bitmap) g)
    → b ≡ frame_used p.bitmap g
same_frames p f fr g a at h = ground (arith, used-mark_used p.bitmap f g)

restored :
    {p : Pmm} (f : ℕ)
    → f < p.total_frames
    → frame_used p.bitmap f ≡ false
    → IsPmm p
    → let q = pmm_free_frame (f * page_size % 2 ^ 32) (taken f p) in
      ((g : ℕ) → g < p.total_frames → frame_used q.bitmap g ≡ frame_used p.bitmap g)
      × (q.used_frames ≡ p.used_frames)
restored {p} f lt fr v =
    let a = f * page_size % 2 ^ 32 in
    let pos_f : 0 < f = ground (arith, v.reserved) in
    let q = pmm_free_frame a (taken f p) in
    let (w, frames) = pmm_free_frame-IsPmm a (omega (arith, v.addressed)) (taken-IsPmm f lt fr v) in
    let at : a / page_size ≡ f = omega (arith, v.addressed) in
    let same = λ (g : ℕ) (l : g < p.total_frames). same_frames p f fr g a at (frames g l) in
    (
      same,
      w.counted
          ∙ ap (count_used q.bitmap) (total-pmm_free_frame a (taken f p))
          ∙ count-congr q.bitmap p.bitmap p.total_frames same
          ∙ sym v.counted,
    )

-- In a state with a right counter, frame 0 in use and at most 2^20 frames, freeing the address
-- that a successful allocation returned gives back the frames and the counter that there were
-- before it.
pub pmm_free_frame-pmm_alloc_frame :
    {p : Pmm}
    → IsPmm p
    → (pmm_alloc_frame p).0 ≢ 0
    → let q = pmm_free_frame (pmm_alloc_frame p).0 (pmm_alloc_frame p).1 in
      ((g : ℕ) → g < p.total_frames → frame_used q.bitmap g ≡ frame_used p.bitmap g)
      × (q.used_frames ≡ p.used_frames)
pmm_free_frame-pmm_alloc_frame {p} v ne = elim (pmm_alloc_frame-Allocated p) [
  | out_of_memory before e ↦ absurd (ne (rw e refl))
  | got f lo hi fr before e ↦ rw e (restored f hi fr v)
]
