-- ===== src/Pmm/Tests.antt =====
-- The frame allocator at a concrete state.
use os_itsc.Base.{ℕ, ◌+◌, ◌≤◌, ltb, ◌*◌, ◌<◌, ◌≡◌, ◌≢◌, ◌⊎◌, refl, true, false, arith}
use os_itsc.Pmm.Init.{pmm_init-IsPmm}
use os_itsc.Pmm.{
  bitmap_bytes, pmm_init, Pmm, page_size, frame_used, pmm_alloc_frame, pmm_free_frame,
}
use os_itsc.Pmm.Count.{count_used}
use os_itsc.Pmm.Frames.{IsPmm, pmm_alloc_frame-IsPmm, pmm_free_frame-pmm_alloc_frame}

-- Four frames, of which the two lowest are in use.
abbrev four_frames : Pmm
four_frames = record { base = 0x1000; bitmap = λ _. 3; total_frames = 4; used_frames = 2 }

four_frames-IsPmm : IsPmm four_frames
unfolding count_used frame_used
four_frames-IsPmm = record { counted = refl; addressed = omega arith; reserved = refl }

pmm_alloc_frame-IsPmm_example :
    IsPmm (pmm_alloc_frame four_frames).1
    × (((pmm_alloc_frame four_frames).0 ≡ 0)
          × ((g : ℕ) → g < 4 → frame_used four_frames.bitmap g ≡ true)
        ⊎ ((f : ℕ) × ((pmm_alloc_frame four_frames).0 ≡ f * page_size)
            × (0 < f)
            × (frame_used four_frames.bitmap f ≡ false)
            × (frame_used (pmm_alloc_frame four_frames).1.bitmap f ≡ true)))
pmm_alloc_frame-IsPmm_example = pmm_alloc_frame-IsPmm four_frames-IsPmm

alloc_gives : (pmm_alloc_frame four_frames).0 ≢ 0
unfolding pmm_alloc_frame
alloc_gives e = absurd (omega (arith, e))

pmm_free_frame-pmm_alloc_frame_example :
    let q = pmm_free_frame (pmm_alloc_frame four_frames).0 (pmm_alloc_frame four_frames).1 in
    ((g : ℕ) → g < 4 → frame_used q.bitmap g ≡ frame_used four_frames.bitmap g)
    × (q.used_frames ≡ 2)
pmm_free_frame-pmm_alloc_frame_example =
    pmm_free_frame-pmm_alloc_frame four_frames-IsPmm alloc_gives

-- The call of `kernel_main`: 32 MB, and a heap that ends at 0x219000.
pmm_init-IsPmm_example :
    let q = pmm_init 0x8000 0x21_9000 four_frames in
    IsPmm q
    × ((g : ℕ) → g < q.total_frames → frame_used q.bitmap g ≡ ltb g q.used_frames)
    × (0x21_9000 + bitmap_bytes q.total_frames ≤ q.used_frames * page_size)
pmm_init-IsPmm_example =
    pmm_init-IsPmm 0x8000 0x21_9000 four_frames refl (omega arith) (omega arith) (omega arith)
      (omega arith)
