-- ===== src/Vmm/Tests.antt =====
-- Page directories at a concrete state.
use mathlib.Core.Bool.{false≢true}
use os_itsc.Base.{refl, arith, Returns, ◌⊎◌}
use os_itsc.Pmm.{frame_used, pmm_init}
use os_itsc.Pmm.Frames.{IsPmm}
use os_itsc.Pmm.Init.{pmm_init-IsPmm}
use os_itsc.Pmm.Count.{count_used}
use os_itsc.Vmm.{Vmm, vmm_init, vmm_map_page, vmm_unmap_page}
use os_itsc.Vmm.Walk.{IsSpace}
use os_itsc.Vmm.Map.{Mapped, vmm_map_page-Mapped}
use os_itsc.Vmm.Identity.{IsIdentity, IsFull, vmm_init-IsIdentity}
use os_itsc.Vmm.Unmap.{Unmapped, vmm_unmap_page-IsSpace}

-- An empty directory in frame 1 of four.
abbrev one_directory : Vmm
one_directory = record {
  kernel_pd = 0x1000;
  frames = record { base = 0x2000; bitmap = λ _. 3; total_frames = 4; used_frames = 2 };
  page = λ _ _. 0;
}

one_directory-IsSpace : IsSpace 0x1000 one_directory
unfolding count_used frame_used
one_directory-IsSpace = record {
  frames_ok = record { counted = refl; addressed = omega arith; reserved = refl };
  aligned = refl;
  directory = refl;
  directory_real = omega arith;
  tables = λ i hi h. absurd (false≢true h);
  real = λ i hi h. absurd (false≢true h);
  apart = λ i hi h. absurd (false≢true h);
  distinct = λ i j hi hj h g d. absurd (false≢true h);
}

vmm_map_page-Mapped_example :
    IsSpace 0x1000 (vmm_map_page 0x1000 0x40001234 0x3000 7 one_directory)
    × Mapped 0x1000 0x40001234 0x3000 one_directory
        (vmm_map_page 0x1000 0x40001234 0x3000 7 one_directory)
vmm_map_page-Mapped_example =
    vmm_map_page-Mapped 0x40001234 0x3000 7 one_directory-IsSpace (omega arith)

-- The directory after one page is mapped.
abbrev one_page : Vmm
one_page = vmm_map_page 0x1000 0x40001234 0x3000 7 one_directory

one_page-IsSpace : IsSpace 0x1000 one_page
one_page-IsSpace = (vmm_map_page-Mapped 0x40001234 0x3000 7 one_directory-IsSpace (omega arith)).0

vmm_unmap_page-IsSpace_example :
    IsSpace 0x1000 (vmm_unmap_page 0x1000 0x40001234 one_page)
    × Unmapped 0x1000 0x40001234 one_page (vmm_unmap_page 0x1000 0x40001234 one_page)
vmm_unmap_page-IsSpace_example = vmm_unmap_page-IsSpace 0x40001234 one_page-IsSpace (omega arith)

-- The machine of `kernel_main`: 32 MB, and a heap that ends at 0x219000.
abbrev booting : Vmm
booting = record one_directory { frames = pmm_init 0x8000 0x21_9000 one_directory.frames }

booting-IsPmm : IsPmm booting.frames
booting-IsPmm =
    (pmm_init-IsPmm 0x8000 0x21_9000 one_directory.frames refl (omega arith) (omega arith)
      (omega arith) (omega arith)).0

vmm_init-IsIdentity_example :
    Returns (λ t. IsIdentity t.kernel_pd 0x2000 t ⊎ IsFull t.frames) (vmm_init 0x8000 booting)
vmm_init-IsIdentity_example = vmm_init-IsIdentity 0x8000 booting booting-IsPmm (omega arith)
