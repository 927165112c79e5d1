-- ===== src/Shell/Room.antt =====
-- The requests that the heap of src/heap.c grants with nothing freed.
use os_itsc.Base.{
  ℕ, zero, suc, ◌+◌, ◌*◌, ◌^◌, ◌≤◌, ◌<◌, ◌≡◌, refl, ap, ◌∙◌, false, Option, none, some, ltb, ◌==◌,
  arith,
}
use os_itsc.Allocator.{HasRoom}
use os_itsc.Heap.{null, header_size, align_up, Header, Heap, find_from, add32, header_to_payload}
use os_itsc.Heap.Calls.{walk_fuel, bump_alloc, kmalloc_sized, kmalloc}
use os_itsc.Heap.Total.{aligned_near}
use os_itsc.Shell.Run.{kernel_heap, give}

-- Nothing is freed, and what was never given out has 544 bytes for each of `j` requests.
pub data HeapRoom (j : ℕ) : Option Heap → Type 0 where
  heap_room :
      {s : Heap}
      → s.free_list ≡ null
      → s.heap_bump + j * 544 ≤ s.heap_end
      → s.heap_end ≤ 2 ^ 31
      → HeapRoom j (some s)

-- The block at the end of what was given out.
bumped :
    (j n : ℕ) (s : Heap)
    → n ≤ 512
    → s.heap_bump + suc j * 544 ≤ s.heap_end
    → s.heap_end ≤ 2 ^ 31
    → s.free_list ≡ null
    → (((bump_alloc (align_up n) s).0 == 0) ≡ false)
      × HeapRoom j (some (bump_alloc (align_up n) s).1)
unfolding bump_alloc header_to_payload
bumped j n s small room low none_free =
    let asize = align_up n in
    let (near, far) = aligned_near n (omega arith) in
    let (from_here, to_here) = aligned_near s.heap_bump (omega arith) in
    let next = add32 (align_up s.heap_bump) (add32 header_size asize) in
    let flat : next ≡ align_up s.heap_bump + (header_size + asize) = omega arith in
    let fits : ltb s.heap_end next ≡ false = ground (arith, flat) in
    let real : (header_to_payload (align_up s.heap_bump) == 0) ≡ false = ground arith in
    rw fits (real, heap_room none_free (omega (arith, flat)) low)

find_nothing :
    (fuel asize : ℕ) (m : ℕ → Header) → 0 < fuel → find_from fuel asize m null 0 ≡ some (null, null)
unfolding find_from
find_nothing zero asize m f = absurd (omega arith)
find_nothing (suc fuel) asize m f = refl

from_bump :
    (n : ℕ) (s : Heap) → 0 < n → s.free_list ≡ null → kmalloc n s ≡ some (bump_alloc (align_up n) s)
unfolding kmalloc kmalloc_sized
from_bump n s z e =
    let some_bytes : (n == 0) ≡ false = ground arith in
    let nothing : find_from (walk_fuel s) (align_up n) s.mem null s.free_list ≡ some (null, null) =
      ap (find_from (walk_fuel s) (align_up n) s.mem null) e
      ∙ find_nothing (walk_fuel s) (align_up n) s.mem (omega arith) in
    rw (some_bytes, kmalloc_sized, nothing) refl

pub kernel_heap-HasRoom : HasRoom kernel_heap HeapRoom
unfolding give
kernel_heap-HasRoom = record { gives = granted; fewer = less }
  where
    granted :
        (j n : ℕ) (h : Option Heap)
        → 0 < n
        → n ≤ 512
        → HeapRoom (suc j) h
        → (((give n h).0 == 0) ≡ false) × HeapRoom j (give n h).1
    granted j n none z l r = elim r [ ]
    granted j n (some s) z l (heap_room e room low) =
        rw (from_bump n s z e) (bumped j n s l room low e)

    less : (j : ℕ) (h : Option Heap) → HeapRoom (suc j) h → HeapRoom j h
    less j none r = elim r [ ]
    less j (some s) (heap_room e room low) = heap_room e (omega (arith, room)) low
