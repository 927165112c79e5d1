-- ===== src/Heap/Tests.antt =====
-- The heap at concrete states.
use os_itsc.Base.{
  ℕ, ◌+◌, ◌%◌, ◌≤◌, ◌<◌, ◌≡◌, refl, Option, [], none, some, true, false, Returns, ◌==◌,
  if◌then◌else◌, arith,
}
use os_itsc.Heap.{word, null, header_size, align_up, Heap, payload_to_header}
use os_itsc.Heap.Calls.{kmalloc, kfree, free_sum_from, kheap_used_size, kheap_free_size}
use os_itsc.Heap.Chain.{over, link, IsHeap}
use os_itsc.Heap.Total.{kmalloc-IsHeap}
use os_itsc.Heap.Demo.{Printed, heap_test}
use os_itsc.Heap.Freed.{IsGiven, kfree-IsHeap}
use os_itsc.Heap.Twice.{IsBlock, kfree_twice}
use os_itsc.Heap.Reuse.{kmalloc_loses, kmalloc-kfree}
use os_itsc.Heap.Bounds.{align_up_bounds, kmalloc_wraps}

-- The heap that the kernel sets up, from 2 MB to 4 MB.
abbrev fresh_heap : Heap
fresh_heap = record {
  heap_start = 0x20_0000;
  heap_end = 0x40_0000;
  heap_bump = 0x20_0000;
  free_list = 0;
  alloc_count = 0;
  mem = λ _. record { size = 0; next = 0; free = false };
}

align_up_bounds_example : (align_up 13 % 8 ≡ 0) × (13 ≤ align_up 13) × (align_up 13 < 21)
align_up_bounds_example = align_up_bounds 13 (omega arith)

-- The bounds that the requests below meet.
fits : align_up 0x20_0000 + header_size + align_up 100 < word
unfolding align_up
fits = omega arith

at_end : align_up 0x20_0000 + header_size < word
unfolding align_up
at_end = omega arith

past_end : word ≤ align_up 0x20_0000 + header_size + align_up 0xfff0_0000
unfolding align_up
past_end = omega arith

back_in : align_up 0x20_0000 + header_size + align_up 0xfff0_0000 ≤ word + 0x40_0000
unfolding align_up
back_in = omega arith

kmalloc_wraps_example :
    (t : Heap) × (kmalloc 0xfff0_0000 fresh_heap ≡ some (align_up 0x20_0000 + header_size, t))
    × (t.heap_bump < align_up 0x20_0000 + header_size)
    × ((t.mem (align_up 0x20_0000)).size ≡ align_up 0xfff0_0000)
kmalloc_wraps_example =
    kmalloc_wraps 0xfff0_0000 fresh_heap refl (omega arith) (omega arith) (omega arith) at_end
      past_end back_in

-- The heap with one free block of 104 bytes, and with that block given out.
abbrev one_block : Heap
one_block = record fresh_heap {
  heap_bump = 0x20_0078;
  free_list = 0x20_0000;
  mem = λ _. record { size = 104; next = 0; free = true };
}

abbrev one_given : Heap
one_given = record one_block { free_list = 0; alloc_count = 1 }

eight : align_up 8 ≡ 8
unfolding align_up
eight = refl

kmalloc_loses_example :
    (t : Heap) × (kmalloc 8 one_block ≡ some (0x20_000c, t))
    × (t.free_list ≡ null)
    × (t.heap_bump ≡ 0x20_0078)
    × ((t.mem 0x20_0000).size ≡ align_up 8)
kmalloc_loses_example =
    kmalloc_loses 8 0x20_0000 104 one_block
      (record {
        at = refl;
        there = omega arith;
        last = refl;
        bytes = refl;
        word_size = omega arith;
      })
      (omega arith) (omega (arith, eight))

kmalloc-kfree_example :
    (u : Heap) × (kfree 0x20_000c one_given ≡ some u)
    × ((t : Heap) × (kmalloc 8 u ≡ some (0x20_000c, t)) × (t.heap_bump ≡ 0x20_0078))
kmalloc-kfree_example =
    kmalloc-kfree 8 0x20_0000 one_given refl (omega arith) (omega arith) (omega arith) (omega arith)
      (omega arith) (omega arith) (omega (arith, eight))

-- A heap with two free blocks, and a block in use behind them.
abbrev two_blocks : Heap
two_blocks = record fresh_heap {
  heap_bump = 0x20_00b0;
  free_list = 0x20_0010;
  alloc_count = 1;
  mem = λ p.
      if p == 0x20_0010
      then record { size = 24; next = 0x20_0040; free = true }
      else record { size = 40; next = 0; free = p == 0x20_0040 };
}

two_blocks-IsHeap : IsHeap two_blocks
two_blocks-IsHeap = record {
  real = omega arith;
  room = omega arith;
  addressed = omega arith;
  chain =
      link (omega arith) (omega arith) (omega arith) refl
        (link (omega arith) (omega arith) (omega arith) refl over);
}

kmalloc-IsHeap_example : Returns (λ (out : ℕ × Heap). IsHeap out.1) (kmalloc 32 two_blocks)
kmalloc-IsHeap_example = kmalloc-IsHeap 32 two_blocks (omega arith) two_blocks-IsHeap

block-IsGiven : IsGiven (payload_to_header 0x20_0084) two_blocks
unfolding payload_to_header
block-IsGiven = record {
  below_bump = omega arith;
  away =
      link (omega arith) (omega arith) (omega arith) refl
        (link (omega arith) (omega arith) (omega arith) refl over);
}

kfree-IsHeap_example : Returns IsHeap (kfree 0x20_0084 two_blocks)
kfree-IsHeap_example = kfree-IsHeap 0x20_0084 two_blocks two_blocks-IsHeap block-IsGiven

given-IsBlock : IsBlock 0x20_008c fresh_heap
unfolding payload_to_header
given-IsBlock = record {
  real = omega arith;
  given = refl;
  low = omega arith;
  high = omega arith;
  within = omega arith;
  sized = omega arith;
}

kfree_twice_example :
    (t : Heap) × (kfree 0x20_008c fresh_heap ≡ some t)
    × (u : Heap) × (kfree 0x20_008c t ≡ some u)
    × ((fuel acc : ℕ) → free_sum_from fuel u.mem u.free_list acc ≡ none)
kfree_twice_example = kfree_twice 0x20_008c fresh_heap given-IsBlock refl

-- `heap_test` on a fresh heap leaves no block, and four bytes before a header in use.
abbrev left_over : Option (Unit {0} × Printed) → Option (ℕ × Option ℕ)
left_over none = none
left_over (some (_, (h, _))) = some (h.alloc_count, kheap_used_size h)

heap_test_leaves : left_over (heap_test (fresh_heap, [])) ≡ some (0, some 4)
unfolding heap_test kheap_used_size kheap_free_size kmalloc kfree align_up
heap_test_leaves = refl
