-- ===== src/Heap/Calls.antt =====
-- kmalloc, kfree and the accounting functions of src/heap.c.
use os_itsc.Base.{
  ℕ, zero, suc, ◌+◌, ◌-◌, ◌%◌, true, false, ◌||◌, Option, none, some, ltb, leb, ◌==◌, if◌then◌else◌,
  update,
}
use os_itsc.Heap.{
  word, null, header_size, align_up, Header, Heap, add32, sub32, header_to_payload,
  payload_to_header, set_next, set_free, find_from, split_block, insert_and_coalesce,
}

-- The fuel of every walk: more than the addresses of the heap.
abbrev pub walk_fuel : Heap → ℕ
walk_fuel s = s.heap_end - s.heap_start + 2

-- `if (prev) prev->next = found->next; else free_list = found->next;`
-- `found->free = 0; found->next = NULL;`
unfoldable pub unlink : ℕ → ℕ → Heap → Heap
unlink prev found s =
    let tail = (s.mem found).next in
    let t =
      if prev == null
      then record s { free_list = tail }
      else record s { mem = set_next prev tail s.mem } in
    record t { mem = set_next found null (set_free found false t.mem) }

abbrev pub count_up : Heap → Heap
count_up s = record s { alloc_count = (s.alloc_count + 1) % word }

-- The second half of `kmalloc`, past the free list. The first result is the pointer returned.
unfoldable pub bump_alloc : ℕ → Heap → ℕ × Heap
unfolding header_to_payload
bump_alloc asize s =
    let need = add32 header_size asize in
    let h = align_up s.heap_bump in
    if ltb s.heap_end (add32 h need) then (null, s) else (
      header_to_payload h,
      count_up (record s {
        heap_bump = add32 h need;
        mem = update s.mem h (record { size = asize; next = null; free = false });
      }),
    )

unfoldable pub kmalloc_sized : ℕ → Heap → Option (ℕ × Heap)
unfolding find_from unlink split_block bump_alloc header_to_payload
kmalloc_sized asize s = elim (find_from (walk_fuel s) asize s.mem null s.free_list) [
  | none ↦ none
  | some (prev, found) ↦
      if found == null
      then some (bump_alloc asize s)
      else (elim (split_block (walk_fuel s) found asize (unlink prev found s)) [
        | none ↦ none
        | some t ↦ some (header_to_payload found, count_up t)
      ])
]

unfoldable pub kmalloc : ℕ → Heap → Option (ℕ × Heap)
unfolding kmalloc_sized
kmalloc size s = if size == 0 then some (null, s) else kmalloc_sized (align_up size) s

abbrev pub count_down : Heap → Heap
count_down s = if ltb 0 s.alloc_count then record s { alloc_count = s.alloc_count - 1 } else s

unfoldable pub kfree : ℕ → Heap → Option Heap
unfolding payload_to_header insert_and_coalesce
kfree ptr s =
    let h = payload_to_header ptr in
    if ptr == null || (ltb h s.heap_start || leb s.heap_end h)
    then some s
    else (elim (insert_and_coalesce (walk_fuel s) h (record s { mem = set_free h true s.mem })) [
      | none ↦ none
      | some t ↦ some (count_down t)
    ])

unfoldable pub kheap_total_size : Heap → ℕ
kheap_total_size s = sub32 s.heap_end s.heap_start

-- The sum over the free list, with what is summed so far.
unfoldable pub free_sum_from : ℕ → (ℕ → Header) → ℕ → ℕ → Option ℕ
free_sum_from zero m cur acc = none
free_sum_from (suc fuel) m cur acc =
    let rest = free_sum_from fuel m (m cur).next ((acc + ((m cur).size + header_size)) % word) in
    if cur == null then some acc else rest

unfoldable pub kheap_used_size : Heap → Option ℕ
unfolding free_sum_from
kheap_used_size s = elim (free_sum_from (walk_fuel s) s.mem s.free_list 0) [
  | none ↦ none
  | some free_sum ↦
      let bump_used = sub32 s.heap_bump s.heap_start in
      some (if ltb free_sum bump_used then bump_used - free_sum else 0)
]

unfoldable pub kheap_free_size : Heap → Option ℕ
unfolding kheap_total_size kheap_used_size
kheap_free_size s = elim (kheap_used_size s) [
  | none ↦ none
  | some used ↦ some (sub32 (kheap_total_size s) used)
]

unfoldable pub kheap_alloc_count : Heap → ℕ
kheap_alloc_count s = s.alloc_count
