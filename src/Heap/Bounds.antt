-- ===== src/Heap/Bounds.antt =====
-- kmalloc of src/heap.c on an empty free list, and the merging of blocks.
use os_itsc.Base.{
  ℕ, zero, suc, ◌+◌, ◌-◌, ◌%◌, ◌≤◌, ◌<◌, ◌≡◌, ◌≢◌, refl, ap, ◌∙◌, ◌⊎◌, inl, inr, false, some, ltb,
  ltb→lt, ltb→ge, ge→ltb, ◌==◌, if◌then◌else◌, update, Bool-cases, arith,
}
use os_itsc.Heap.{
  word, null, header_size, align_up, Header, Heap, add32, find_from, merge_next, merge_prev,
}
use os_itsc.Heap.Calls.{walk_fuel, count_up, bump_alloc, kmalloc_sized, kmalloc}

-- The next multiple of eight, where it is a word.
pub align_up_bounds :
    (x : ℕ) → x + 7 < word → (align_up x % 8 ≡ 0) × (x ≤ align_up x) × (align_up x < x + 8)
unfolding align_up
align_up_bounds x h = omega arith

-- Headers at multiples of eight, with sizes that are multiples of eight, are not merged when a
-- block is freed: a block ends four bytes short of the next multiple, since a header takes twelve.
merge_never :
    (m : ℕ → Header) (prev b : ℕ)
    → prev % 8 ≡ 0
    → b % 8 ≡ 0
    → (m prev).size % 8 ≡ 0
    → (m b).size % 8 ≡ 0
    → (m b).next % 8 ≡ 0
    → (merge_next b m ≡ m) × (merge_prev prev b m ≡ m)
unfolding merge_next merge_prev
merge_never m prev b hp hb sp sb nb =
    let no_next : (add32 (add32 b header_size) (m b).size == (m b).next) ≡ false = ground arith in
    let no_prev : (add32 (add32 prev header_size) (m prev).size == b) ≡ false = ground arith in
    (ground arith, ground arith)

find_empty :
    (fuel asize : ℕ) (m : ℕ → Header)
    → 0 < fuel
    → find_from fuel asize m null null ≡ some (null, null)
unfolding find_from
find_empty zero asize m h = absurd (omega arith)
find_empty (suc fuel) asize m h = refl

sized_empty :
    (asize : ℕ) (s : Heap) → s.free_list ≡ null → kmalloc_sized asize s ≡ some (bump_alloc asize s)
unfolding kmalloc_sized
sized_empty asize s e =
    let found : find_from (walk_fuel s) asize s.mem null s.free_list ≡ some (null, null) =
      ap (find_from (walk_fuel s) asize s.mem null) e
      ∙ find_empty (walk_fuel s) asize s.mem (omega arith) in
    rw (found, kmalloc_sized) refl

kmalloc_empty :
    (size : ℕ) (s : Heap)
    → s.free_list ≡ null
    → 0 < size
    → kmalloc size s ≡ some (bump_alloc (align_up size) s)
unfolding kmalloc
kmalloc_empty size s e p =
    let sized : (size == 0) ≡ false = ground arith in rw sized (sized_empty (align_up size) s e)

-- The state after the allocation of a block of `n` bytes at `h`, with the bump pointer at `b`.
abbrev pub bumped : ℕ → ℕ → ℕ → Heap → Heap
bumped h n b s = count_up (record s {
  heap_bump = b;
  mem = update s.mem h (record { size = n; next = null; free = false });
})

bump_alloc_end :
    (n b : ℕ) (s : Heap)
    → align_up s.heap_bump + header_size < word
    → add32 (align_up s.heap_bump) (add32 header_size n) ≡ b
    → bump_alloc n s ≡ (
        if ltb s.heap_end b
        then (null, s)
        else (align_up s.heap_bump + header_size, bumped (align_up s.heap_bump) n b s))
unfolding bump_alloc
bump_alloc_end n b s h e = ground arith

-- With an empty free list, a request that is not zero and whose addresses do not wrap gets the
-- next twelve bytes for the header and the aligned size behind it, within the heap, and no other
-- header changes; or it fails and changes nothing, if the heap ends before. The pointer returned
-- is four past a multiple of eight.
kmalloc_bump :
    (size : ℕ) (s : Heap)
    → s.free_list ≡ null
    → 0 < size
    → size + 7 < word
    → s.heap_bump + 7 < word
    → align_up s.heap_bump + header_size + align_up size < word
    → let h = align_up s.heap_bump in
      let n = align_up size in
      (kmalloc size s ≡ some (null, s)) × (s.heap_end < h + header_size + n)
      ⊎ ((t : Heap) × (kmalloc size s ≡ some (h + header_size, t))
          × (t.heap_bump ≡ h + header_size + n)
          × (t.heap_bump ≤ s.heap_end)
          × ((t.mem h).size ≡ n)
          × (size ≤ n)
          × ((h + header_size) % 8 ≡ 4)
          × ((a : ℕ) → a ≢ h → t.mem a ≡ s.mem a))
kmalloc_bump size s e p w b fit =
    let h = align_up s.heap_bump in
    let n = align_up size in
    let end = h + header_size + n in
    let (h8, above, near) = align_up_bounds s.heap_bump b in
    let (n8, holds, close) = align_up_bounds size w in
    let got =
      kmalloc_empty size s e p ∙ ap some (bump_alloc_end n end s (omega arith) (omega arith)) in
    elim (Bool-cases (ltb s.heap_end end)) [
      | inl over ↦ inl (rw over at got, ltb→lt s.heap_end end over)
      | inr within ↦ inr (
        bumped h n end s,
        rw within at got,
        refl,
        ltb→ge s.heap_end end within,
        ground arith,
        holds,
        omega arith,
        λ a ne. ground arith,
      )
    ]

-- With an empty free list, a request whose end alone wraps past the address space, to the end of
-- the heap or before it, is granted: the block is recorded with its aligned size, and the bump
-- pointer comes to lie below the pointer that is returned.
pub kmalloc_wraps :
    (size : ℕ) (s : Heap)
    → s.free_list ≡ null
    → 0 < size
    → size + 7 < word
    → s.heap_bump + 7 < word
    → align_up s.heap_bump + header_size < word
    → word ≤ align_up s.heap_bump + header_size + align_up size
    → align_up s.heap_bump + header_size + align_up size ≤ word + s.heap_end
    → (t : Heap) × (kmalloc size s ≡ some (align_up s.heap_bump + header_size, t))
      × (t.heap_bump < align_up s.heap_bump + header_size)
      × ((t.mem (align_up s.heap_bump)).size ≡ align_up size)
kmalloc_wraps size s e p w b h lo hi =
    let at = align_up s.heap_bump in
    let n = align_up size in
    let end = at + header_size + n - word in
    let (n8, holds, close) = align_up_bounds size w in
    let got = kmalloc_empty size s e p ∙ ap some (bump_alloc_end n end s h (omega arith)) in
    let granted : ltb s.heap_end end ≡ false = ge→ltb s.heap_end end (omega arith) in
    (bumped at n end s, rw granted at got, omega arith, ground arith)
