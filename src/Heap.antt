-- ===== src/Heap.antt =====
-- src/heap.c: the kernel heap, a bump allocator with a first-fit free list of block headers.
-- Addresses and sizes are 32-bit words; a header takes twelve bytes (size, next, free).
pub mod Calls
pub mod Demo
pub mod Chain
pub mod Total
pub mod Insert
pub mod Freed
pub mod Twice
pub mod Bounds
pub mod Reuse
pub mod Tests
use os_itsc.Base.{
  ℕ, zero, suc, ◌+◌, ◌-◌, ◌*◌, ◌/◌, ◌%◌, ◌^◌, Bool, true, false, ◌||◌, Option, none, some, ltb, leb,
  ◌==◌, if◌then◌else◌, update, not, ◌&&◌,
}

abbrev pub word : ℕ
word = 2 ^ 32

abbrev pub null : ℕ
null = 0

-- `sizeof(block_header_t)` for the 32-bit target that the Makefile builds.
abbrev pub header_size : ℕ
header_size = 12

abbrev pub align : ℕ
align = 8

-- `ALIGN_UP(x, ALIGN)`: the sum wraps, and the mask clears the three low bits.
unfoldable pub align_up : ℕ → ℕ
align_up x = (x + (align - 1)) % word / align * align

-- `block_header_t`
pub record Header : Type 0 where
  pub size : ℕ
  pub next : ℕ
  pub free : Bool

-- The static variables of heap.c, and the headers that stand in memory, by the address of the first of
-- their twelve bytes. Memory is one row of bytes, so a state stands for it as far as the headers in
-- use have no byte in common.
pub record Heap : Type 0 where
  pub heap_start : ℕ
  pub heap_end : ℕ
  pub heap_bump : ℕ
  pub free_list : ℕ
  pub alloc_count : ℕ
  pub mem : ℕ → Header

-- Pointer arithmetic wraps.
abbrev pub add32 : ℕ → ℕ → ℕ
add32 a b = (a + b) % word

abbrev pub sub32 : ℕ → ℕ → ℕ
sub32 a b = (a + word - b) % word

unfoldable pub header_to_payload : ℕ → ℕ
header_to_payload h = add32 h header_size

unfoldable pub payload_to_header : ℕ → ℕ
payload_to_header p = if p == null then null else sub32 p header_size

unfoldable pub kheap_init : ℕ → ℕ → Heap → Heap
kheap_init base size s = record s {
  heap_start = align_up base;
  heap_end = add32 base size;
  heap_bump = align_up base;
  free_list = null;
  alloc_count = 0;
}

-- `p->next = q`, `p->size = n`
abbrev pub set_next : ℕ → ℕ → (ℕ → Header) → ℕ → Header
set_next p q m = update m p (record (m p) { next = q })

abbrev pub set_size : ℕ → ℕ → (ℕ → Header) → ℕ → Header
set_size p n m = update m p (record (m p) { size = n })

abbrev pub set_free : ℕ → Bool → (ℕ → Header) → ℕ → Header
set_free p b m = update m p (record (m p) { free = b })

-- The walks along `next` run on fuel; `none` is a walk that the fuel does not see the end of.
-- `find_free_block`: the block before the one found, and the one found (null if there is none).
unfoldable pub find_from : ℕ → ℕ → (ℕ → Header) → ℕ → ℕ → Option (ℕ × ℕ)
find_from zero asize m prev cur = none
find_from (suc fuel) asize m prev cur =
    let rest = find_from fuel asize m cur (m cur).next in
    if cur == null
    then some (null, null)
    else if leb asize (m cur).size
    then some (prev, cur)
    else rest

-- `p = free_list; while (p && p->next != b) p = p->next;`
unfoldable pub before_from : ℕ → ℕ → (ℕ → Header) → ℕ → Option ℕ
before_from zero b m p = none
before_from (suc fuel) b m p =
    let rest = before_from fuel b m (m p).next in
    if p == null || (m p).next == b then some p else rest

-- `if (free_list == b) free_list = q; else { walk; if (p) p->next = q; }`
unfoldable pub relink : ℕ → ℕ → ℕ → Heap → Option Heap
unfolding before_from
relink fuel b q s =
    if s.free_list == b
    then some (record s { free_list = q })
    else (elim (before_from fuel b s.mem s.free_list) [
      | none ↦ none
      | some p ↦ some (if p == null then s else record s { mem = set_next p q s.mem })
    ])

unfoldable pub split_block : ℕ → ℕ → ℕ → Heap → Option Heap
unfolding relink header_to_payload
split_block fuel b asize s =
    let remaining = sub32 (s.mem b).size asize in
    if leb (header_size + align) remaining
    then (let newh = add32 (header_to_payload b) asize in
        let tail = (s.mem b).next in
        let m =
          update s.mem newh (record { size = remaining - header_size; next = tail; free = true }) in
        relink fuel b newh (record s { mem = set_next b null (set_size b asize m) }))
    else (elim (relink fuel b (s.mem b).next s) [
      | none ↦ none
      | some t ↦ some (record t { mem = set_free b false (set_next b null t.mem) })
    ])

-- `while (cur && cur < b) { prev = cur; cur = cur->next; }`
unfoldable pub place_from : ℕ → ℕ → (ℕ → Header) → ℕ → ℕ → Option (ℕ × ℕ)
place_from zero b m prev cur = none
place_from (suc fuel) b m prev cur =
    let rest = place_from fuel b m cur (m cur).next in
    if not (cur == null) && ltb cur b then rest else some (prev, cur)

-- The block that ends where the header behind it begins takes that one in.
unfoldable pub merge_next : ℕ → (ℕ → Header) → ℕ → Header
unfolding header_to_payload
merge_next b m =
    let n = (m b).next in
    if not (n == null) && (add32 (header_to_payload b) (m b).size == n)
    then set_next b (m n).next (set_size b (((m b).size + header_size + (m n).size) % word) m)
    else m

unfoldable pub merge_prev : ℕ → ℕ → (ℕ → Header) → ℕ → Header
unfolding header_to_payload
merge_prev prev b m =
    if not (prev == null) && (add32 (header_to_payload prev) (m prev).size == b)
    then set_next prev (m b).next
        (set_size prev (((m prev).size + header_size + (m b).size) % word) m)
    else m

unfoldable pub insert_and_coalesce : ℕ → ℕ → Heap → Option Heap
unfolding place_from merge_next merge_prev
insert_and_coalesce fuel b s =
    if s.free_list == null
    then some (record s { mem = set_next b null s.mem; free_list = b })
    else (elim (place_from fuel b s.mem null s.free_list) [
      | none ↦ none
      | some (prev, cur) ↦
          let m = set_next b cur s.mem in
          let linked =
            if prev == null
            then record s { mem = m; free_list = b }
            else record s { mem = set_next prev b m } in
          some (record linked { mem = merge_prev prev b (merge_next b linked.mem) })
    ])
