-- ===== src/Heap/Total.antt =====
-- kmalloc of src/heap.c over a free list that is a chain.
use os_itsc.Base.{
  ℕ, ◌+◌, ◌-◌, ◌^◌, ◌≤◌, ◌<◌, ◌≡◌, refl, sym, ap, ◌∙◌, inl, inr, true, false, Option, none, some,
  Returns, returns, ltb, leb, ◌==◌, if◌then◌else◌, Bool-cases, eq_refl, arith,
}
use os_itsc.Heap.{
  word, null, header_size, align, align_up, Heap, add32, sub32, header_to_payload, relink,
  split_block,
}
use os_itsc.Heap.Calls.{walk_fuel, unlink, count_up, bump_alloc, kmalloc_sized, kmalloc}
use os_itsc.Heap.Chain.{
  end_of, Chain, over, link, IsHeap, lower, widen, behind, forget, apart, above, Walk, stop, step,
  Search, no_fit, fits, find_from-Search, before_from_ends, avoids, ahead, reached_end, skip,
}

-- The list without the block of `b`, whose own next is NULL.
record Cut (b : ℕ) (s t : Heap) : Type 0 where
  chain : Chain t.mem s.heap_bump b (end_of b (s.mem b)) s.heap_start t.free_list
  last : (t.mem b).next ≡ 0
  size_kept : (t.mem b).size ≡ (s.mem b).size
  start_kept : t.heap_start ≡ s.heap_start
  end_kept : t.heap_end ≡ s.heap_end
  bump_kept : t.heap_bump ≡ s.heap_bump

unlinked :
    {s : Heap} {prev cur : ℕ}
    → 0 < s.heap_start
    → {c : ℕ} → s.free_list ≡ c
    → Chain s.mem s.heap_bump 0 0 s.heap_start c
    → Walk s.mem prev cur 0 c
    → 0 < cur
    → Cut cur s (unlink prev cur s)
unfolding unlink
unlinked r e over stop z = absurd (omega arith)
unlinked {s} {prev} {cur} r e (link a l h n rest) stop z = record {
  chain =
      apart cur _ (omega arith) (omega arith)
        (apart cur _ (omega arith) (omega arith) (lower (omega arith) (behind (omega arith) rest)));
  last = rw (eq_refl cur) refl;
  size_kept = rw (eq_refl cur) refl;
  start_kept = refl;
  end_kept = refl;
  bump_kept = refl;
}
unlinked r e over (step nz w) z = absurd (ground arith)
unlinked {s} {prev} {cur} r e (link a l h n rest) (step nz w) z =
    let (le, far, beyond) = ahead w rest (omega arith) z in
    let pz : (prev == null) ≡ false = ground arith in
    let off : (cur == prev) ≡ false = ground arith in
    rw pz record {
      chain =
          apart cur _ (omega arith) (omega arith)
            (apart cur _ (omega arith) (omega arith) (rw e (skip w refl rest a l h z)));
      last = rw (eq_refl cur) refl;
      size_kept = rw (eq_refl cur, off) refl;
      start_kept = refl;
      end_kept = refl;
      bump_kept = refl;
    }

-- With a header that no header of the list has as the next one, nothing is linked again.
relinks_nothing :
    {s : Heap} {b y : ℕ} (fuel q : ℕ) {hi lo : ℕ}
    → 0 < b
    → b < y
    → Chain s.mem hi b y lo s.free_list
    → hi - lo < fuel
    → relink fuel b q s ≡ some s
unfolding relink
relinks_nothing {s} {b} fuel q z l v f =
    rw (avoids z l v, before_from_ends fuel s.free_list z l v f) refl

-- A state with the list of another heap, where its blocks avoid one.
pub as_heap :
    {s : Heap} (t : Heap) {x y : ℕ}
    → IsHeap s
    → t.heap_start ≡ s.heap_start
    → t.heap_end ≡ s.heap_end
    → t.heap_bump ≡ s.heap_bump
    → Chain t.mem s.heap_bump x y s.heap_start t.free_list
    → IsHeap t
as_heap t v start end bump c = record {
  real = rw start v.real;
  room = rw (bump, end) v.room;
  addressed = rw end v.addressed;
  chain = rw (start, bump) (forget c);
}

relink-IsHeap :
    {b y : ℕ} {s : Heap} (t : Heap) (fuel q : ℕ)
    → IsHeap s
    → t.heap_start ≡ s.heap_start
    → t.heap_end ≡ s.heap_end
    → t.heap_bump ≡ s.heap_bump
    → 0 < b
    → b < y
    → Chain t.mem s.heap_bump b y s.heap_start t.free_list
    → s.heap_bump - s.heap_start < fuel
    → Returns IsHeap (relink fuel b q t)
relink-IsHeap t fuel q r start end bump z l v f =
    rw (relinks_nothing {s = t} fuel q z l v f) (returns (as_heap t r start end bump v))

-- Where the rest of a block that is split begins: in that block.
rest_inside :
    (b asize size hi : ℕ)
    → 0 < b
    → hi < word
    → b + header_size + size ≤ hi
    → asize ≤ size
    → leb (header_size + align) (sub32 size asize) ≡ true
    → (b ≤ add32 (header_to_payload b) asize)
      × (add32 (header_to_payload b) asize < b + header_size + size)
unfolding header_to_payload
rest_inside b asize size hi z h e a big =
    let some_left : asize < size = ground arith in (omega arith, omega arith)

split-IsHeap :
    {b : ℕ} {s t : Heap} (fuel asize : ℕ)
    → IsHeap s
    → 0 < b
    → end_of b (s.mem b) ≤ s.heap_bump
    → asize ≤ (s.mem b).size
    → Cut b s t
    → s.heap_bump - s.heap_start < fuel
    → Returns IsHeap (split_block fuel b asize t)
unfolding split_block
split-IsHeap {b} {s} {t} fuel asize r z e a cut f =
    elim (Bool-cases (leb (header_size + align) (sub32 (t.mem b).size asize))) [
      | inl big ↦
          let (lo, hi) =
            rest_inside b asize (s.mem b).size s.heap_bump z (omega (arith, r.room, r.addressed)) e
              a (ap (λ n. leb (header_size + align) (sub32 n asize)) (sym cut.size_kept) ∙ big) in
          rw big (
            relink-IsHeap _ fuel _ r cut.start_kept cut.end_kept cut.bump_kept z (omega arith)
              (apart b _ (omega arith) (omega arith)
                (apart b _ (omega arith) (omega arith) (apart _ _ lo hi cut.chain)))
              f)
      | inr small ↦
          rw (small, relinks_nothing {s = t} fuel (t.mem b).next z (omega arith) cut.chain f)
            (returns (
              as_heap _ r cut.start_kept cut.end_kept cut.bump_kept (
                apart b _ (omega arith) (omega arith)
                  (apart b _ (omega arith) (omega arith) cut.chain))))
    ]

-- Taking a block that the search has found.
taken-IsHeap :
    {s : Heap} {prev cur : ℕ} (fuel asize : ℕ)
    → IsHeap s
    → Walk s.mem prev cur 0 s.free_list
    → 0 < cur
    → asize ≤ (s.mem cur).size
    → s.heap_bump - s.heap_start < fuel
    → Returns IsHeap (split_block fuel cur asize (unlink prev cur s))
taken-IsHeap {s} fuel asize v w z a f =
    split-IsHeap fuel asize v z (reached_end w v.chain z) a (unlinked v.real refl v.chain w z) f

-- A size whose block does not run past the address space from an address in its lower half.
abbrev pub NoWrap : ℕ → Type 0
NoWrap size = size + 64 < 2 ^ 31

pub aligned_near : (x : ℕ) → x + align < word → (x ≤ align_up x) × (align_up x < x + align)
unfolding align_up
aligned_near x h = (omega arith, omega arith)

bump-IsHeap :
    (size : ℕ) (s : Heap) → NoWrap size → IsHeap s → IsHeap (bump_alloc (align_up size) s).1
unfolding bump_alloc
bump-IsHeap size s w v =
    let asize = align_up size in
    let (near, far) = aligned_near size (omega arith) in
    let (from_here, to_here) = aligned_near s.heap_bump (omega (arith, v.room, v.addressed)) in
    let next = add32 (align_up s.heap_bump) (add32 header_size asize) in
    let flat : next ≡ align_up s.heap_bump + (header_size + asize) =
      omega (arith, v.room, v.addressed) in
    elim (Bool-cases (ltb s.heap_end next)) [
      | inl full ↦ rw full v
      | inr room ↦
          let below_end : next ≤ s.heap_end = at_most next s.heap_end room in
          rw room record {
            real = v.real;
            room = below_end;
            addressed = v.addressed;
            chain = widen (omega (arith, flat)) (above _ _ from_here v.chain);
          }
    ]
  where
    at_most : (a b : ℕ) → ltb b a ≡ false → a ≤ b
    at_most a b h = ground arith

abbrev Granted : Option (ℕ × Heap) → Type 0
Granted o = Returns (λ (out : ℕ × Heap). IsHeap out.1) o

counted :
    (p : ℕ) {o : Option Heap}
    → Returns IsHeap o
    → Granted (elim o [ none ↦ none | some t ↦ some (p, count_up t) ])
counted p (returns v) =
    returns (record { real = v.real; room = v.room; addressed = v.addressed; chain = v.chain })

searched :
    {s : Heap} {o : Option (ℕ × ℕ)} (fuel size : ℕ)
    → NoWrap size
    → IsHeap s
    → s.heap_bump - s.heap_start < fuel
    → Search (align_up size) s.mem 0 s.free_list o
    → Granted (elim o [
      | none ↦ none
      | some (prev, found) ↦
          if found == null
          then some (bump_alloc (align_up size) s)
          else (elim (split_block fuel found (align_up size) (unlink prev found s)) [
            | none ↦ none
            | some t ↦ some (header_to_payload found, count_up t)
          ])
    ])
searched {s} fuel size w v f no_fit = returns (bump-IsHeap size s w v)
searched {s} fuel size w v f (fits {prev} {cur} z a k) =
    let nz : (cur == null) ≡ false = ground arith in
    rw nz (counted _ (taken-IsHeap fuel (align_up size) v k z a f))

-- Over a free list whose blocks lie in the heap, one behind the other and apart, `kmalloc` of a size
-- below 2^31 - 64 ends within the fuel of its walks, and leaves such a list,
-- also where it gives NULL.
pub kmalloc-IsHeap :
    (size : ℕ) (s : Heap)
    → NoWrap size
    → IsHeap s
    → Returns (λ (out : ℕ × Heap). IsHeap out.1) (kmalloc size s)
unfolding kmalloc kmalloc_sized
kmalloc-IsHeap size s w v = elim (Bool-cases (size == 0)) [
  | inl nothing ↦ rw nothing (returns v)
  | inr some_bytes ↦ rw some_bytes (
      searched (walk_fuel s) size w v (omega (arith, v.room)) (
        find_from-Search (walk_fuel s) (align_up size) 0 s.free_list v.chain
          (omega (arith, v.room))))
]
