-- ===== src/Heap/Reuse.antt =====
-- kmalloc and kfree of src/heap.c on a free list of at most one block.
use os_itsc.Base.{
  ℕ, zero, suc, ◌+◌, ◌-◌, ◌≤◌, ◌<◌, ◌≡◌, refl, ap, ◌∙◌, inl, inr, true, false, Option, none, some,
  leb, ◌==◌, if◌then◌else◌, update, Bool-cases, arith,
}
use os_itsc.Heap.{
  word, null, header_size, align_up, Header, Heap, add32, sub32, header_to_payload,
  payload_to_header, find_from, before_from, relink, split_block, insert_and_coalesce, set_next,
  set_size, set_free,
}
use os_itsc.Heap.Calls.{walk_fuel, unlink, kmalloc_sized, kmalloc, kfree, count_up, count_down}

-- The free list is the block `b` alone, of `n` bytes.
pub record IsAlone (b n : ℕ) (s : Heap) : Type 0 where
  pub at : s.free_list ≡ b
  pub there : 0 < b
  pub last : (s.mem b).next ≡ null
  pub bytes : (s.mem b).size ≡ n
  pub word_size : n < word

find_first :
    (fuel asize b : ℕ) (m : ℕ → Header)
    → 0 < fuel
    → 0 < b
    → asize ≤ (m b).size
    → find_from fuel asize m null b ≡ some (null, b)
unfolding find_from
find_first zero asize b m f p h = absurd (omega arith)
find_first (suc fuel) asize b m f p h = ground arith

before_null : (fuel b : ℕ) (m : ℕ → Header) → 0 < fuel → before_from fuel b m null ≡ some null
unfolding before_from
before_null zero b m f = absurd (omega arith)
before_null (suc fuel) b m f = refl

relink_alone :
    (fuel b q : ℕ) (s : Heap) → 0 < fuel → 0 < b → s.free_list ≡ null → relink fuel b q s ≡ some s
unfolding relink
relink_alone fuel b q s f p e =
    let other : (s.free_list == b) ≡ false = ground arith in
    let walk : before_from fuel b s.mem s.free_list ≡ some null =
      ap (before_from fuel b s.mem) e ∙ before_null fuel b s.mem f in
    rw (other, walk, relink) refl

-- What `split_block` leaves of a block that is in no list.
data Shortened (b asize : ℕ) (s : Heap) : Option Heap → Type 0 where
  shortened :
      {t : Heap}
      → t.free_list ≡ null
      → t.heap_bump ≡ s.heap_bump
      → (t.mem b).size ≡ (if leb 20 (sub32 (s.mem b).size asize) then asize else (s.mem b).size)
      → Shortened b asize s (some t)

-- The headers after a split.
abbrev split_mem : ℕ → ℕ → Heap → ℕ → Header
split_mem b asize s =
    let rest : Header = record {
      size = sub32 (s.mem b).size asize - header_size;
      next = (s.mem b).next;
      free = true;
    } in
    set_next b null (set_size b asize (update s.mem (add32 (header_to_payload b) asize) rest))

split_alone :
    (fuel b asize : ℕ) (s : Heap)
    → 0 < fuel
    → 0 < b
    → s.free_list ≡ null
    → Shortened b asize s (split_block fuel b asize s)
unfolding split_block
split_alone fuel b asize s f p e = elim (Bool-cases (leb 20 (sub32 (s.mem b).size asize))) [
  | inl large ↦
      let newh = add32 (header_to_payload b) asize in
      rw (large, relink_alone fuel b newh (record s { mem = split_mem b asize s }) f p e)
        (shortened e refl (ground (arith, large)))
  | inr small ↦
      rw (small, relink_alone fuel b (s.mem b).next s f p e)
        (shortened e refl (ground (arith, small)))
]

-- The block given out is `b`, and no block is left in the list.
data Reused (b asize n : ℕ) (s : Heap) : Option (ℕ × Heap) → Type 0 where
  reused :
      {t : Heap}
      → t.free_list ≡ null
      → t.heap_bump ≡ s.heap_bump
      → (t.mem b).size ≡ (if leb 20 (n - asize) then asize else n)
      → Reused b asize n s (some (add32 b header_size, t))

given_out :
    {b asize n : ℕ} {s u : Heap} {o : Option Heap}
    → (u.mem b).size ≡ n
    → asize ≤ n
    → n < word
    → u.heap_bump ≡ s.heap_bump
    → Shortened b asize u o
    → Reused b asize n s (elim o [ none ↦ none | some t ↦ some (header_to_payload b, count_up t) ])
unfolding header_to_payload
given_out e le lt bump (shortened l m z) = reused l (m ∙ bump) (ground (arith, z))

sized-Reused :
    (asize b n : ℕ) (s : Heap)
    → IsAlone b n s
    → asize ≤ n
    → Reused b asize n s (kmalloc_sized asize s)
unfolding kmalloc_sized unlink
sized-Reused asize b n s v le =
    let found : find_from (walk_fuel s) asize s.mem null s.free_list ≡ some (null, b) =
      ap (find_from (walk_fuel s) asize s.mem null) v.at
      ∙ find_first (walk_fuel s) asize b s.mem (omega arith) v.there (omega (arith, v.bytes)) in
    let some_block : (b == null) ≡ false = ground (arith, v.there) in
    rw (found, kmalloc_sized, some_block)
      (given_out (ground (arith, v.bytes)) le v.word_size refl
        (split_alone (walk_fuel s) b asize (unlink null b s) (omega arith) v.there v.last))

kmalloc-Reused :
    (size b n : ℕ) (s : Heap)
    → IsAlone b n s
    → 0 < size
    → align_up size ≤ n
    → Reused b (align_up size) n s (kmalloc size s)
unfolding kmalloc
kmalloc-Reused size b n s v p le =
    let sized : (size == 0) ≡ false = ground arith in
    rw sized (sized-Reused (align_up size) b n s v le)

loses :
    {b asize n : ℕ} {s : Heap} {o : Option (ℕ × Heap)}
    → asize + 20 ≤ n
    → Reused b asize n s o
    → (t : Heap) × (o ≡ some (add32 b header_size, t))
      × (t.free_list ≡ null)
      × (t.heap_bump ≡ s.heap_bump)
      × ((t.mem b).size ≡ asize)
loses h (reused {t} l m z) = (t, refl, l, m, ground (arith, z))

-- If the free list is one block, with at least twenty bytes more than the request, which is not
-- zero, that block is given out and cut to the aligned request. The rest is lost: the free list is
-- empty, and the bump pointer stays.
pub kmalloc_loses :
    (size b n : ℕ) (s : Heap)
    → IsAlone b n s
    → 0 < size
    → align_up size + 20 ≤ n
    → (t : Heap) × (kmalloc size s ≡ some (add32 b header_size, t))
      × (t.free_list ≡ null)
      × (t.heap_bump ≡ s.heap_bump)
      × ((t.mem b).size ≡ align_up size)
kmalloc_loses size b n s v p le = loses le (kmalloc-Reused size b n s v p (omega arith))

-- The state after a block is freed into an empty list.
abbrev listed : ℕ → Heap → Heap
listed h s = count_down (record s { mem = set_next h null (set_free h true s.mem); free_list = h })

kfree_empty :
    (h : ℕ) (s : Heap)
    → s.free_list ≡ null
    → h + header_size < word
    → s.heap_start ≤ h
    → h < s.heap_end
    → kfree (h + header_size) s ≡ some (listed h s)
unfolding kfree payload_to_header insert_and_coalesce
kfree_empty h s e w lo hi = ground arith

listed-IsAlone :
    (h : ℕ) (s : Heap) → 0 < h → (s.mem h).size < word → IsAlone h (s.mem h).size (listed h s)
listed-IsAlone h s p w = record {
  at = ground arith;
  there = p;
  last = ground arith;
  bytes = ground arith;
  word_size = w;
}

bump-listed : (h : ℕ) (s : Heap) → (listed h s).heap_bump ≡ s.heap_bump
bump-listed h s = ground arith

given_again :
    {h asize n : ℕ} (s : Heap) {o : Option (ℕ × Heap)}
    → h + header_size < word
    → Reused h asize n (listed h s) o
    → (t : Heap) × (o ≡ some (h + header_size, t)) × (t.heap_bump ≡ s.heap_bump)
given_again {h} s w (reused {t} l m z) =
    (t, ap (λ p. some (p, t)) (omega arith), m ∙ bump-listed h s)

-- A block of the heap that is freed into an empty free list is given out by the next request, if
-- that is not zero and fits, at the same address, and the bump pointer stays.
pub kmalloc-kfree :
    (size h : ℕ) (s : Heap)
    → s.free_list ≡ null
    → 0 < h
    → s.heap_start ≤ h
    → h < s.heap_end
    → h + header_size < word
    → (s.mem h).size < word
    → 0 < size
    → align_up size ≤ (s.mem h).size
    → (u : Heap) × (kfree (h + header_size) s ≡ some u)
      × ((t : Heap) × (kmalloc size u ≡ some (h + header_size, t)) × (t.heap_bump ≡ s.heap_bump))
kmalloc-kfree size h s e p lo hi w z q le = (
  listed h s,
  kfree_empty h s e w lo hi,
  given_again s w (kmalloc-Reused size h (s.mem h).size (listed h s) (listed-IsAlone h s p z) q le),
)
