-- ===== src/Heap/Freed.antt =====
-- kfree of src/heap.c over a free list that is a chain.
use os_itsc.Base.{
  ℕ, ◌-◌, ◌≤◌, ◌<◌, ◌≡◌, ◌⊎◌, refl, ap, ◌∙◌, inl, inr, true, false, ◌||◌, Option, none, some,
  Returns, returns, ltb, leb, ◌==◌, if◌then◌else◌, update, Bool-cases, eq_refl, arith,
}
use os_itsc.Heap.{
  word, null, Header, Heap, payload_to_header, set_next, set_free, merge_next, merge_prev,
  insert_and_coalesce,
}
use os_itsc.Heap.Calls.{walk_fuel, count_down, kfree}
use os_itsc.Heap.Chain.{
  end_of, starts_from, link_at, kept_at, new_at, Chain, over, link, IsHeap, forget, apart, below,
  Walk, stop, step,
}
use os_itsc.Heap.Insert.{
  Place, place, place_from-Place, no_later, raise, put_between, merge_next-Chain, merge_next-next,
  merge_prev-Chain,
}
use os_itsc.Heap.Total.{as_heap}

-- The list with the header at `b` in its place, before the merges.
abbrev placed : ℕ → ℕ → ℕ → Heap → Heap
placed b prev cur s =
    let m = set_next b cur s.mem in
    if prev == null
    then record s { mem = m; free_list = b }
    else record s { mem = set_next prev b m }

record InPlace (b prev : ℕ) (s t : Heap) : Type 0 where
  chain : Chain t.mem s.heap_bump 0 0 s.heap_start t.free_list
  before : (prev == 0) ≡ false → (t.mem prev).next ≡ b
  start_kept : t.heap_start ≡ s.heap_start
  end_kept : t.heap_end ≡ s.heap_end
  bump_kept : t.heap_bump ≡ s.heap_bump
  apart_from : (prev == b) ≡ false

in_place :
    {s : Heap} {b prev cur c : ℕ}
    → 0 < s.heap_start
    → s.heap_start ≤ b
    → end_of b (s.mem b) ≤ s.heap_bump
    → s.free_list ≡ c
    → Chain s.mem s.heap_bump b (end_of b (s.mem b)) s.heap_start c
    → Walk s.mem prev cur 0 c
    → prev < b
    → (cur ≡ 0) ⊎ (b < cur)
    → InPlace b prev s (placed b prev cur s)
in_place {s} {b} {prev} {cur} r lo hi e v stop lt q = record {
  chain =
      link_at (record (s.mem b) { next = cur }) (new_at s.mem b _) (omega arith) lo hi
        (starts_from 0 0 b _ (omega arith)) (forget (below b _ (omega arith) (raise q v)));
  before = λ h. absurd (ground arith);
  start_kept = refl;
  end_kept = refl;
  bump_kept = refl;
  apart_from = ground arith;
}
in_place r lo hi e over (step nz w) lt q = absurd (ground arith)
in_place {s} {b} {prev} {cur} {c} r lo hi e (link a l h n rest) (step nz w) lt q =
    let le = no_later w rest (omega arith) in
    let pz : (prev == null) ≡ false = ground arith in
    let off : (prev == b) ≡ false = ground arith in
    rw pz record {
      chain = rw e (
          put_between (s.mem b) (set_next b cur s.mem prev) w refl
            (ap (λ (g : Header). g.size) (kept_at s.mem b prev _ off)) rest a l h n lt hi q);
      before = λ h. rw (eq_refl prev) refl;
      start_kept = refl;
      end_kept = refl;
      bump_kept = refl;
      apart_from = off;
    }

merged :
    {s t : Heap} {b prev : ℕ}
    → IsHeap s
    → 0 < b
    → InPlace b prev s t
    → IsHeap (record t { mem = merge_prev prev b (merge_next b t.mem) })
merged {s} {t} {b} {prev} r z v =
    let small : s.heap_bump < word = omega (arith, r.room, r.addressed) in
    as_heap (record t { mem = merge_prev prev b (merge_next b t.mem) }) r v.start_kept v.end_kept
      v.bump_kept
      (merge_prev-Chain prev b small (λ h. merge_next-next b prev t.mem v.apart_from ∙ v.before h) z
        (merge_next-Chain b small v.chain))

found-Place :
    (s : Heap) {b : ℕ} {o : Option (ℕ × ℕ)}
    → IsHeap s
    → s.heap_start ≤ b
    → end_of b (s.mem b) ≤ s.heap_bump
    → Chain s.mem s.heap_bump b (end_of b (s.mem b)) s.heap_start s.free_list
    → Place s.mem b 0 s.free_list o
    → Returns IsHeap (elim o [
      | none ↦ none
      | some (prev, cur) ↦
          let linked = placed b prev cur s in
          some (record linked { mem = merge_prev prev b (merge_next b linked.mem) })
    ])
found-Place s r lo hi v (place w lt q) =
    returns (merged r (omega (arith, r.real)) (in_place r.real lo hi refl v w lt q))

insert-IsHeap :
    (s : Heap) {b : ℕ} (fuel : ℕ)
    → IsHeap s
    → s.heap_start ≤ b
    → end_of b (s.mem b) ≤ s.heap_bump
    → Chain s.mem s.heap_bump b (end_of b (s.mem b)) s.heap_start s.free_list
    → s.heap_bump - s.heap_start < fuel
    → Returns IsHeap (insert_and_coalesce fuel b s)
unfolding insert_and_coalesce
insert-IsHeap s {b} fuel r lo hi v f = elim (Bool-cases (s.free_list == null)) [
  | inl empty ↦ rw empty (
      returns (record {
        real = r.real;
        room = r.room;
        addressed = r.addressed;
        chain =
            link_at (record (s.mem b) { next = 0 }) (new_at s.mem b _) (omega (arith, r.real)) lo hi
              (starts_from 0 0 b _ (omega arith)) over;
      }))
  | inr more ↦ rw more (
      found-Place s r lo hi v
        (place_from-Place fuel b 0 s.free_list (omega arith) v (omega (arith, r.real)) f))
]

down :
    {o : Option Heap}
    → Returns IsHeap o
    → Returns IsHeap (elim o [ none ↦ none | some t ↦ some (count_down t) ])
down (returns {a = t} v) = returns (elim (Bool-cases (ltb 0 t.alloc_count)) [
  | inl some_left ↦
      rw some_left
        (record { real = v.real; room = v.room; addressed = v.addressed; chain = v.chain })
  | inr no_count ↦ rw no_count v
])

-- A block that was given out: it ends below what was never given out, and no block of the free list
-- has a byte in common with it.
pub record IsGiven (h : ℕ) (s : Heap) : Type 0 where
  pub below_bump : end_of h (s.mem h) ≤ s.heap_bump
  pub away : Chain s.mem s.heap_bump h (end_of h (s.mem h)) s.heap_start s.free_list

-- `kfree` of a block that was given out, over a free list whose blocks lie in the heap, one behind the
-- other and apart: it ends within the fuel of its walk, and leaves such a list, whatever the blocks
-- that it merges.
pub kfree-IsHeap :
    (ptr : ℕ) (s : Heap)
    → IsHeap s
    → IsGiven (payload_to_header ptr) s
    → Returns IsHeap (kfree ptr s)
unfolding kfree
kfree-IsHeap ptr s v g =
    let h = payload_to_header ptr in
    let marked : Header = record (s.mem h) { free = true } in
    let size : (update s.mem h marked h).size ≡ (s.mem h).size = rw (eq_refl h) refl in
    elim (Bool-cases (ptr == null || (ltb h s.heap_start || leb s.heap_end h))) [
      | inl outside ↦ rw outside (returns v)
      | inr inside ↦ rw inside (
          down (
            insert-IsHeap (record s { mem = set_free h true s.mem }) (walk_fuel s)
              (as_heap _ v refl refl refl (apart h marked (omega arith) (omega arith) g.away))
              (ground arith) (rw size g.below_bump)
              (rw size (apart h marked (omega arith) (omega arith) g.away))
              (omega (arith, v.room))))
    ]
