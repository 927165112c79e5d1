-- ===== src/Heap/Twice.antt =====
-- A block given to kfree of src/heap.c twice.
use os_itsc.Base.{
  ℕ, zero, suc, ◌+◌, ◌≤◌, ◌<◌, ◌≡◌, refl, ◌∙◌, inl, inr, true, false, ◌||◌, none, some, ltb, leb,
  ◌==◌, Bool-cases, eq_refl, arith,
}
use os_itsc.Heap.{
  word, null, header_size, Header, Heap, add32, header_to_payload, payload_to_header, set_next,
  set_free, place_from, merge_next, merge_prev, insert_and_coalesce,
}
use os_itsc.Heap.Calls.{walk_fuel, count_down, kfree, free_sum_from}

stops_at : (fuel b p : ℕ) (m : ℕ → Header) → 0 < fuel → place_from fuel b m p b ≡ some (p, b)
unfolding place_from
stops_at zero b p m f = absurd (omega arith)
stops_at (suc fuel) b p m f = ground arith

-- The list is one header, with nothing or itself behind it.
record IsSingle (h q : ℕ) (s : Heap) : Type 0 where
  only : s.free_list ≡ h
  next_is : (s.mem h).next ≡ q

counted : {h q : ℕ} {s : Heap} → IsSingle h q s → IsSingle h q (count_down s)
counted {s} v = elim (Bool-cases (ltb 0 s.alloc_count)) [
  | inl some_left ↦ rw some_left (record { only = v.only; next_is = v.next_is })
  | inr no_count ↦ rw no_count v
]

kept_bounds :
    (s : Heap)
    → ((count_down s).heap_start ≡ s.heap_start)
      × ((count_down s).heap_end ≡ s.heap_end)
      × ((count_down s).mem ≡ s.mem)
kept_bounds s = elim (Bool-cases (ltb 0 s.alloc_count)) [
  | inl some_left ↦ rw some_left (refl, refl, refl)
  | inr no_count ↦ rw no_count (refl, refl, refl)
]

-- A walk over a header with itself behind it does not end.
walks_on :
    (fuel acc h : ℕ) (m : ℕ → Header) → 0 < h → (m h).next ≡ h → free_sum_from fuel m h acc ≡ none
unfolding free_sum_from
walks_on zero acc h m z e = refl
walks_on (suc fuel) acc h m z e =
    let nz : (h == null) ≡ false = ground arith in rw (nz, e) (walks_on fuel _ h m z e)

-- A block does not end where it begins.
no_merge :
    (h : ℕ) (m : ℕ → Header)
    → (m h).next ≡ h
    → 0 < h
    → h < word
    → (m h).size + header_size < word
    → merge_next h m ≡ m
unfolding merge_next header_to_payload
no_merge h m e p w z =
    let nz : (h == null) ≡ false = ground arith in
    let ends : (add32 (header_to_payload h) (m h).size == h) ≡ false = ground arith in
    rw (e, ends, nz) refl

insert_again :
    (fuel h : ℕ) (s : Heap)
    → 0 < fuel
    → 0 < h
    → h < word
    → (s.mem h).size + header_size < word
    → s.free_list ≡ h
    → insert_and_coalesce fuel h s ≡ some (record s { mem = set_next h h s.mem; free_list = h })
unfolding insert_and_coalesce merge_prev
insert_again fuel h s f z w k e =
    let nz : (h == null) ≡ false = ground arith in
    rw
      (
        e,
        nz,
        stops_at fuel h null s.mem f,
        no_merge h (set_next h h s.mem) (rw (eq_refl h) refl) z w (rw (eq_refl h) k),
      )
      refl

module _ (ptr : ℕ) where
  -- The pointer is to a block of the heap.
  pub record IsBlock (s : Heap) : Type 0 where
    pub real : 0 < s.heap_start
    pub given : (ptr == null) ≡ false
    pub low : s.heap_start ≤ payload_to_header ptr
    pub high : payload_to_header ptr < s.heap_end
    pub within : s.heap_end ≤ word
    pub sized : (s.mem (payload_to_header ptr)).size + header_size < word

  frees :
      (s : Heap)
      → IsBlock s
      → kfree ptr s
        ≡ (elim (insert_and_coalesce
            (walk_fuel s)
            (payload_to_header ptr)
            (record s { mem = set_free (payload_to_header ptr) true s.mem })) [
              | none ↦ none
              | some t ↦ some (count_down t)
            ])
  unfolding kfree
  frees s v =
      let h = payload_to_header ptr in
      let inside : (ptr == null || (ltb h s.heap_start || leb s.heap_end h)) ≡ false =
        ground (arith, v.given, v.low, v.high) in
      rw inside refl

  -- The block goes into an empty list.
  frees_first :
      (s : Heap)
      → IsBlock s
      → s.free_list ≡ 0
      → (t : Heap) × (kfree ptr s ≡ some t) × IsBlock t × IsSingle (payload_to_header ptr) 0 t
  unfolding insert_and_coalesce
  frees_first s v e =
      let h = payload_to_header ptr in
      let t : Heap = record s { mem = set_next h null (set_free h true s.mem); free_list = h } in
      let (a, b, m) = kept_bounds t in
      (
        count_down t,
        frees s v ∙ rw e refl,
        record {
          real = rw a v.real;
          given = v.given;
          low = rw a v.low;
          high = rw b v.high;
          within = rw b v.within;
          sized = rw (m, eq_refl h) v.sized;
        },
        counted (record { only = refl; next_is = rw (eq_refl h) refl }),
      )

  -- The block is there already: it gets itself as the next one.
  frees_again :
      (t : Heap)
      → IsBlock t
      → IsSingle (payload_to_header ptr) 0 t
      → (u : Heap) × (kfree ptr t ≡ some u)
        × IsSingle (payload_to_header ptr) (payload_to_header ptr) u
  frees_again t v e =
      let h = payload_to_header ptr in
      let t' : Heap = record t { mem = set_free h true t.mem } in
      let u : Heap = record t { mem = set_next h h t'.mem; free_list = h } in
      (
        count_down u,
        frees t v
            ∙ rw
                (insert_again (walk_fuel t) h t' (omega arith) (omega (arith, v.real, v.low))
                  (omega (arith, v.high, v.within)) (rw (eq_refl h) v.sized) e.only)
                refl,
        counted (record { only = refl; next_is = rw (eq_refl h) refl }),
      )

  -- A block of the heap that is freed twice, the first time into an empty list: both calls return,
  -- and then the walk of `kheap_used_size` along the list does not end, whatever the fuel.
  pub kfree_twice :
      (s : Heap)
      → IsBlock s
      → s.free_list ≡ 0
      → (t : Heap) × (kfree ptr s ≡ some t)
        × (u : Heap) × (kfree ptr t ≡ some u)
        × ((fuel acc : ℕ) → free_sum_from fuel u.mem u.free_list acc ≡ none)
  kfree_twice s v e =
      let (t, et, vt, st) = frees_first s v e in
      let (u, eu, su) = frees_again t vt st in
      (
        t,
        et,
        u,
        eu,
        λ fuel acc. rw su.only (
            walks_on fuel acc (payload_to_header ptr) u.mem (omega (arith, v.real, v.low))
              su.next_is),
      )
