-- ===== src/Heap/Demo.antt =====
-- heap_dump, heap_test and heap_test_processes of src/heap.c. What is printed is the text as a list of
-- bytes. `none` is a walk of the free list that the fuel does not see the end of.
use os_itsc.Base.{
  ℕ, zero, suc, ◌^◌, Option, none, some, List, [], ◌++◌, pos, ltb, ◌==◌, if◌then◌else◌,
}
use os_itsc.Console.{text, uart_int, print_hex}
use os_itsc.Heap.{null, Header, Heap}
use os_itsc.Heap.Calls.{
  walk_fuel, kmalloc, kfree, kheap_total_size, kheap_used_size, kheap_free_size, kheap_alloc_count,
}

-- A heap and what is printed.
abbrev pub Printed : Type 0
Printed = Heap × List ℕ

-- `uart_print_int` of a word: one from 2^31 on is a negative int, of which nothing is printed.
abbrev pub word_text : ℕ → List ℕ
word_text n = if ltb n (2 ^ 31) then uart_int (pos n) else []

-- The loop over the free list.
unfoldable pub dump_blocks : ℕ → (ℕ → Header) → ℕ → Option (List ℕ)
dump_blocks zero m cur = none
dump_blocks (suc fuel) m cur =
    let line =
      text "    block @ "
      ++ print_hex cur
      ++ text ": size= "
      ++ word_text (m cur).size
      ++ text "\n" in
    let rest : Option (List ℕ) = elim (dump_blocks fuel m (m cur).next) [
      | none ↦ none
      | some s ↦ some (line ++ s)
    ] in
    if cur == null then some [] else rest

unfoldable pub dump_text : Heap → ℕ → ℕ → List ℕ → List ℕ
dump_text h used free blocks =
    text "KHEAP DUMP:\n"
    ++ text "  heap start: "
    ++ print_hex h.heap_start
    ++ text "\n"
    ++ text "  heap end  : "
    ++ print_hex h.heap_end
    ++ text "\n"
    ++ text "  bump ptr  : "
    ++ print_hex h.heap_bump
    ++ text "\n"
    ++ text "  total     : "
    ++ word_text (kheap_total_size h)
    ++ text "bytes\n"
    ++ text "  used      : "
    ++ word_text used
    ++ text "bytes\n"
    ++ text "  free      : "
    ++ word_text free
    ++ text "bytes\n"
    ++ text "  allocs    : "
    ++ word_text (kheap_alloc_count h)
    ++ text "\n"
    ++ text "  Free list blocks:\n"
    ++ blocks
    ++ text "\n"

-- `none` passed on, and what is printed with the heap from one call to the next.
abbrev pub Action : Type 0 → Type 0
Action A = Printed → Option (A × Printed)

infixl 5 ◌>>=◌ ◌>>◌
abbrev pub ◌>>=◌ : {A B : Type 0} → Action A → (A → Action B) → Action B
◌>>=◌ m f s = elim (m s) [ none ↦ none | some (a, t) ↦ f a t ]

abbrev pub ◌>>◌ : {A B : Type 0} → Action A → Action B → Action B
m >> n = m >>= (λ _. n)

abbrev pub print_out : List ℕ → Action Unit
print_out s (h, out) = some (tt, (h, out ++ s))

abbrev pub allocate : ℕ → Action ℕ
allocate size (h, out) = elim (kmalloc size h) [ none ↦ none | some (p, t) ↦ some (p, (t, out)) ]

abbrev pub release : ℕ → Action Unit
release p (h, out) = elim (kfree p h) [ none ↦ none | some t ↦ some (tt, (t, out)) ]

unfoldable pub heap_dump : Action Unit
unfolding dump_blocks dump_text
heap_dump (h, out) = elim (kheap_used_size h) [
  | none ↦ none
  | some used ↦ (elim (kheap_free_size h) [
    | none ↦ none
    | some free ↦ (elim (dump_blocks (walk_fuel h) h.mem h.free_list) [
      | none ↦ none
      | some blocks ↦ some (tt, (h, out ++ dump_text h used free blocks))
    ])
  ])
]

unfoldable pub heap_test : Action Unit
unfolding heap_dump
heap_test = do
  print_out (text "\n=== HEAP TEST START ===\n")
  a ← allocate 32
  print_out (text "Allocated 32 bytes\n")
  heap_dump
  b ← allocate 64
  print_out (text "Allocated 64 bytes\n")
  heap_dump
  release a
  print_out (text "Freed 32 bytes\n")
  heap_dump
  c ← allocate 16
  print_out (text "Allocated 16 bytes\n")
  heap_dump
  release b
  print_out (text "Freed 64 bytes\n")
  heap_dump
  release c
  print_out (text "Freed 16 bytes\n")
  heap_dump
  print_out (text "=== HEAP TEST END ===\n\n")
