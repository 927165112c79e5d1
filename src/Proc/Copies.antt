-- ===== src/Proc/Copies.antt =====
-- heap_test_processes of src/heap.c, which copies the code of the processes into the heap and frees it.
use os_itsc.Base.{
  ℕ, zero, suc, ◌+◌, ◌-◌, ◌^◌, ◌%◌, Option, none, some, List, [], ◌∷◌, ◌++◌, ◌==◌, ◌||◌,
  if◌then◌else◌, update, for_range,
}
use os_itsc.Console.{text}
use os_itsc.Heap.{null, Heap}
use os_itsc.Heap.Calls.{kmalloc, kfree}
use os_itsc.Heap.Demo.{heap_dump, word_text}
use os_itsc.Kernel.{Kernel, uart_print}

-- `process_info_t`, as words.
pub record ProcessInfo : Type 0 where
  pub entry : ℕ
  pub start : ℕ
  pub end : ℕ

-- The loop over `kernel_processes`: `start` and `end` of the first one with the entry.
unfoldable pub code_from : ℕ → ℕ → (ℕ → ProcessInfo) → ℕ → Option (ℕ × ℕ)
code_from zero j infos entry = none
code_from (suc n) j infos entry =
    let rest = code_from n (j + 1) infos entry in
    if (infos j).entry == entry then some ((infos j).start, (infos j).end) else rest

-- `if (!start || !end)`
abbrev pub known : Option (ℕ × ℕ) → Option (ℕ × ℕ)
known none = none
known (some (s, e)) = if s == null || e == null then none else some (s, e)

abbrev pub code_size : ℕ → ℕ → ℕ
code_size start end = (end + 2 ^ 32 - start) % 2 ^ 32

-- `for (b = 0; b < size; b++) dst[b] = src[b];`
unfoldable pub copy_bytes : ℕ → ℕ → ℕ → (ℕ → ℕ) → ℕ → ℕ
copy_bytes size dst src m =
    for_range size 0 (λ b t. update t ((dst + b) % 2 ^ 32) (t ((src + b) % 2 ^ 32))) m

abbrev pub say_allocating : ℕ → ℕ → Kernel → Kernel
say_allocating i size k =
    uart_print
      (text "Allocating heap for process "
        ++ word_text i
        ++ text " ("
        ++ word_text size
        ++ text " bytes)\n")
      k

-- What `kmalloc` gave for the code of a process, and the copy.
abbrev pub copied : ℕ → ℕ → Option (ℕ × Kernel) → Option (ℕ × Kernel)
copied size start none = none
copied size start (some (p, k)) =
    if p == null
    then some (null, uart_print (text "  ERROR: kmalloc failed\n") k)
    else some (p, record k { memory = copy_bytes size p start k.memory })

abbrev pub with_heap : Kernel → Option (ℕ × Heap) → Option (ℕ × Kernel)
with_heap k none = none
with_heap k (some (p, h)) = some (p, record k { heap = h })

-- A round of the first loop: `buffers[i]`.
unfoldable pub copy_process : (ℕ → ProcessInfo) → ℕ → Kernel → Option (ℕ × Kernel)
unfolding code_from copy_bytes
copy_process infos i k = elim (known (code_from 5 0 infos (k.proc_table i).entry)) [
  | none ↦ some (null, uart_print (text "Skipping unknown process\n") k)
  | some (start, end) ↦
      let size = code_size start end in
      let t = say_allocating i size k in copied size start (with_heap t (kmalloc size t.heap))
]

-- The first loop, from process `i` on: the buffers in order.
unfoldable pub copy_from_process : (ℕ → ProcessInfo) → ℕ → ℕ → Kernel → Option (List ℕ × Kernel)
unfolding copy_process
copy_from_process infos zero i k = some ([], k)
copy_from_process infos (suc n) i k = elim (copy_process infos i k) [
  | none ↦ none
  | some (p, t) ↦ (elim (copy_from_process infos n (i + 1) t) [
    | none ↦ none
    | some (ps, u) ↦ some (p ∷ ps, u)
  ])
]

-- The second loop, over the buffers from that of process `i` on.
unfoldable pub free_from_process : List ℕ → ℕ → Kernel → Option Kernel
free_from_process [] i k = some k
free_from_process (p ∷ ps) i k =
    let t = uart_print (text "Freeing heap for process " ++ word_text i ++ text "\n") k in
    if p == null then free_from_process ps (i + 1) k else (elim (kfree p t.heap) [
      | none ↦ none
      | some h ↦ free_from_process ps (i + 1) (record t { heap = h })
    ])

-- `heap_dump` on the serial line.
unfoldable pub dump_heap : Kernel → Option Kernel
unfolding heap_dump
dump_heap k = elim (heap_dump (k.heap, [])) [
  | none ↦ none
  | some (_, (h, out)) ↦ some (uart_print out k)
]

-- What follows a loop.
abbrev pub dump_after : List ℕ → Option Kernel → Option Kernel
dump_after s none = none
dump_after s (some k) = dump_heap (uart_print s k)

-- `kernel_processes` is an argument.
unfoldable pub heap_test_processes : (ℕ → ProcessInfo) → Kernel → Option Kernel
unfolding copy_from_process free_from_process dump_heap
heap_test_processes infos k =
    elim (copy_from_process infos k.nr_procese 0
      (uart_print (text "\n=== HEAP PROCESS CODE COPY TEST ===\n") k)) [
        | none ↦ none
        | some (buffers, t) ↦
            (elim (dump_after (text "\n--- HEAP STATE AFTER ALLOC ---\n") (some t)) [
              | none ↦ none
              | some u ↦
                  (elim (dump_after (text "\n--- HEAP STATE AFTER FREE ---\n")
                    (free_from_process buffers 0 u)) [
                      | none ↦ none
                      | some v ↦ some (uart_print (text "=== HEAP PROCESS TEST END ===\n\n") v)
                    ])
            ])
      ]
