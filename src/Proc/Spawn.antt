-- ===== src/Proc/Spawn.antt =====
-- spawn_pipeline_process of src/kernel.c. The bytes of the address space and the words of the page
-- tables are kept apart.
use os_itsc.Base.{
  ℕ, ◌+◌, ◌-◌, ◌*◌, ◌/◌, ◌%◌, ◌^◌, ◌<◌, ◌≡◌, ◌⊎◌, refl, inl, inr, true, Option, none, some, List,
  [], ◌∷◌, ℤ, pos, negsuc, minus_one, Returns, returns, if_Returns, ltb, leb, length, ◌==◌,
  if◌then◌else◌, update, for_range, Bool-cases, arith,
}
use os_itsc.Heap.{Heap}
use os_itsc.Heap.Calls.{kmalloc}
use os_itsc.Heap.Chain.{IsHeap}
use os_itsc.Heap.Total.{kmalloc-IsHeap}
use os_itsc.Kernel.{ready, max_processes, Pcb, Kernel, set_proc}
use os_itsc.Memory.{store_bytes, store_int}
use os_itsc.Pmm.{page_size, pmm_alloc_frame}
use os_itsc.Proc.{fd_init}
use os_itsc.Proc.Load.{load_addr}
use os_itsc.Sched.Invariant.{IsSched}
use os_itsc.Vmm.{Vmm, vmm_create_pd, vmm_map_page, with_frames}

-- The kernel and its page tables.
pub record Machine : Type 0 where
  pub kernel : Kernel
  pub vmm : Vmm

abbrev pub user_stack_top : ℕ
user_stack_top = 0xB000_0000

-- Words stored one behind the other.
unfoldable pub store_words : List ℕ → ℕ → (ℕ → ℕ) → ℕ → ℕ
unfolding store_int
store_words [] p m = m
store_words (w ∷ ws) p m = store_words ws ((p + 4) % 2 ^ 32) (store_int w p m)

-- The frame at the top of the kernel stack that the first switch to the process pops, from its
-- lowest address on.
abbrev pub first_frame : ℕ → List ℕ
first_frame base = 0 ∷ 0 ∷ 0 ∷ 0 ∷ 0 ∷ 0 ∷ 0 ∷ 0 ∷ base ∷ 0x1B ∷ 0x202 ∷ user_stack_top ∷ 0x23 ∷ []

-- The identity mapping of the pages of the program.
abbrev pub map_program : ℕ → ℕ → ℕ → Vmm → Vmm
map_program pd base size v =
    for_range ((size + page_size - 1) / page_size) 0
      (λ p u. vmm_map_page pd (base + p * page_size) (base + p * page_size) 7 u) v

-- The process that is put into the table.
unfoldable pub spawned : ℕ → ℕ → ℕ → ℤ → ℤ → ℤ → Pcb → Pcb
unfolding fd_init
spawned base pd kstack in_fd out_fd err_fd p =
    let q = fd_init (record p {
      entry = base;
      remaining = pos 100;
      state = ready;
      wait_ticks = pos 0;
      page_dir = pd;
      saved_esp = (kstack + 4096 - 52) % 2 ^ 32;
      kernel_stack = (kstack + 4096) % 2 ^ 32;
      user_stack = user_stack_top;
      is_user = true;
    }) in
    record q {
      fd_table = update (update (update q.fd_table 0 in_fd) 1 out_fd) 2 err_fd;
      pipeline_tag = true;
    }

-- The end of the call, once the kernel stack is allocated. The result of `kmalloc` is not tested.
unfoldable pub enter_table : ℕ → ℕ → ℤ → ℤ → ℤ → ℕ × Heap → Machine → ℤ × Machine
unfolding spawned store_words
enter_table base pd in_fd out_fd err_fd (kstack, h) m =
    let pid = m.kernel.nr_procese in
    let k = record m.kernel {
      heap = h;
      memory = store_words (first_frame base) ((kstack + 4096 - 52) % 2 ^ 32) m.kernel.memory;
    } in
    (
      pos pid,
      record m {
        kernel =
            record (set_proc pid (spawned base pd kstack in_fd out_fd err_fd (k.proc_table pid))
              k) { nr_procese = pid + 1 };
      },
    )

-- What a spawn leaves: no new process, or one at the end of the table.
abbrev pub Spawned : Machine → ℤ × Machine → Type 0
Spawned m (r, t) =
    IsSched t.kernel
    × (t.kernel.pipes ≡ m.kernel.pipes)
    × ((r ≡ minus_one) × (t.kernel.nr_procese ≡ m.kernel.nr_procese)
        ⊎ (r ≡ pos m.kernel.nr_procese) × (t.kernel.nr_procese ≡ m.kernel.nr_procese + 1))

-- `programs i` is the bytes of `ramfs[i]`, which the build links in. `none` is a `kmalloc` that does
-- not end.
module _ (programs : ℕ → List ℕ) where
  unfoldable pub spawn_at : ℕ → ℤ → ℤ → ℤ → Machine → Option (ℤ × Machine)
  unfolding enter_table store_bytes
  spawn_at index in_fd out_fd err_fd m =
      let base = load_addr index in
      let (pd, v1) = vmm_create_pd m.vmm in
      let copied = record m.kernel { memory = store_bytes (programs index) base m.kernel.memory } in
      let v2 = map_program pd base (length (programs index)) v1 in
      let (ustack, frames) = pmm_alloc_frame v2.frames in
      let v3 = with_frames frames v2 in
      let v4 = vmm_map_page pd (user_stack_top - page_size) ustack 7 v3 in
      if pd == 0
      then some (minus_one, record m { vmm = v1 })
      else if ustack == 0
      then some (minus_one, record { kernel = copied; vmm = v3 })
      else (elim (kmalloc 4096 copied.heap) [
        | none ↦ none
        | some got ↦
            some
              (enter_table base pd in_fd out_fd err_fd got (record { kernel = copied; vmm = v4 }))
      ])

  unfoldable pub spawn_pipeline_process : ℤ → ℤ → ℤ → ℤ → Machine → Option (ℤ × Machine)
  unfolding spawn_at
  spawn_pipeline_process (negsuc _) in_fd out_fd err_fd m = some (minus_one, m)
  spawn_pipeline_process (pos index) in_fd out_fd err_fd m =
      if ltb 1 index
      then some (minus_one, m)
      else if leb max_processes m.kernel.nr_procese
      then some (minus_one, m)
      else spawn_at index in_fd out_fd err_fd m

  copied-IsSched : {k : Kernel} (g : ℕ → ℕ) → IsSched k → IsSched (record k { memory = g })
  copied-IsSched g v = record {
    fits = v.fits;
    where_ok = v.where_ok;
    heap_ok = v.heap_ok;
    slots = v.slots;
  }

  entered-Spawned :
      (m : Machine) (p : ℕ) {h : Heap} (base pd : ℕ) (in_fd out_fd err_fd : ℤ)
      → m.kernel.nr_procese < max_processes
      → IsSched m.kernel
      → IsHeap h
      → Spawned m (enter_table base pd in_fd out_fd err_fd (p, h) m)
  unfolding enter_table spawned fd_init
  entered-Spawned m p base pd in_fd out_fd err_fd lt v w = (
    record {
      fits = omega arith;
      where_ok = ground (arith, v.where_ok);
      heap_ok = w;
      slots = λ i h. ground (arith, v.slots i);
    },
    refl,
    inr (refl, refl),
  )

  granted :
      (m : Machine) {o : Option (ℕ × Heap)} (base pd : ℕ) (in_fd out_fd err_fd : ℤ)
      → m.kernel.nr_procese < max_processes
      → IsSched m.kernel
      → Returns (λ (out : ℕ × Heap). IsHeap out.1) o
      → Returns
          (Spawned m)
          (elim o [ none ↦ none | some got ↦ some (enter_table base pd in_fd out_fd err_fd got m) ])
  granted m base pd in_fd out_fd err_fd lt v (returns {a = (p, h)} w) =
      returns (entered-Spawned m p base pd in_fd out_fd err_fd lt v w)

  spawn_at-Spawned :
      (index : ℕ) (in_fd out_fd err_fd : ℤ) (m : Machine)
      → m.kernel.nr_procese < max_processes
      → IsSched m.kernel
      → Returns (Spawned m) (spawn_at index in_fd out_fd err_fd m)
  unfolding spawn_at
  spawn_at-Spawned index in_fd out_fd err_fd m lt v =
      let vc = copied-IsSched (store_bytes (programs index) (load_addr index) m.kernel.memory) v in
      if_Returns _ (returns (v, refl, inl (refl, refl))) (
        if_Returns _ (returns (vc, refl, inl (refl, refl))) (
          granted _ (load_addr index) _ in_fd out_fd err_fd lt vc
            (kmalloc-IsHeap 4096 m.kernel.heap (omega arith) v.heap_ok)))

  -- A spawn returns, with the invariant of the process table and of the heap kept and the pipes as
  -- they were: -1 and no new process, for an index that is no program, a full table or no frame left;
  -- or the index of a new process at the end of the table.
  pub spawn_pipeline_process-Spawned :
      (index in_fd out_fd err_fd : ℤ) (m : Machine)
      → IsSched m.kernel
      → Returns (Spawned m) (spawn_pipeline_process index in_fd out_fd err_fd m)
  unfolding spawn_pipeline_process
  spawn_pipeline_process-Spawned (negsuc n) in_fd out_fd err_fd m v =
      returns (v, refl, inl (refl, refl))
  spawn_pipeline_process-Spawned (pos index) in_fd out_fd err_fd m v =
      elim (Bool-cases (leb max_processes m.kernel.nr_procese)) [
        | inl full ↦ rw full (
            if_Returns (ltb 1 index) (returns (v, refl, inl (refl, refl)))
              (returns (v, refl, inl (refl, refl))))
        | inr room ↦ rw room (
            if_Returns (ltb 1 index) (returns (v, refl, inl (refl, refl)))
              (spawn_at-Spawned index in_fd out_fd err_fd m (ground arith) v))
      ]
