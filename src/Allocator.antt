-- ===== src/Allocator.antt =====
-- What a client of src/heap.c relies on: kmalloc and kfree over the state of an allocator. A pointer
-- is its address, 0 for NULL.
use os_itsc.Base.{ℕ, suc, ◌≤◌, ◌<◌, ◌≡◌, false, ◌==◌}

pub record Allocator : Type 1 where
  pub State : Type 0
  pub malloc : ℕ → State → ℕ × State
  pub free : ℕ → State → State

-- `Room j h`: in the state `h`, `j` requests of 1 to 512 bytes that are not freed are granted.
pub record HasRoom (A : Allocator) (Room : ℕ → A.State → Type 0) : Type 0 where
  pub gives :
      (j n : ℕ) (h : A.State)
      → 0 < n
      → n ≤ 512
      → Room (suc j) h
      → (((A.malloc n h).0 == 0) ≡ false) × Room j (A.malloc n h).1
  pub fewer : (j : ℕ) (h : A.State) → Room (suc j) h → Room j h
