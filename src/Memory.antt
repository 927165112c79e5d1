-- ===== src/Memory.antt =====
-- Copies between the program's buffers and the bytes of the address space.
use os_itsc.Base.{ℕ, zero, suc, ◌+◌, ◌/◌, ◌%◌, ◌^◌, List, [], ◌∷◌, update}

-- `len` bytes of memory from an address on; addresses wrap.
unfoldable pub bytes_at : ℕ → ℕ → (ℕ → ℕ) → List ℕ
bytes_at zero p m = []
bytes_at (suc n) p m = m p ∷ bytes_at n ((p + 1) % 2 ^ 32) m

unfoldable pub store_bytes : List ℕ → ℕ → (ℕ → ℕ) → ℕ → ℕ
store_bytes [] p m = m
store_bytes (c ∷ cs) p m = store_bytes cs ((p + 1) % 2 ^ 32) (update m p c)

-- An `int` that is not negative, stored low byte first.
unfoldable pub store_int : ℕ → ℕ → (ℕ → ℕ) → ℕ → ℕ
unfolding store_bytes
store_int v p m =
    store_bytes (v % 256 ∷ v / 256 % 256 ∷ v / 65536 % 256 ∷ v / 16777216 % 256 ∷ []) p m
