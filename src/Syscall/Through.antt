-- ===== src/Syscall/Through.antt =====
-- Bytes from one process to another: the calls write and read of src/idt.c on the two ends of a pipe.
use os_itsc.Base.{
  ℕ, zero, suc, ◌+◌, ◌*◌, ◌/◌, ◌%◌, ◌^◌, ◌≤◌, ◌<◌, ◌≡◌, refl, ap, ◌∙◌, subst, min, Bool, true,
  false, some, List, pos, length, take, take_all, ltb, ◌==◌, arith,
}
use os_itsc.Kernel.{Kernel, max_fds}
use os_itsc.Memory.{bytes_at, store_bytes}
use os_itsc.Pipe.{pipe_buf_size, pipe_write}
use os_itsc.Pipe.Channel.{Channel, open_channel, send, receive}
use os_itsc.Pipe.Refine.{Implements, write_step, read_step}
use os_itsc.Proc.{of_int, fd_make_pipe, fd_write, fd_read}
use os_itsc.Syscall.{Regs, is_outside, sys_write, sys_read}

length-bytes_at : (n p : ℕ) (m : ℕ → ℕ) → length (bytes_at n p m) ≡ n
unfolding bytes_at
length-bytes_at zero p m = refl
length-bytes_at (suc n) p m = ap suc (length-bytes_at n ((p + 1) % 2 ^ 32) m)

-- The open channel with the bytes in it.
abbrev filled : List ℕ → Channel
filled bytes = record open_channel { queue = bytes }

fd_write-pipe :
    (id : ℕ) (bytes : List ℕ) (k : Kernel)
    → length bytes ≤ pipe_buf_size
    → Implements k.pipes id open_channel
    → ((fd_write (fd_make_pipe id 1) bytes k).0 ≡ pos (length bytes))
      × ((fd_write (fd_make_pipe id 1) bytes k).1
          ≡ record k { pipes = (pipe_write (pos id) bytes k.pipes).1 })
      × Implements (pipe_write (pos id) bytes k.pipes).1 id (filled bytes)
unfolding fd_write send
fd_write-pipe id bytes k l i =
    let slot : (id * 2 + 1) / 2 ≡ id = omega arith in
    let (r, j) = write_step k.pipes id open_channel bytes i in
    let all : take 4096 bytes ≡ bytes = take_all 4096 bytes l in
    let number : min (length bytes) 4096 ≡ length bytes = omega arith in
    rw slot (
      r ∙ ap pos number,
      refl,
      subst
          (λ q.
            Implements (pipe_write (pos id) bytes k.pipes).1 id (record open_channel { queue = q }))
          all j,
    )

fd_read-pipe :
    (id len : ℕ) (bytes : List ℕ) (k : Kernel)
    → 0 < length bytes
    → length bytes ≤ len
    → Implements k.pipes id (filled bytes)
    → ((fd_read (fd_make_pipe id 0) len k).0 ≡ pos (length bytes))
      × ((fd_read (fd_make_pipe id 0) len k).1 ≡ bytes)
      × ((fd_read (fd_make_pipe id 0) len k).2.memory ≡ k.memory)
unfolding fd_read receive
fd_read-pipe id len bytes k z l i =
    let slot : (id * 2 + 0) / 2 ≡ id = omega arith in
    let (r, got, j) = read_step k.pipes id (filled bytes) len i in
    let all : take len bytes ≡ bytes = take_all len bytes l in
    let some_bytes : (length bytes == 0) ≡ false = ground arith in
    let number : (receive len (filled bytes)).0 ≡ pos (length bytes) = rw (all, some_bytes) refl in
    let same : (receive len (filled bytes)).1 ≡ bytes = rw (all, some_bytes) refl in
    rw slot (r ∙ number, got ∙ same, refl)

sys_write-pipe :
    (r : Regs) (k : Kernel) (c id : ℕ)
    → k.current ≡ pos c
    → c < k.nr_procese
    → r.ebx < max_fds
    → (k.proc_table c).fd_table r.ebx ≡ fd_make_pipe id 1
    → r.edx ≤ pipe_buf_size
    → Implements k.pipes id open_channel
    → let bytes = bytes_at r.edx r.ecx k.memory in
      ((sys_write r k).0.eax ≡ r.edx)
      × ((sys_write r k).1 ≡ record k { pipes = (pipe_write (pos id) bytes k.pipes).1 })
      × Implements (pipe_write (pos id) bytes k.pipes).1 id (filled bytes)
unfolding sys_write
sys_write-pipe r k c id cur cl fl fd room i =
    let bytes = bytes_at r.edx r.ecx k.memory in
    let n = length-bytes_at r.edx r.ecx k.memory in
    let ok : ltb r.ebx 16 ≡ true = ground arith in
    let there : ltb c k.nr_procese ≡ true = ground arith in
    let (w, e, j) = fd_write-pipe id bytes k (omega (arith, n)) i in
    let word_back : r.edx % 2 ^ 32 ≡ r.edx = omega arith in
    (
      simp (sys_write, cur, ok, there, fd, w, n, word_back) refl,
      simp (sys_write, cur, ok, there, fd, e) refl,
      j,
    )

sys_read-pipe :
    (own : ℕ → Bool) (r : Regs) (k : Kernel) (d id : ℕ) (bytes : List ℕ)
    → k.current ≡ pos d
    → d < k.nr_procese
    → r.ebx < max_fds
    → (k.proc_table d).fd_table r.ebx ≡ fd_make_pipe id 0
    → 0 < length bytes
    → length bytes ≤ r.edx
    → length bytes ≤ pipe_buf_size
    → Implements k.pipes id (filled bytes)
    → is_outside own r.edx r.ecx ≡ true
    → (out : Regs × Kernel) × (sys_read own r k ≡ some out)
      × (out.0.eax ≡ length bytes)
      × (out.1.memory ≡ store_bytes bytes r.ecx k.memory)
unfolding sys_read
sys_read-pipe own r k d id bytes cur dl fl fd z l room i free =
    let v = (k.proc_table d).fd_table r.ebx in
    let (n, read, t) = fd_read v r.edx k in
    let out : Regs × Kernel =
      (record r { eax = of_int n }, record t { memory = store_bytes read r.ecx t.memory }) in
    let ok : ltb r.ebx 16 ≡ true = ground arith in
    let there : ltb d k.nr_procese ≡ true = ground arith in
    let (p, got, m) = fd_read-pipe id r.edx bytes k z l i in
    let word_back : length bytes % 2 ^ 32 ≡ length bytes = omega arith in
    (
      out,
      simp (sys_read, cur, ok, there, free) refl,
      simp (fd, p, word_back) refl,
      simp (fd, got, m) refl,
    )

-- For a pipe that is open and empty, a write of at most as many bytes as it holds by the process that
-- has its write end, then a read of at least as many by the process that has its read end, into a
-- buffer apart from the kernel's own data: both calls give the number of bytes, and the bytes stand in the memory of the reader.
pub sys_read-sys_write :
    (own : ℕ → Bool) (r r' : Regs) (k : Kernel) (c d id : ℕ)
    → k.current ≡ pos c
    → c < k.nr_procese
    → d < k.nr_procese
    → r.ebx < max_fds
    → r'.ebx < max_fds
    → (k.proc_table c).fd_table r.ebx ≡ fd_make_pipe id 1
    → (k.proc_table d).fd_table r'.ebx ≡ fd_make_pipe id 0
    → Implements k.pipes id open_channel
    → 0 < r.edx
    → r.edx ≤ pipe_buf_size
    → r.edx ≤ r'.edx
    → is_outside own r'.edx r'.ecx ≡ true
    → let t = record (sys_write r k).1 { current = pos d } in
      ((sys_write r k).0.eax ≡ r.edx)
      × ((out : Regs × Kernel) × (sys_read own r' t ≡ some out)
          × (out.0.eax ≡ r.edx)
          × (out.1.memory ≡ store_bytes (bytes_at r.edx r.ecx k.memory) r'.ecx k.memory))
sys_read-sys_write own r r' k c d id cur cl dl fl fl' fd fd' i z room l free =
    let bytes = bytes_at r.edx r.ecx k.memory in
    let n = length-bytes_at r.edx r.ecx k.memory in
    let (w, e, j) = sys_write-pipe r k c id cur cl fl fd room i in
    let t : Kernel = record k { pipes = (pipe_write (pos id) bytes k.pipes).1; current = pos d } in
    let (out, q, p, m) =
      sys_read-pipe own r' t d id bytes refl dl fl' fd' (omega (arith, n)) (omega (arith, n))
        (omega (arith, n)) j free in
    (w, (out, rw e q, p ∙ n, m))
