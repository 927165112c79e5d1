-- ===== src/Pipe.antt =====
-- src/pipe.c and src/pipe.h: sixteen byte pipes of 4096 bytes each, in two static tables.

pub mod Ring
pub mod Channel
pub mod Refine
pub mod Table
pub mod Tests
use os_itsc.Base.{
  ℕ, zero, suc, ◌+◌, ◌-◌, ◌%◌, Bool, true, false, not, ◌&&◌, List, [], ◌∷◌, ℤ, pos, negsuc,
  minus_one, length, ltb, ◌==◌, if◌then◌else◌, update, for_range,
}

abbrev pub max_pipes : ℕ
max_pipes = 16

abbrev pub pipe_buf_size : ℕ
pipe_buf_size = 4096

-- `pipe_t`. The flags are 0 or 1 in the source.
pub record Pipe : Type 0 where
  pub buffer : ℕ → ℕ
  pub read_pos : ℕ
  pub write_pos : ℕ
  pub count : ℕ
  pub read_open : Bool
  pub write_open : Bool

-- The static tables `pipes` and `pipe_used`.
pub record Pipes : Type 0 where
  pub pipes : ℕ → Pipe
  pub pipe_used : ℕ → Bool

unfoldable pub pipe_init : Pipes → Pipes
pipe_init s = for_range max_pipes 0 (λ i t. record t { pipe_used = update t.pipe_used i false }) s

-- What `pipe_alloc` writes into the slot it takes; the buffer keeps its old bytes.
unfoldable pub reset : Pipe → Pipe
reset p = record p { read_pos = 0; write_pos = 0; count = 0; read_open = true; write_open = true }

-- The loop of `pipe_alloc` from index `i`, with the rounds left first.
unfoldable pub alloc_from : ℕ → ℕ → Pipes → ℤ × Pipes
alloc_from zero i s = (minus_one, s)
alloc_from (suc n) i s =
    let rest = alloc_from n (i + 1) s in
    if s.pipe_used i then rest else (
      pos i,
      record s {
        pipes = update s.pipes i (reset (s.pipes i));
        pipe_used = update s.pipe_used i true;
      },
    )

unfoldable pub pipe_alloc : Pipes → ℤ × Pipes
unfolding alloc_from
pipe_alloc s = alloc_from max_pipes 0 s

unfoldable pub pipe_free : ℤ → Pipes → Pipes
pipe_free (negsuc _) s = s
pipe_free (pos id) s =
    if ltb id max_pipes then record s { pipe_used = update s.pipe_used id false } else s

-- The guard `id < 0 || id >= MAX_PIPES || !pipe_used[id]`, negated; `id` is not negative.
unfoldable pub is_live : ℕ → Pipes → Bool
is_live id s = ltb id max_pipes && s.pipe_used id

-- The loop of `pipe_write`: the list is what is left of `data[0..len)`.
unfoldable pub write_from : List ℕ → ℕ → Pipe → ℕ × Pipe
write_from [] written p = (written, p)
write_from (c ∷ cs) written p =
    let next = write_from cs (written + 1) (record p {
      buffer = update p.buffer p.write_pos c;
      write_pos = (p.write_pos + 1) % pipe_buf_size;
      count = p.count + 1;
    }) in
    if ltb p.count pipe_buf_size then next else (written, p)

unfoldable pub pipe_write : ℤ → List ℕ → Pipes → ℤ × Pipes
unfolding is_live write_from
pipe_write (negsuc _) bytes s = (minus_one, s)
pipe_write (pos id) bytes s =
    if is_live id s && (s.pipes id).write_open
    then (let (n, p) = write_from bytes 0 (s.pipes id) in
        (pos n, record s { pipes = update s.pipes id p }))
    else (minus_one, s)

-- The loop of `pipe_read`: `len - n` rounds are left; the list is what goes through `data`.
unfoldable pub read_from : ℕ → Pipe → List ℕ × Pipe
read_from zero p = ([], p)
read_from (suc k) p =
    let (cs, q) =
      read_from k (record p { read_pos = (p.read_pos + 1) % pipe_buf_size; count = p.count - 1 }) in
    if ltb 0 p.count then (p.buffer p.read_pos ∷ cs, q) else ([], p)

-- The result, the bytes put into `data`, and the new tables.
unfoldable pub pipe_read : ℤ → ℕ → Pipes → ℤ × List ℕ × Pipes
unfolding is_live read_from
pipe_read (negsuc _) len s = (minus_one, [], s)
pipe_read (pos id) len s =
    if is_live id s && (s.pipes id).read_open
    then (let (bytes, p) = read_from len (s.pipes id) in
        let t = record s { pipes = update s.pipes id p } in
        let n = length bytes in
        if n == 0 && not p.write_open then (minus_one, bytes, t) else (pos n, bytes, t))
    else (minus_one, [], s)

-- `end` 0 is the read end, any other the write end.
unfoldable pub close_end : ℕ → Pipe → Pipe
close_end end p =
    if end == 0 then record p { read_open = false } else record p { write_open = false }

unfoldable pub pipe_close : ℤ → ℕ → Pipes → Pipes
unfolding is_live close_end pipe_free
pipe_close (negsuc _) end s = s
pipe_close (pos id) end s =
    if is_live id s
    then (let p = close_end end (s.pipes id) in
        let t = record s { pipes = update s.pipes id p } in
        if not p.read_open && not p.write_open then pipe_free (pos id) t else t)
    else s
