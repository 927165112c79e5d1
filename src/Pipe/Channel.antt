-- ===== src/Pipe/Channel.antt =====
-- What pipe.c promises of one pipe: a bounded queue of bytes with two ends that can be closed.
use os_itsc.Base.{
  ℕ, ◌-◌, min, Bool, true, false, not, ◌&&◌, List, [], ◌++◌, ◌∷◌, ℤ, pos, minus_one, length, take,
  drop, ◌==◌, if◌then◌else◌,
}
use os_itsc.Pipe.{Pipes, pipe_buf_size, pipe_write, pipe_read, pipe_close}

pub record Channel : Type 0 where
  pub queue : List ℕ
  pub readable : Bool
  pub writable : Bool

abbrev pub open_channel : Channel
open_channel = record { queue = []; readable = true; writable = true }

-- A write takes the bytes that fit.
unfoldable pub send : List ℕ → Channel → ℤ × Channel
send bytes c =
    let room = pipe_buf_size - length c.queue in
    if c.writable
    then (pos (min (length bytes) room), record c { queue = c.queue ++ take room bytes })
    else (minus_one, c)

-- A read of nothing is an error once the write end is closed.
unfoldable pub receive : ℕ → Channel → ℤ × List ℕ × Channel
receive len c =
    let got = take len c.queue in
    let rest = record c { queue = drop len c.queue } in
    if c.readable
    then (if length got == 0 && not c.writable
        then (minus_one, got, rest)
        else (pos (length got), got, rest))
    else (minus_one, [], c)

unfoldable pub shut : ℕ → Channel → Channel
shut end c = if end == 0 then record c { readable = false } else record c { writable = false }

-- The calls that a client makes on one pipe, and what it sees of each.
pub data Call : Type 0 where
  write : List ℕ → Call
  read : ℕ → Call
  close : ℕ → Call

abbrev pub Reply : Type 0
Reply = ℤ × List ℕ

unfoldable pub channel_step : Call → Channel → Reply × Channel
unfolding send receive shut
channel_step (write bytes) c = let (r, d) = send bytes c in ((r, []), d)
channel_step (read len) c = let (r, got, d) = receive len c in ((r, got), d)
channel_step (close end) c = ((pos 0, []), shut end c)

unfoldable pub pipe_step : ℕ → Call → Pipes → Reply × Pipes
pipe_step id (write bytes) s = let (r, t) = pipe_write (pos id) bytes s in ((r, []), t)
pipe_step id (read len) s = let (r, got, t) = pipe_read (pos id) len s in ((r, got), t)
pipe_step id (close end) s = ((pos 0, []), pipe_close (pos id) end s)

unfoldable pub run_channel : List Call → Channel → List Reply
run_channel [] c = []
run_channel (k ∷ ks) c = let (r, d) = channel_step k c in r ∷ run_channel ks d

unfoldable pub run_pipe : ℕ → List Call → Pipes → List Reply
run_pipe id [] s = []
run_pipe id (k ∷ ks) s = let (r, t) = pipe_step id k s in r ∷ run_pipe id ks t
