-- ===== src/Pipe/Refine.antt =====
-- The calls of src/pipe.c on one pipe, and the bounded channel.
use os_itsc.Base.{ℕ, ◌<◌, ◌≡◌, refl, ap, ap₂, true, false, ◌||◌, List, [], ◌∷◌, pos, arith}
use os_itsc.Pipe.{Pipe, Pipes, max_pipes, pipe_write, pipe_read, pipe_close}
use os_itsc.Pipe.Ring.{IsRing, contents, length-contents, write_from-Wrote, read_from-Took}
use os_itsc.Pipe.Channel.{
  Channel, send, receive, shut, Call, write, read, close, channel_step, pipe_step, run_channel,
  run_pipe,
}

-- Slot `id` of the tables stands for the channel `c`.
pub record Serves (p : Pipe) (c : Channel) : Type 0 where
  pub ring : IsRing p
  pub holds : contents p ≡ c.queue
  pub read_end : p.read_open ≡ c.readable
  pub write_end : p.write_open ≡ c.writable

pub data Implements (s : Pipes) (id : ℕ) (c : Channel) : Type 0 where
  live :
      id < max_pipes
      → s.pipe_used id ≡ true
      → Serves (s.pipes id) c
      → (c.readable || c.writable) ≡ true
      → Implements s id c
  freed : s.pipe_used id ≡ false → c.readable ≡ false → c.writable ≡ false → Implements s id c

pub write_step :
    (s : Pipes) (id : ℕ) (c : Channel) (bytes : List ℕ)
    → Implements s id c
    → ((pipe_write (pos id) bytes s).0 ≡ (send bytes c).0)
      × Implements (pipe_write (pos id) bytes s).1 id (send bytes c).1
unfolding pipe_write send
write_step s id c bytes (freed gone nr nw) = ground arith
write_step s id c bytes (live lt used v o) =
    ground (arith, write_from-Wrote bytes 0 v.ring, length-contents (s.pipes id))

pub read_step :
    (s : Pipes) (id : ℕ) (c : Channel) (len : ℕ)
    → Implements s id c
    → ((pipe_read (pos id) len s).0 ≡ (receive len c).0)
      × ((pipe_read (pos id) len s).1 ≡ (receive len c).1)
      × Implements (pipe_read (pos id) len s).2 id (receive len c).2
unfolding pipe_read receive
read_step s id c len (freed gone nr nw) = ground arith
read_step s id c len (live lt used v o) = ground (arith, read_from-Took len v.ring)

close_step :
    (s : Pipes) (id : ℕ) (c : Channel) (end : ℕ)
    → Implements s id c
    → Implements (pipe_close (pos id) end s) id (shut end c)
unfolding pipe_close shut
close_step s id c end (freed gone nr nw) = ground arith
close_step s id c end (live lt used v o) = ground arith

-- One call answers as the channel does, and leaves the slot standing for the channel's new state.
pub step_refines :
    (k : Call) (s : Pipes) (id : ℕ) (c : Channel)
    → Implements s id c
    → ((pipe_step id k s).0 ≡ (channel_step k c).0)
      × Implements (pipe_step id k s).1 id (channel_step k c).1
unfolding pipe_step channel_step
step_refines (write bytes) s id c i =
    let r = write_step s id c bytes i in (ap (λ t. (t, [])) r.0, r.1)
step_refines (read len) s id c i =
    let r = read_step s id c len i in (ap₂ (λ t u. (t, u)) r.0 r.1, r.2)
step_refines (close end) s id c i = (refl, close_step s id c end i)

-- If a slot stands for a bounded channel, whatever a client writes to, reads from and closes of
-- that pipe, in whatever order, it gets the replies of the channel, before and after the pipe is
-- freed.
pub run_refines :
    (ks : List Call) (s : Pipes) (id : ℕ) (c : Channel)
    → Implements s id c
    → run_pipe id ks s ≡ run_channel ks c
unfolding run_pipe run_channel
run_refines [] s id c i = refl
run_refines (k ∷ ks) s id c i =
    let r = step_refines k s id c i in ap₂ ◌∷◌ r.0 (run_refines ks _ id _ r.1)
