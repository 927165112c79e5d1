-- ===== src/Syscall/Tests.antt =====
-- System calls at concrete states.
use os_itsc.Base.{
  Bool, ltb, Returns, returns, ℕ, ◌%◌, ◌≡◌, ◌==◌, refl, pos, List, some, true, false, [], ◌∷◌,
  arith,
}
use os_itsc.Memory.{bytes_at, store_bytes}
use os_itsc.Pipe.Channel.{open_channel}
use os_itsc.Pipe.Refine.{Implements, live}
use os_itsc.Syscall.Through.{sys_read-sys_write}
use os_itsc.Kernel.{Kernel}
use os_itsc.Pipe.Table.{IsPipes}
use os_itsc.Sched.{scheduler_tick}
use os_itsc.Sched.Samples.{sample_kernel, sample-IsBusy, sample-IsSteady, sample-IsPipes}
use os_itsc.Sched.Tick.{IsBusy, IsSteady}
use os_itsc.Syscall.{Regs, is_outside, sys_write, sys_read, syscall_handler, timer_handler}
use os_itsc.Syscall.Timer.{timer_handler-IsSteady}
use os_itsc.Syscall.Invariant.{
  IsTame, no_call, next_call, syscall_handler_keeps, make_calls, scheduler_tick_calls,
}

-- Requests for memory and for a pipe, and one to give up the processor.
abbrev memory_request : Regs
memory_request = record { eax = 4; ebx = 100; ecx = 0; edx = 0 }

abbrev pipe_request : Regs
pipe_request = record { eax = 7; ebx = 0x40_1000; ecx = 0; edx = 0 }

abbrev yield_request : Regs
yield_request = record { eax = 2; ebx = 0; ecx = 0; edx = 0 }

-- The kernel's own data lies below 3 MB.
abbrev own_data : ℕ → Bool
own_data a = ltb a 0x30_0000

memory-IsTame : IsTame own_data memory_request
memory-IsTame = record {
  size = λ e. omega arith;
  buffer = λ e. absurd (ground arith);
  place = λ e. absurd (ground arith);
}

pipe-IsTame : IsTame own_data pipe_request
unfolding is_outside
pipe-IsTame = record {
  size = λ e. absurd (ground arith);
  buffer = λ e. absurd (ground arith);
  place = λ e. refl;
}

yield-IsTame : IsTame own_data yield_request
yield-IsTame = record {
  size = λ e. absurd (ground arith);
  buffer = λ e. absurd (ground arith);
  place = λ e. absurd (ground arith);
}

syscall_handler_keeps_example :
    Returns
      (λ (out : Regs × Kernel). IsBusy out.1 × IsPipes out.1.pipes)
      (syscall_handler own_data memory_request sample_kernel)
syscall_handler_keeps_example =
    syscall_handler_keeps own_data memory_request sample_kernel memory-IsTame sample-IsBusy
      sample-IsPipes

abbrev program : ℕ → Kernel → List Regs
program e k = memory_request ∷ pipe_request ∷ yield_request ∷ []

scheduler_tick_calls_example :
    Returns IsSteady (scheduler_tick (λ e t. make_calls own_data (program e t) t) sample_kernel)
scheduler_tick_calls_example =
    scheduler_tick_calls own_data program
      (λ e k. next_call memory-IsTame (next_call pipe-IsTame (next_call yield-IsTame no_call)))
      sample_kernel sample-IsSteady

timer_handler-IsSteady_example :
    Returns
      (λ (t : Kernel). IsSteady t × (t.in_tick ≡ false))
      (timer_handler (λ e k. some k) 0x20_0000 sample_kernel)
timer_handler-IsSteady_example =
    timer_handler-IsSteady (λ e k. some k) (λ e k v. returns v) 0x20_0000 sample_kernel
      sample-IsSteady

-- A kernel with an open empty pipe in slot 0, of which descriptor 0 is the write end.
abbrev piped_kernel : Kernel
piped_kernel = record sample_kernel {
  pipes = record {
    pipes = λ _. record {
      buffer = λ _. 0;
      read_pos = 0;
      write_pos = 0;
      count = 0;
      read_open = true;
      write_open = true;
    };
    pipe_used = λ i. i == 0;
  };
  memory = λ a. a % 256;
}

open_pipe : Implements piped_kernel.pipes 0 open_channel
open_pipe =
    live (omega arith) refl
      (record {
        ring = record { read_in = omega arith; fits = omega arith; joined = refl };
        holds = refl;
        read_end = refl;
        write_end = refl;
      })
      refl

abbrev write_call : Regs
write_call = record { eax = 1; ebx = 0; ecx = 0x1000; edx = 5 }

abbrev read_call : Regs
read_call = record { eax = 6; ebx = 2; ecx = 0x40_2000; edx = 64 }

buffer_free : is_outside own_data 64 0x40_2000 ≡ true
unfolding is_outside
buffer_free = refl

sys_read-sys_write_example :
    let t = record (sys_write write_call piped_kernel).1 { current = pos 1 } in
    ((sys_write write_call piped_kernel).0.eax ≡ 5)
    × ((out : Regs × Kernel) × (sys_read own_data read_call t ≡ some out)
        × (out.0.eax ≡ 5)
        × (out.1.memory
            ≡ store_bytes (bytes_at 5 0x1000 piped_kernel.memory) 0x40_2000 piped_kernel.memory))
sys_read-sys_write_example =
    sys_read-sys_write own_data write_call read_call piped_kernel 0 1 0 refl (omega arith)
      (omega arith) (omega arith) (omega arith) refl refl open_pipe (omega arith) (omega arith)
      (omega arith) buffer_free
