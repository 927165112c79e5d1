-- ===== src/Sched/Samples.antt =====
-- States of the process table for the tests.
use os_itsc.Base.{
  ℕ, zero, suc, refl, true, false, ◌==◌, [], ℤ, pos, minus_one, if◌then◌else◌, arith,
}
use os_itsc.Heap.Chain.{over}
use os_itsc.Kernel.{ProcState, unused, ready, running, waiting, Pcb, Kernel}
use os_itsc.Heap.{Heap}
use os_itsc.Pipe.{Pipes, pipe_init}
use os_itsc.Pipe.Table.{IsPipes, pipe_init-IsPipes}
use os_itsc.Sched.Invariant.{IsSched}
use os_itsc.Sched.Tick.{IsBusy, IsSteady}

-- A process with five ticks of work, its standard descriptors open.
abbrev pub sample_pcb : ProcState → ℤ → Pcb
sample_pcb st ticks = record {
  entry = 0;
  remaining = pos 5;
  state = st;
  wait_ticks = ticks;
  fd_table = λ i. if i == 0 then pos 1 else if i == 1 then pos 3 else pos 0;
  pipeline_tag = false;
  page_dir = 0;
  saved_esp = 0;
  kernel_stack = 0;
  user_stack = 0;
  is_user = false;
}

abbrev pub sample_pipes : Pipes
sample_pipes = record {
  pipes = λ _. record {
    buffer = λ _. 0;
    read_pos = 0;
    write_pos = 0;
    count = 0;
    read_open = false;
    write_open = false;
  };
  pipe_used = λ _. false;
}

abbrev pub sample_heap : Heap
sample_heap = record {
  heap_start = 0x20_0000;
  heap_end = 0x40_0000;
  heap_bump = 0x20_0000;
  free_list = 0;
  alloc_count = 0;
  mem = λ _. record { size = 0; next = 0; free = false };
}

-- Three processes: the first runs, the second waits for three ticks, the third is ready.
abbrev sample_states : ℕ → Pcb
sample_states zero = sample_pcb running (pos 0)
sample_states (suc zero) = sample_pcb waiting (pos 3)
sample_states (suc (suc zero)) = sample_pcb ready (pos 0)
sample_states (suc (suc (suc _))) = sample_pcb unused (pos 0)

abbrev pub sample_kernel : Kernel
sample_kernel = record {
  proc_table = sample_states;
  nr_procese = 3;
  current = pos 0;
  slice = 0;
  preemptive_mode = true;
  system_ticks = 0;
  in_tick = false;
  kernel_idle_esp = 0;
  pipes = pipe_init sample_pipes;
  heap = sample_heap;
  memory = λ _. 0;
  kernel_pd = 0;
  serial = [];
  serial_in = [];
  console = [];
}

-- Two processes that are ready, none of which has been chosen.
abbrev pub unstarted_kernel : Kernel
unstarted_kernel = record sample_kernel {
  proc_table = λ _. sample_pcb ready (pos 0);
  nr_procese = 2;
  current = minus_one;
}

pub sample-IsSched : IsSched sample_kernel
sample-IsSched = record {
  fits = omega arith;
  where_ok = refl;
  heap_ok = record {
    real = omega arith;
    room = omega arith;
    addressed = omega arith;
    chain = over;
  };
  slots = λ i lt. ground arith;
}

pub sample-IsBusy : IsBusy sample_kernel
sample-IsBusy = record { sched = sample-IsSched; busy = refl }

pub sample-IsSteady : IsSteady sample_kernel
sample-IsSteady = record { sched = sample-IsSched; started = refl }

pub sample-IsPipes : IsPipes sample_kernel.pipes
sample-IsPipes = pipe_init-IsPipes sample_pipes
