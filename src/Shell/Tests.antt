-- ===== src/Shell/Tests.antt =====
-- Lines of the shell, and the demonstration.
use os_itsc.Base.{ltb, Returns, Bool, Option, true, [], some, none, ◌≡◌, refl, false}
use os_itsc.Console.{text}
use os_itsc.Shell.{make_dir}
use os_itsc.Fs.{fs_directory, nil, blank_info}
use os_itsc.Shell.Run.{System, Outside}
use os_itsc.Shell.Loop.{run_command, shell_loop}
use os_itsc.Shell.Steady.{StaysSteady, run_command-Steady}
use os_itsc.Sched.Samples.{sample_kernel, sample-IsSteady}

-- A system with two processes, the root of the tree of files, and nothing outside.
abbrev sample_system : System
sample_system = record {
  machine = record {
    kernel = sample_kernel;
    vmm = record {
      kernel_pd = 0;
      frames = record { base = 0x2000; bitmap = λ _. 3; total_frames = 2; used_frames = 2 };
      page = λ _ _. 0;
    };
  };
  place = record {
    above = [];
    here = blank_info 0x30_0004 (text "root") fs_directory;
    children = nil;
  };
  disk = λ _ _. 0;
  term = record { term_x = 0; term_y = 0; screen = λ _. 0 };
}

abbrev nothing_outside : Outside
nothing_outside = record {
  entry1 = 0x1000;
  entry2 = 0x2000;
  entry3 = 0x3000;
  programs = λ _. [];
  infos = λ _. record { entry = 0; start = 0; end = 0 };
  stale = λ _. record {
    name = λ _. 0;
    kind = 0;
    is_used = 0;
    parent_idx = 0;
    size = 0;
    data_sector = 0;
  };
  interrupts = λ m. some m;
  fuel = 0;
  own = λ a. ltb a 0x30_0000;
}

run_command_example :
    Returns StaysSteady
      (run_command (λ _ _. 0) nothing_outside (make_dir (text "docs")) sample_system)
run_command_example =
    run_command-Steady (λ _ _. 0) nothing_outside (make_dir (text "docs")) sample_system refl
      sample-IsSteady

-- Two lines, the second of which ends the loop.
abbrev two_lines : System
two_lines = record sample_system {
  machine = record sample_system.machine {
    kernel = record sample_kernel { serial_in = text "preempt\rexit\r" };
  };
}

abbrev is_preemptive : Option System → Bool
is_preemptive none = false
is_preemptive (some s) = s.machine.kernel.preemptive_mode

loop_ends : is_preemptive (shell_loop (λ _ _. 0) 2 nothing_outside two_lines) ≡ true
unfolding shell_loop
loop_ends = refl
