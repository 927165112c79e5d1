-- ===== src/Lib.antt =====
-- OS_ITSC, a small kernel for a 32-bit PC. The library models the parts of the kernel that hold
-- its logic: the scheduler and the process table (src/kernel.c), the system calls and the timer
-- (src/idt.c), pipes (src/pipe.c), the kernel heap (src/heap.c), the frame allocator (src/pmm.c),
-- paging (src/vmm.c), the file system (src/fs.c) and the disk it is saved on (src/ata.c), the
-- descriptors and the task state segment (src/gdt.c, src/idt.c, src/tss.c), what is printed
-- (src/uart.c, src/kernel.c), and the drawing on the screen (src/vga.c).
--
-- The parts interact through one state, the record Kernel of Kernel.antt: the timer handler calls
-- scheduler_tick, which calls the code of a process; that code enters syscall_handler, which calls
-- yield, kill_process, the pipes, the heap and the consoles.
--
--  Base        comparisons, integers, lists and tables that the others share
--  Console     uart_print, uart_print_int, kprint_int and the hexadecimal printers;
--              Screen is kprint on the cells of the text screen, Readline is uart_readline
--  Pipe        pipe_init, pipe_alloc, pipe_free, pipe_write, pipe_read, pipe_close; Channel is the
--              specification, Ring the buffer, Refine and Table the proofs
--  Heap        block headers and the free list; Calls has kmalloc, kfree and the accounting;
--              Chain is the free list as a chain, Total, Insert and Freed the walks of kmalloc and
--              kfree along it, Twice a block freed twice, Bounds and Reuse the addresses; Demo is
--              heap_dump and heap_test
--  Pmm         pmm_init, pmm_alloc_frame, pmm_free_frame; Bits, Count, Frames and Init have the proofs
--  Vmm         page directories: vmm_map_page, vmm_unmap_page, vmm_create_pd, vmm_destroy_pd, vmm_init;
--              Walk is the processor's walk, Fresh, Map, Unmap and Identity the proofs
--  Allocator   kmalloc and kfree as a client of the heap sees them
--  Disk        ata_read_sector and ata_write_sector
--  Fs          the tree, create_node and fs_mkdir; Commands has fs_cd to fs_cat, Table the bytes of
--              disk_entry_t, Save fs_save_to_disk, Restore fs_init; Places, Contents, Creation and the
--              modules of Trip (a tree saved and restored) have the proofs
--  Gdt         gdt_set_gate and idt_set_gate; Tss has gdt_init, tss_init, tss_set_esp0 and
--              tss_install_gdt, Idt the setup of the interrupt table and the timer
--  Vga         put_pixel to term_print; Pixels and Bounds have the proofs
--  Kernel      proc_state_t, pcb_t and the variables of src/kernel.c
--  Memory      bytes of the address space that are copied
--  Strings     strcmp, strncmp, trim and is_pipeline
--  Sched       pick_next_ready, update_waiting, yield and scheduler_tick; the children have the proofs
--  Proc        fd_init, fd_write, fd_read, kill_process, wait_process; Load has load_and_run
--              and list_processes, Copies heap_test_processes, Spawn spawn_pipeline_process,
--              Pipeline execute_pipeline, Stages and Leaks the proofs
--  Syscall     syscall_handler and timer_handler_c; Keeps, Invariant, Timer and Through have the proofs
--  Shell       how shell_loop reads a line as a command; Demo is its command demo, Run and Loop what
--              every command does and the loop; Parse, Separate, Room and Steady have the proofs
--  User        the system calls of src/u1.c, src/u2.c, src/prog1.c and src/prog2.c
--  Standalone  src/scheduler.c: scheduler_tick, yield and main; Rounds and Ends have the proofs
--
-- Pointers and unsigned words are natural numbers below 2^32 with the wrap-around written out. An
-- `int` is an integer; a sum out of its range, which C leaves undefined, is not wrapped. A static
-- array is a function of the index; an index that C would take outside of the process table gives
-- `none`. Strings are lists of the bytes before the NUL. A loop over a range is recursion on the
-- number of rounds. A walk of the free list of the heap runs on fuel of two more than the bytes of
-- the heap, more than the headers of a list that goes up in the heap; a walk that it does not see
-- the end of gives `none`. The digits of a number are printed on fuel of one more than the number
-- printed, more than its digits. The last loop of src/scheduler.c runs on fuel, and as much as
-- there are rounds left is enough; the wait of src/prog1.c and src/prog2.c runs on fuel too.
--
-- The page tables are words by page and index, where physical memory is mapped to itself. The
-- nodes of the file system are a tree in the order of the `next` pointers, and the current
-- directory is a place in it: the levels above, each with the children on both sides.
-- `sizeof(fs_node_t)` is 56 and `sizeof(disk_entry_t)` 52. What stands on the stack in a table
-- that is not set is an argument. The file system runs over any allocator.
--
-- A pipeline waits on fuel, one for each halt of the processor; what happens between two halts is
-- an argument, and a wait that the fuel does not see the end of gives `none`.
--
-- The code of a process is an argument of scheduler_tick: a function of the entry address and the
-- state, `none` where it does not return. The bytes of the two linked programs and the font
-- (src/font8x8.h, a copy of another project's table) are arguments too. Memory that system calls
-- copy is a function of the address. The kernel does not test the pointers of a program: a call
-- that stores over the kernel's own data, its variables and its heap, gives `none`, and the
-- addresses of that data are an argument. The headers of the heap are records by the address of
-- their first byte; where two of them have bytes in common, a write to one would change the other,
-- so the lists that the proofs are about have their blocks apart.
--
-- The shell runs the commands of src/fs.c on the heap of the kernel; a heap behind a walk that
-- does not end has no state. The interrupts that come while it waits for a line are taken together
-- before the line is read, and the loop runs on fuel, one for each line; its result is the state
-- in which the command exit stops the processor.
--
-- Not modelled: ports that are read, interrupts and assembly; delays, which only wait;
-- kernel_main, which calls the set-up of each part.
pub mod Base
pub mod Console
pub mod Pipe
pub mod Heap
pub mod Pmm
pub mod Vmm
pub mod Gdt
pub mod Vga
pub mod Kernel
pub mod Memory
pub mod Strings
pub mod Allocator
pub mod Disk
pub mod Fs
pub mod Sched
pub mod Proc
pub mod Syscall
pub mod Shell
pub mod Standalone
pub mod User
