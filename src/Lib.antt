-- ===== src/Lib.antt =====
-- charOS: models of the kernel's core and what holds of them.
--
-- charOS is a kernel for x86 with its own memory management, tasks, file systems, network and desktop
-- (kernel/), and a second, 64-bit kernel in many small parts (kernel/arch/x86_64/). The models
-- here cover, for the memory, the tasks and TCP of the first kernel and for some parts of the second,
-- what those parts keep and every call that changes it:
--
-- - Memory.Pmm (kernel/memory/pmm.c, include/memory/pmm.h): the frame allocator. `Pmm` is the packed
--   bitmap with the reference counts and the free counter; `alloc_frame`, `free_frame`, `inc_ref`,
--   `dec_ref`, `get_ref` are pmm_alloc_frame and so on; `reserve_region` and `free_region` work on
--   regions, `init` is pmm_init on the memory map of the boot loader. The modules below it: Bitmap
--   (bits of the words), Count (the free counter), Frames and Sharing (single frames and their
--   users), Region, Init.
-- - Memory.Heap (kernel/memory/kheap.c): kmalloc and kfree on the list of blocks, which takes its
--   frames from the frame allocator as a number that it still gives. Tiling has the lemmas on
--   lists of blocks, Calls the results, Realloc krealloc and kmalloc_aligned. A pointer of no block of
--   the list has no result in kfree and krealloc: the code goes by the bytes in front of it.
-- - Memory.Slab (kernel/arch/x86_64/slab64.c): objects of nine sizes in frames; Count has its result.
--   slab64_free has none where its link would be stored in a header or in a free object.
-- - Memory.Buddy (kernel/arch/x86_64/buddy64.c): blocks of 2 ^ order frames.
-- - Process.Task (include/process/task.h): the states of a task.
-- - Process.Pipe (kernel/process/pipe.c): the blocking pipe. A call that sleeps is a sequence of
--   sections, each under the lock of the pipe, with the sections of other tasks between them; a wake-up
--   sets a task's state, which the scheduler reads. Fifo: the ring as a queue; Stream and Wake: every
--   interleaving of sections; Calls: whole calls. Process.PipeBuf is the older pipe of the same file.
-- - Process.Semaphore (kernel/process/semaphore.c) and Process.Futex (kernel/process/futex.c): the
--   other two ways to sleep and to be woken, in the same style.
-- - Process.Pty (kernel/process/pty.c): pseudo terminals; Line is the editing of a line, Output the
--   ring that a program writes and a terminal reads.
-- - Process.Cap (kernel/process/cap.c) and Process.Sandbox (kernel/process/sandbox.c): the sets of
--   capabilities with the ring of decisions, and the filter of system calls.
-- - Process.Contracts (kernel/core/verify.c): the contracts of both with null pointers, and the counter.
-- - Process.Wait (kernel/process/wait.c, task_exit of kernel/process/task.c): waiting for a child, as
--   sections of calls; Reap: one look at the task list. Process.Signals (kernel/process/signal.c): sending
--   and, in Deliver, delivering signals.
-- - Process.Scheduler (kernel/arch/x86_64/sched64.c): the table of tasks by priority. Pick: the choice
--   of the next; Rotate: yielding; Table: adding and removing.
-- - Storage.Journal (kernel/arch/x86_64/journal64.c): the write-ahead journal over a block writer that
--   is set from outside, of which the calls are kept in order.
-- - Storage.Packages (kernel/arch/x86_64/txn64.c): transactions on the installed packages.
-- - Storage.Repo (kernel/arch/x86_64/repo64.c): the repository index; Order compares versions.
-- - Storage.Depsolve (kernel/arch/x86_64/depsolve64.c): the dependency solver, which asks the index for
--   what has no description. Ordered has the lemmas on visits, Solve the order it gives.
-- - Net.Frame (kernel/net/tcp.c): frames with their checksums, built and parsed; Sums and Parse have
--   the results. Net.Tcp (the same file): the connections. Input is tcp_input, Timer is tcp_tick and
--   the calls that read one field; Moves and Machine: the state machine; Resend, Counter and Patience:
--   the retransmission slot; Stream and Delivery: the receive buffer; Inject: frame and connection
--   together.
-- - Text.Memory (kernel/lib/string.c): the functions on memory and C strings. Text.Iconv
--   (kernel/arch/x86_64/iconv64.c): decoding and encoding a point, in Handles the table of conversions,
--   in Stream the conversion loop; Utf8, Points, Convert and Bounds have the results.
-- - Base: lists and arrays with native numbers, linear scans, bits of a word, rings.
--
-- Conventions. State is passed explicitly; a record has the fields of the struct or the static
-- variables of the file. A call under a lock is one function. Machine words are numbers with their
-- wrap-around written out where the code relies on it; an `int` that the code keeps at 0 or more is a
-- number. An error result is `none` or a constructor. A loop over a table recurses on the number of
-- rounds that the C loop has left (`scan`, `pick_from`, `commit_from`), so it always ends; the loops over
-- texts recurse on fuel that results show to be enough, the solver on what is left of its stack; the waiting
-- loops of pipes take the list of what other tasks do in between, and end when that does.
--
-- Not modelled: console and serial output, self-tests, the interrupt and lock primitives, null
-- pointers where a header says so; strtok and atoi; the file systems, network card, drivers, paging, fork and exec, the
-- desktop, and the parts of kernel/arch/x86_64 not named above.
pub mod Base
pub mod Memory
pub mod Net
pub mod Process
pub mod Storage
pub mod Text
