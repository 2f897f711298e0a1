-- ===== src/Lib.antt =====
-- libdw-bpf: unwinding the user stacks of a process from DWARF data, for samples that a BPF
-- program has taken (README.md). This library models the C code under src/ and bpf/, and the
-- queue of one of the examples.
--
-- The parts and how they interact. A `struct machine` (src/machine.c) holds the threads of the
-- traced processes, in a table of search trees, and all shared objects (src/dso.c). A thread
-- (src/thread.c) shares its `struct maps` (src/map.c) with its process: a search tree of memory
-- ranges, each with the shared object that it maps. To unwind a sample, libunwind calls back
-- (src/unwind_libunwind.c): it asks for registers, for words of the saved stack, for words of
-- mapped files, and for the table of unwind data of the object at an address. All reads of a file
-- go through a cache of its pages (src/dso.c).
--
-- The files, and what they are a model of:
--   Prelude         shared names: Boolean tests on numbers, lists cut into windows, machine words.
--   Outcome         the end of a C run: a value, a failed assert, or undefined behaviour.
--   Rbtree          src/rbtree.h as its users see it: nodes, links, `rb_link_node`.
--   Rbtree/Search   the descent `while (*p != NULL)` that each user of the tree writes.
--   Refcount        src/refcount.h; Refcount/Threads runs its accesses in any interleaving.
--   Utility         src/utility.c: `path__join`, `is_regular_file`; the system calls on files.
--   Ptrace          src/ptrace.h: `struct pt_regs`, `reg_value`.
--   Dso             src/dso.h, src/dso.c: `struct dso`; Dso/Open opens the data file and reads its
--                   size, Dso/Cache is `dso_cache__find` to `dso__data_read_offset`.
--   Dsos            src/dso.c: `__dso__findlink_by_longname` to `dsos__findnew`; Dsos/Findnew is what
--                   `dsos__findnew` leaves, whether the name is known or not; Dsos/Shared sets names.
--   Rwsem           src/rwsem.c: the lock operations, over the threads library's locks.
--   Store           the memory of the objects behind pointers (src/map.h, src/thread.h,
--                   src/machine.h) and the commands on it.
--   Maps            src/map.c: `map_ip`, `unmap_ip`, `maps__find`, `maps__insert`;
--                   Maps/Objects is `map__init` and `map__new`; Maps/Lifetime the references to
--                   maps, `maps__new` to `maps__put`.
--   Symbol          src/symbol_elf.c: `elf_section_by_name`.
--   Unwind          src/unwind_libunwind.c, the callbacks: Unwind/Registers is `access_reg`,
--                   Unwind/Encoding `__dw_read_encoded_value`, Unwind/Memory `access_mem` and
--                   `access_dso_mem`, Unwind/Table `read_unwind_spec_eh_frame` and (in
--                   Unwind/Table/Proc) `find_proc_info`; Unwind/Frames is `get_entries`,
--                   Unwind/Access `unwind__prepare_access` to `unwind__get_entries`, and
--                   Unwind/Callbacks the callbacks that only print.
--   Thread          src/thread.c: `thread__insert_map`, `thread__set_comm`; Thread/Lifetime is
--                   `thread__new` to `thread__put`.
--   Machine         src/machine.c: `machine__init`; Machine/Findnew is `machine__findnew_thread` with
--                   `thread__init_maps` of src/thread.c; Machine/Table is the order of a bucket;
--                   Machine/Delete is `__machine__remove_thread` to `machine__delete`.
--   Event           src/event.c: `bpf_unwind_ctx__thread_map`, with the lines of the /proc file and
--                   `bpf_unwind_ctx__process_mmap`; `bpf_unwind_ctx__resolve_callchain` and
--                   `bpf_dl_iterate_phdr`. Event/Step is the handler behind the search for the
--                   thread, Event/Serves what one event leaves of a process, and Event/Filled
--                   what all lines of the file leave: it joins machine.c, dso.c, map.c and thread.c;
--                   Event/Samples resolves samples of such a process.
--   Bpf             bpf/ebpf_get_unwind_ctx.c: `get_unwind_ctx`; Bpf/Cache is its table `cache`.
--   Examples        examples/syscall_parallel.cc, with examples/queue.h and examples/stoppable.h:
--                   the polling thread, the queue and the resolving threads, as interleaved steps.
-- Each of them has child modules for its theorems, and a module Tests with concrete inputs.
--
-- Conventions. A pointer is a number, NULL the `none` of an option; a read through a pointer that
-- holds nothing, a read of a freed block and a read of bytes that were never written are faults.
-- Words of the machine are native numbers, and each sum and difference that the code makes is
-- taken modulo 2^64 or 2^32; a pid_t is its 32-bit pattern. A C string is the list of its bytes.
-- An allocation never fails, since `xmalloc` ends the process if it does.
--
-- Fuel. `cached_read` runs on fuel, and is given one round more than the bytes that are asked
-- for: a round that does not end the loop has read a byte. A size is a `ssize_t`, and is to be
-- below 2^63; the code asks for a word, or for the few bytes of a header. `elf_section_by_name`
-- runs on fuel that is a parameter, since the number of sections is libelf's; more rounds than
-- sections are enough. The loop of `get_entries` has one round for each address that there is
-- room for. The search for a thread calls itself for the leader of its process; its fuel is the
-- depth of these calls, and two are enough, since a leader is its own leader and asks for no
-- other search.
--
-- Parameters. The balancing of the tree is the Linux kernel's code (src/rbtree.c and
-- src/rbtree_augmented.h), and is taken as the records `Balance`, where `rb_insert_color` keeps
-- the order of the nodes, and `Erase`, where `rb_erase` takes one node out and keeps the order of
-- the others; Rbtree/Concrete has simple functions of this kind, for runs. The system calls are
-- the record `Files`, and `IsFile` says of it that a file is regular, can be opened, and that
-- `pread` gives its bytes up to the end. libelf is the record `Libelf`, and `Sections` lists what
-- `elf_nextscn` goes through. libunwind's cursor is the record `Unwinder`, with the frames that
-- it steps through as the relation `Frames`; what its callbacks do to the caches during a step is
-- not seen there. `dwarf_search_unwind_table` is a parameter of `find_proc_info`, and may change
-- the memory, since it calls back. libunwind's address spaces are the record `AddrSpaces`;
-- `IsCreating` says that one can be created and that libunwind leaves the library's objects
-- alone, and `IsDestroying` that destroying one leaves them alone, too. `basename` of libgen.h is
-- a parameter. The record `ProcMaps` is stdio on the files of /proc: the lines that fgets gives,
-- and what sscanf stores of a line; Event/Scan is an sscanf of this kind, with the conversions of
-- the code's format. The record `Kernel` gives the results of the BPF helpers of one sample. The
-- callback of `bpf_dl_iterate_phdr` has a state of its own and does not call the library.
--
-- Not modelled: src/list.h, src/queue.h, src/stdatomic.h, src/rbtree.c and src/rbtree_augmented.h
-- are copies of other projects' files. The lock operations of src/rwsem.c do nothing while
-- `singlethreaded` is set, as it always is, so that the commands on the memory leave them out.
-- The other programs of examples/ poll and resolve in one thread; tests/ and cases/ are a test
-- and a traced program. In Examples the queue holds pointers into the perf buffer, whose samples
-- may be written over at any time; a thread reads and resolves a sample in one step. A sample
-- that is not resolved ends the run, as the program then exits, and so does a second signal, for
-- which `stop` throws.
pub mod Prelude
pub mod Outcome
pub mod Rbtree
pub mod Utility
pub mod Dso
pub mod Refcount
pub mod Ptrace
pub mod Unwind
pub mod Store
pub mod Maps
pub mod Symbol
pub mod Thread
pub mod Dsos
pub mod Machine
pub mod Event
pub mod Bpf
pub mod Rwsem
pub mod Examples
