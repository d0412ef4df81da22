-- ===== src/Lib.antt =====
-- A model of a small operating system in C: a kernel that schedules the processes of its consoles, a
-- CPU that executes their instructions, a memory module with segments, and a file system. The modules
-- are programs of their own, which exchange packages over sockets; the package format and the data
-- structures that travel are in a shared library. A process is an execution context: its instructions,
-- program counter, registers and segment table. The kernel sends the context to the CPU, which runs it
-- until it needs the kernel, and returns it with a request.
--
-- Common       helpers: Boolean tests, lists over native numbers, `int` values, `atoi`.
-- Package      shared/src/shared_package.c: typed byte buffers; `package_add`, `package_write`,
--              `package_nest` and `package_close` write, `package_decode` and its kin read at an offset.
--              A read past the end of a buffer is `none`.
-- Serializer   shared/src/shared_serializer.c: instructions, queues of them, CPU registers, segment tables
--              (SegmentTables, AllSegments), and execution contexts (Context).
-- OpCode       the operation codes of shared/include/shared_utils.h, `read_op_code`, `parse_op_code`.
-- Consola      consola/src/instructions_handler.c: an instruction file as a package.
-- Memory       memoria/src: the structures (State), first, best and worst fit and `add_segment` (Fit),
--              `delete_segment`, `compact_hole_list` and `remove_sg_table` (Delete), `compact_memory`
--              (Compact), `read_memory` and `write_memory` (Access), and `handle_modules` of handlers.c,
--              which dispatches the messages to them (Messages). Segments and holes are structs
--              behind pointers, as in the C code, where a deleted segment becomes a hole: a pointer is
--              a number, `cells` gives its struct, and the lists hold pointers. An address is an offset
--              from the start of the heap. Invariant states when these structures are sound.
-- Cpu          cpu/src: the registers (RegisterFile), `mmu` (Mmu), `fetch`, `decode` and `execute`
--              (Execute), and the loops of `main` (Cycle, Session). Echo puts the CPU on top of the memory
--              module.
-- Kernel       kernel/src: PCBs behind pointers (State), `resource_get`, `resource_signal` and the
--              requests WAIT, SIGNAL, EXIT and I_O (Resources), the file requests and `handle_fs`
--              (Files), CREATE_SEGMENT and DELETE_SEGMENT (SegmentRequests), FIFO, HRRN and the
--              short-term scheduler (Schedule), the long-term scheduler (LongTerm), a round of the loop
--              of `main` around them (Round), `handle_new_process` (NewProcess), and the threads as
--              steps in any order (Interleaved). FileLock says what lock a file is.
-- Filesystem   filesystem/src/handler_instruction_filesystem.c: the bitmap and the pointers of an
--              indirect block (Blocks), the disk and its control blocks (Disk), `resize_block` and
--              `truncate_file` (Resize), `iterate_block_file` (Transfer), `open_file`,
--              `process_instruction` and `handle_kernel` (Dispatch). Flat is the reference for
--              a transfer, byte by byte over the addresses of a file; Exchange is about
--              the requests that move bytes, with whatever the memory answers.
--
-- Conventions. A function that may read through NULL or out of bounds, or that aborts, returns an
-- Option, where `none` is that fault. Where the C code returns NULL as a value, a second Option stands
-- inside. Logs, delays, mutexes, and the freeing of memory are left out, except where a log line reads
-- through a pointer. Bytes are numbers; sizes and offsets of packages wrap at 64 bits, the program
-- counter at 32 bits, and `to_int` cuts to an `int`; sizes in the memory module are taken as numbers
-- that do not overflow. The code outside the repository is a parameter: `string_split`, `string_itoa`,
-- `list_sort`, `malloc`, the answer to a message to the memory module, the file system or the CPU, the
-- float quotient of HRRN as a bit pattern, and the float estimates of YIELD. The wait of the kernel for
-- its file thread before a compaction is the parameter `drain`.
--
-- Fuel. `deserialize_instruction`, `deserialize_instructions`, `deserialize_segment_table`,
-- `deserialize_all_segments_tables` and `deserialize_execution_context` run for one round more than the
-- package has bytes, and each round passes a byte at least. `read_memory` runs for one round more than
-- the bytes to read. `remove_sg_table` runs for as many rounds as the table has entries, and
-- `serialize_all_segments_tables` tries the process ids up to the sum of those in use. `transfer` tries
-- as many blocks as the loop of the code does, and `take_blocks` and `drop_blocks` count its rounds.
-- `run_burst` takes its rounds as an argument; Cpu/Termination states how many suffice.
--
-- Not modelled: sockets, configuration and logging, which are calls of the operating system and of the
-- commons library. In Interleaved a handler is one step: that another thread runs in the middle of a
-- handler is not modelled, and neither are data races.
pub mod Common
pub mod Package
pub mod Serializer
pub mod OpCode
pub mod Consola
pub mod Memory
pub mod Cpu
pub mod Kernel
pub mod Filesystem
