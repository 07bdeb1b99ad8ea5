-- ===== src/Lib.antt =====
-- Willo: the verification library of the kernel's file systems, drive, shell, console and executors.
--
-- Willo is a small x86-64 operating system. Its kernel (kernel/src) boots, mounts file systems under
-- one mount table, and runs a shell on a cooperative executor that draws on a framebuffer. This
-- library models the parts of the kernel that carry logic of their own and states what makes them
-- correct. A path, a file's contents and a line of text are lists of bytes (the console's lines are
-- lists of characters); numbers are natural numbers, with the wrap-around of a machine word written
-- out where the code can reach it.
--
-- Parts and files
--   Prelude, Bytes     shared names, tests on numbers, list lemmas, the order of byte strings.
--   Path               kernel/src/fs/mod.rs: normalize, canonical_prefix and direct_child. Children:
--                      Path/Segments (splitting and joining), Path/Normalize, Path/Prefix.
--   Fs                 kernel/src/fs/mod.rs: FsError and the trait FileSystem, as a record of
--                      operations over the state W that backends share, with the default methods.
--   Vfs                kernel/src/fs/mod.rs: mount, unmount and resolve. Vfs/Calls has the calls that
--                      are passed on to a backend; Vfs/Under, Vfs/Choice, Vfs/Resolve and
--                      Vfs/Table the theorems.
--   Tmp                kernel/src/fs/tmp.rs: the tree, walk, and every method of TmpFs. A method that
--                      changes the tree is one change of the parent directory's entries (Tmp/Change),
--                      since the mutex makes it one step. Tmp/Edit, Tmp/Keys: lemmas on trees and
--                      paths; Tmp/Files, Tmp/Directories: what the methods do.
--   Ram                kernel/src/fs/ram.rs: the read-only tree, lookup, and the seed.
--   Fat                kernel/src/fs/fat.rs: the layout of a volume and the 32-byte directory slots.
--                      Fat/Names and Fat/Entry are about these slots.
--                      Fat/Io is the effect of a call on the drive; Fat/Chain reads (mount, chains,
--                      directories, lookup), Fat/Table changes the FAT and clusters, Fat/Directory
--                      fills and deletes slots, Fat/Files has the write methods. Fat/Words and
--                      Fat/Mirror are about the entries of the FAT, Fat/Sectors, Fat/Contents,
--                      Fat/Linked and Fat/Written about what a chain of clusters holds. Fat/Volume,
--                      Fat/Slots, Fat/Search, Fat/Summed, Fat/Taken, Fat/Grown, Fat/Allocated and
--                      Fat/Freed are about how clusters are found, linked and freed; Fat/Fresh,
--                      Fat/Stored and Fat/ReadBack about the contents of new chains; Fat/Listing,
--                      Fat/Pieces, Fat/Filled, Fat/Added, Fat/Listed, Fat/Found, Fat/Kept and
--                      Fat/Created about slots, lookups and a new file in the root directory. Fat/Backend
--                      is the volume as a FileSystem, Fat/Mounted a new file through the mount table.
--   Framebuffer        kernel/src/framebuffer.rs: the text console, its scrollback ring and redraw.
--                      Framebuffer/Steps separates text from drawing, Framebuffer/Pixels writes the
--                      bytes of the glyphs; the other theorems are in Framebuffer/History,
--                      Framebuffer/Scroll and Framebuffer/Screen.
--   Task               kernel/src/task/mod.rs and kernel/src/task/executor.rs: the executor. Children:
--                      Task/Entries (lookups), Task/Rounds (one round), Task/Idle (termination).
--   Block              kernel/src/block.rs: the interface of a block device, and what a drive keeps.
--   Dev                kernel/src/fs/dev.rs: the device nodes; Dev/Names is about their names.
--   Shell              kernel/src/shell.rs: execute_line and the commands. Shell/Lines has the words and
--                      the texts; Shell/WorkingDir and Shell/Render are about the working directory
--                      and the output.
--                      Shell/Loop is shell_loop from the keys on that are decoded, and Shell/Typing
--                      is about the line that is typed.
--   Ata                kernel/src/ata.rs: the registers, the polling loops and the transfer of a sector.
--                      Ata/Drive has identify, init, read_block and write_block. Ata/Protocol says what
--                      the driver relies on; Ata/Settled, Ata/Polls, Ata/Reads, Ata/Words, Ata/Writes
--                      and Ata/Prompt are about the status, waits, reads, words, writes and drives that
--                      answer in time.
--   Keyboard           kernel/src/task/keyboard.rs: the scan code queue, its waker and the stream.
--                      Keyboard/Interleave has the steps with interrupts between them, and
--                      Keyboard/Wakeups is about wake-ups.
--   SimpleExecutor     kernel/src/task/simple_executor.rs; SimpleExecutor/Passes is about its rounds.
--   Memory             kernel/src/memory.rs and kernel/src/allocator.rs: the frame allocator and the
--                      mapping of the heap. Children: Memory/Frames, Memory/Heap.
--   Boot               kernel/src/fs/mod.rs: mount_root; Boot/Root is about what is at /, and
--                      Boot/Scratch about files under /tmp.
--   Interrupts         kernel/src/interrupts.rs: what the handlers decide.
--   Gdt                kernel/src/gdt.rs: the order of the segment descriptors.
--   Runner             src/main.rs: the host runner; Runner/Cleanup is about disks and exit codes.
--   Tests              witnesses on concrete data.
--
-- How the parts meet: the shell turns what is typed into a canonical path with `normalize` and hands
-- it to Vfs, which finds the mount with the longest prefix and calls that mount's FileSystem with
-- the rest of the path; TmpFs, RamFs, DevFs and FatFs are such file systems, and mount_root puts them
-- into the table. FatFs and DevFs read and write a block device, which the ATA driver is. The executor
-- runs the shell's task, which the keyboard interrupt wakes; the console shows its output.
--
-- Parameters: the state W of a FileSystem and its methods in Vfs; the drive in FatFs and DevFs; a
-- future's poll in the executor, and its bound on wakes in Task/Idle; the width of a glyph in
-- Framebuffer, which the font crate gives; the clock and the test for UTF-8 in Shell; the console, the
-- serial port and the drive in Dev; the four port instructions in Ata, with a drive behind them in
-- Ata/Protocol; the queue and the waker cell of other crates in Keyboard, as records of operations
-- with laws; the memory map and the mapper in Memory; the drive's start, the log and the file system
-- of a FAT volume in Boot; the table of segments in Gdt; the host's answers in Runner.
--
-- Fuel: run_ready_tasks is a loop that ends when the queue is empty, and is modelled on fuel, one
-- unit a round; each round takes an id from the queue, so that the ids queued and the wakes left
-- (Task/Idle) count the rounds. The loops along the cluster chains of FatFs are on fuel too, which a
-- chain of that many clusters uses up; running out is a result of its own (Fat/Io), after which no call
-- of the mount table does anything (Fat/Backend). Every other loop is a structural recursion on the
-- data that the code iterates, or on the bytes left to write.
--
-- The theorems on the ATA driver begin with a drive at rest, with the slave selected and DRQ clear,
-- since the driver's own wait asks for BSY alone. It polls at most 100000 times, as its code does; the simple executor is on fuel, one unit
-- a round.
--
-- Not modelled: what the hardware does (the table of interrupt handlers, paging, the task state
-- segment, the serial port), the font's rasters, the locks (each locked method is one step), memory
-- exhaustion, the decoding of scan codes (a crate), the integration tests under kernel/tests, and in
-- src/main.rs the builder of the data disk and the texts that are printed.
pub mod Prelude
pub mod Path
pub mod Fs
pub mod Vfs
pub mod Bytes
pub mod Tmp
pub mod Ram
pub mod Block
pub mod Fat
pub mod Dev
pub mod Shell
pub mod Framebuffer
pub mod Task
pub mod Ata
pub mod Keyboard
pub mod SimpleExecutor
pub mod Memory
pub mod Boot
pub mod Interrupts
pub mod Gdt
pub mod Runner
mod Tests
