-- ===== src/Lib.antt =====
-- xv6: a small Unix kernel for x86 multiprocessors, in C.
--
-- The program. Processes run in user space and enter the kernel by system calls and interrupts. In
-- the kernel, each part keeps a static table under a spin lock of its own: the process table
-- (proc.c), the list of free pages (kalloc.c), the pipes (pipe.c), the log of the file system
-- (log.c), the buffer cache (bio.c), the inode cache (fs.c) and the table of open files (file.c).
-- A process that cannot go on sleeps on a channel, the address of some object, and whoever changes
-- that object calls `wakeup` on the channel. Each system call that writes to the disk is an
-- operation of the log: begin_op, some log_write, end_op; the last end_op commits all of them.
--
-- What models what.
-- - Prelude.antt and Prelude/: the names that all modules share. Prelude/Words.antt has the 32-bit
--   arithmetic of C's `uint`, with its wrap-around; Prelude/Maps.antt has arrays and memories as
--   functions of an index; Prelude/Int.antt has C's signed results; Prelude/Members.antt has
--   predicates on the members of a list, Prelude/Sums.antt sums over arrays.
-- - Text.antt: string.c. A memory is a function from addresses to bytes; memmove, memset, memcmp,
--   strncmp, strncpy and safestrcpy keep their names, and each loop is a function on the count
--   that is left. Text/Move.antt, Text/Compare.antt and Text/Copy.antt hold what is proved of
--   them.
-- - Kalloc.antt: kalloc.c. `Kmem` is the head of the free list and the memory it runs through;
--   kfree, kalloc and freerange keep their names, and none is the panic. The address of the
--   kernel's end, which the linker sets, is a parameter. Kalloc/Chain.antt follows the list
--   through memory, Kalloc/Ownership.antt is about who owns a page while the kernel runs, and
--   Kalloc/Freerange.antt about the loop of freerange.
-- - Pipe.antt: pipe.c. `Pipe` is struct pipe; `write`, `read` and `close` are pipewrite, piperead
--   and pipeclose, each for one stretch in which the process holds the pipe's lock, and `Outcome`
--   says whether the call returned or sleeps. Pipe/Bounds.antt and Pipe/Fifo.antt relate the ring
--   of bytes to a queue, Pipe/Write.antt and Pipe/Read.antt are about a single call,
--   Pipe/Stream.antt and Pipe/Wakeups.antt about all interleavings of calls.
-- - Log.antt: log.c, with the source's function names. `Log` is struct log; end_op is divided
--   where it releases the lock (`end_op`, `commit_op`). Log/Buffers.antt is the buffer cache as
--   far as log.c uses it: a disk, and what bread finds for each block. Functions that write to
--   the disk come with the sequence of disks that they pass through, so that a crash between any
--   two writes can be stated (Log/Install.antt, Log/Recovery.antt, Log/Crash.antt).
--   Log/Header.antt is about the header block, Log/Transaction.antt about the log_write calls
--   before a commit, Log/Reserve.antt about the log space that begin_op reserves.
-- - Bcache.antt: bio.c, over the memory disk of memide.c (`iderw`). A buffer is its index, and
--   the least recently used list is kept in `next` and `prev` of the buffers as the source links
--   them. `bread_locked` is bread from where the sleep lock is taken; `unlock_buf` and `drop_buf` are
--   brelse up to the end of releasesleep, and from there on, between which other processes run. Bcache/Ring.antt relates
--   the links to a sequence, Bcache/Scan.antt and Bcache/Order.antt are about the loops of bget
--   and the order of the list, Bcache/System.antt, Bcache/Counted.antt and Bcache/Reachable.antt
--   about the processes that use the cache, Bcache/View.antt and Bcache/Refinement.antt about the
--   store of Log/Buffers.antt, which the log is modelled on.
-- - Fs.antt and Fs/: fs.c. Fs/Blocks.antt is balloc, bfree and bzero, over a disk that is a
--   function of the block number (Fs/Blocks/Bits.antt, Fs/Blocks/Bitmap.antt,
--   Fs/Blocks/Free.antt). Fs/Icache.antt is the inode cache: iget, idup, ilock, iunlock and the
--   counting part of iput (Fs/Icache/Get.antt, Fs/Icache/System.antt). Fs/Dirs.antt is dirlookup
--   and dirlink over the entries of a directory (Fs/Dirs/Links.antt), and Fs/Dirs/Bytes.antt the same
--   on the bytes that readi and writei move (Fs/Dirs/Bytes/Linking.antt). Fs/Names.antt is skipelem
--   and namex, over a function that says which directory an inode is (Fs/Names/Elements.antt,
--   Fs/Names/Walk.antt). Fs/Files.antt is bmap, readi, writei and iupdate, down to the bytes of the
--   blocks, with a round's fuel for each byte: Fs/Files/Slots.antt says which blocks a sound file has
--   and what it holds, Fs/Files/Mapping.antt is about bmap, Fs/Files/Saving.antt about writei, and
--   Fs/Files/Transfers.antt and Fs/Files/Held.antt about readi, and what it reads after writei;
--   Fs/Files/Truncate.antt is itrunc (Fs/Files/Truncate/Whole.antt). Fs/Files/Dinodes.antt is
--   the disk's side of ilock and ialloc, which Fs/Icache.antt takes as a function.
-- - File.antt: file.c. `Ftable` is the table; filealloc, filedup, fileclose and filewrite keep
--   their names. pipewrite and writei are parameters of filewrite, and so is what a round of its loop
--   does around writei, with all that other processes do there. File/Table.antt runs the users
--   of the table in any interleaving, File/Write.antt is about the loop of filewrite.
-- - Syscall.antt: syscall.c, the arguments of system calls; fetchint, fetchstr, argint, argptr and
--   argstr keep their names (Syscall/Arguments.antt, Syscall/Strings.antt).
-- - Sysfile.antt: sysfile.c, the file descriptors of a process. argfd, fdalloc, sys_dup and sys_close
--   keep their names, `open_file` is the end of sys_open, and `transfer_args` the checks of sys_read
--   and sys_write. The table of open files is that of File.antt.
-- - Console.antt: console.c, the input: `input` and consoleintr keep their names, `read_from` is the
--   loop of consoleread. Console/Lines.antt says what is ready and what is being typed,
--   Console/Ring.antt where the ring holds it; Console/Editing.antt and Console/Taking.antt are
--   about the two.
-- - Vm.antt: vm.c. A page directory is a function to page tables, a page table one to entries;
--   the free pages are a list. walkpgdir, mappages, deallocuvm and allocuvm keep their names.
--   Vm/Pages.antt is about single entries, Vm/Grow.antt and Vm/Shrink.antt about the sizes of a
--   process. Vm/Copy.antt is uva2ka and copyout, on the memory of Text.antt.
-- - Locks.antt: spinlock.c. pushcli, popcli and holding keep their names; acquire and release are
--   divided into their atomic steps. Locks/Nesting.antt is about pushcli and popcli on one CPU,
--   Locks/System.antt runs the steps of all CPUs in any interleaving, Locks/Owners.antt is
--   about a single lock, Locks/Safety.antt about all of them.
-- - Proc.antt: proc.c. A process is its slot in `ptable.proc`; `Proc` has the fields of struct
--   proc that the process table itself uses. fork, exit, wait, kill, sleep, wakeup, yield and the
--   choice of the scheduler are functions on the table. Proc/Family.antt states how parents and
--   children relate; Proc/Loops.antt, Proc/Create.antt, Proc/Adopt.antt, Proc/Exit.antt and
--   Proc/Kill.antt take the functions one by one; Proc/System.antt runs them in any interleaving.
-- - Grep.antt: the matcher of the user program grep.c. `matches` is its `match`; matchhere and
--   matchstar keep their names. Patterns and texts are lists of bytes without their final 0.
--   Grep/Items.antt says what a pattern means, Grep/Language.antt is about the matcher.
-- - Shell.antt: the parser of the shell sh.c, with the source's function names, over a text that is a
--   list of bytes; a word is the bytes between its two pointers. Shell/Tokens.antt is about gettoken,
--   Shell/Ends.antt about the parser's fuel, Shell/Printer.antt writes commands as text, and
--   Shell/Words.antt, Shell/Loops.antt, Shell/Levels.antt and Shell/Roundtrip.antt follow the parser
--   through such a text.
-- - Printf.antt: `printint` of the user library's printf.c, which writes the digits into a buffer
--   and then puts them out backwards. Printf/Number.antt reads the text as a number again.
--
-- How concurrency is modelled. Each critical section is one function and so one atomic step, but for
-- fork, where allocproc's critical section, the copying that follows it without the lock and the last
-- critical section are one step, though others could run in between. A step relation (`Step`, and `Reach` for its closure) lets the steps of all processors interleave
-- freely. In these models locks and interrupts do not appear: mutual exclusion, which Locks.antt
-- is about, is what makes a critical section one step. The context switch is not modelled.
--
-- Bounds and fuel. Loops over a fixed table or a count recurse on what is left of the table or
-- the count. The loop of freerange recurses on fuel, a unit for each page, and is given as much
-- as there are pages up to the end (Kalloc/Freerange.antt). The loop of printint recurses on fuel
-- 32, since a word has no more digits in any base from 2 on. The loops of bget over the list are
-- given as many rounds as there are buffers, which is the length of the list; namex as many as
-- the path has bytes, since each element takes one at least; filewrite a round for each byte and
-- one more; readi and writei a round for each byte; allocuvm and deallocuvm a round for each page
-- of the larger size and one more. Counters of pipes are words of 32 bits. Addresses in string.c and
-- kalloc.c do not wrap, since objects do not reach beyond 2 ^ 32.
--
-- What is not modelled. Device drivers, interrupt entry, boot code and assembly, since they are
-- about hardware; what the console shows; stati, and the devices behind readi and writei; fileread and
-- filestat; of vm.c, copyuvm, freevm, the kernel's own mappings, and the zeroing of a process' new pages; exec, the rest of the system call
-- layer and the other user programs; in proc.c, trap frames, open files and growproc.
pub mod Prelude
pub mod Text
pub mod Kalloc
pub mod Pipe
pub mod Bcache
pub mod Log
pub mod Fs
pub mod File
pub mod Vm
pub mod Locks
pub mod Shell
pub mod Proc
pub mod Grep
pub mod Printf
pub mod Syscall
pub mod Sysfile
pub mod Console
