-- ===== src/Lib.antt =====
-- A model of the xv6 kernel in COL331/HW1/xv6, the teaching operating system that the course work
-- builds on, and of the string routines of the JOS kernel in COL331_A1, with the theorems that
-- make its parts correct.
--
-- Each part of the kernel is a module whose functions are those of one C file, under the same
-- names; the modules below it state and prove what holds of them, and its Tests has runs and
-- instances of the theorems.
--
-- - Base: what all share (numbers, lists as arrays, integers, a byte memory).
-- - Str: COL331/HW1/xv6/string.c over a byte memory, with the two string instructions of x86.h.
--   Counted loops recur on the count; strlen runs on fuel, and any fuel beyond the first NUL is
--   enough.
-- - Pipe: COL331/HW1/xv6/pipe.c. A call runs from its acquire to its end or to a sleep; a call
--   that sleeps returns what it has left to do. Counters are 32-bit words and wrap.
-- - Proc: COL331/HW1/xv6/proc.c, the process table. A process is its index in the table. What
--   runs under ptable.lock is one step; fork, which gives the lock up, is made of four parts that
--   are steps of their own. Pids are 32-bit words. What kalloc and copyuvm return are arguments
--   of fork.
-- - Log: COL331/HW1/xv6/log.c, the redo log, over the contract of the buffer cache: bread gives
--   the latest contents of a block and bwrite puts them on the disk. Power fails after a given
--   number of disk writes, and all that a crash leaves is the disk.
-- - Bio: COL331/HW1/xv6/bio.c over the memory disk of memide.c. The doubly linked list is a list
--   of buffers, most recently used first, and a buffer's index in bcache.buf is its identity. A
--   bget that sleeps ends with the buffer it sleeps on and starts anew when woken.
-- - Kalloc: COL331/HW1/xv6/kalloc.c. The free list is linked through the free pages in a memory
--   of words. The loop of freerange runs on fuel, more than the pages that can fit.
-- - Spinlock: COL331/HW1/xv6/spinlock.c, the lock between processors as a step relation, and
--   pushcli and popcli.
-- - File: COL331/HW1/xv6/file.c, the file table and its reference counts, which are 32-bit words.
-- - Grep: COL331/HW1/xv6/grep.c, the matcher. A string is a list whose end is the NUL, and
--   Grep/Lang has the language of an expression.
-- - Disk: COL331/HW1/xv6/fs.c, the layer of blocks, over the contract of the log: within a
--   transaction bread has the latest contents of a block and log_write sets them. A block is a
--   function from offsets to bytes, and words are little-endian.
-- - Inode: COL331/HW1/xv6/fs.c, the layer of files: iupdate, bmap, itrunc, readi, writei and
--   stati, as functions on the in-memory inode and the disk. The loops of readi and writei run on
--   fuel, one round for each byte, since each round moves a byte or more; devsw is a parameter
--   that says which devices have a function.
-- - Icache: COL331/HW1/xv6/fs.c, the cache of inodes: iget, idup, ilock, iunlock, iput and
--   ialloc, as actions that return, sleep or panic. A pointer to an inode is the number of its
--   slot.
-- - Dir: COL331/HW1/xv6/fs.c, directories and path names: dirlookup, dirlink and namex, as
--   actions over the inode cache. The loops over entries run on fuel, the size of the directory,
--   since each round passes 16 bytes; the loop of namex runs on fuel, one more than the length of
--   the path, since each round takes off a character or more.
-- - JosStr: COL331_A1/lib/string.c, but for strcat, memset, memmove and memcpy. A string that is
--   only read is a list whose end is the NUL; strtol keeps the bits of its long.
-- - Paths: skipelem of COL331/HW1/xv6/fs.c, over paths as lists.
--
-- How the parts interact: a pipe and the log sleep and wake on channels, which the process table
-- implements; here each part records the wakeups that it makes, and the process table has its own
-- sleep and wakeup. A critical section under a spin lock is one step; Spinlock models the lock
-- itself.
--
-- Not modelled: page tables, system calls, traps and devices, which need user address spaces or
-- hardware, the other user programs, and the rest of the JOS kernel.
pub mod Base
pub mod Str
pub mod Pipe
pub mod Proc
pub mod Log
pub mod Bio
pub mod Kalloc
pub mod Spinlock
pub mod File
pub mod Grep
pub mod Paths
pub mod Disk
pub mod Inode
pub mod Icache
pub mod Dir
pub mod JosStr
