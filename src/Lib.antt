-- ===== src/Lib.antt =====
-- PepinOS, an educational kernel for 32-bit x86: a model of its C code and its correctness.
--
-- The kernel's parts and the files that model them (paths from the repository's root):
--   arch/gdt.c, idt.c    Arch.Gdt, Arch.Idt  the descriptor tables
--   arch/idt.c           Arch.Pic        the commands to the interrupt controllers
--   arch/idt.c           Arch.Exceptions the handlers of exceptions
--   mm/pmm.c             Mm.Pmm          the bitmap of physical pages
--   mm/paging.c          Mm.Paging       page tables, and the address spaces of the first tasks
--   mm/vmm.c             Mm.Vmm          mapping a page
--   lib/list.h           Klib.List       the intrusive circular list
--   lib/string.c         Klib.Strings    strings and blocks in memory
--   drivers/screen.c     Drivers.Screen  the text screen
--   drivers/keyboard.c   Drivers.Keyboard  the ring buffer of keys, and the interrupt's handler
--   drivers/ide.c        Drivers.Ide     reading and writing a sector, through the ports of a drive
--   fs/ext2.c            Fs.Ext2         the reader of ext2
--   fs/vfs.c             Fs.Vfs          the pool of open nodes over ext2
--   fs/elf.c             Fs.Elf          loading a program into an address space of its own
--   process/syscall.c    Process.Syscall the dispatcher of system calls
--   process/scheduler.c  Process.Sched   the scheduler, and the delivery of signals
--   process/scheduler.h  Process.Task    the record of a task
--   process/task.c       Boot.Tasks      the first two tasks, with arch/tss.c
--   kernel/kernel.c      Boot.Partition, Boot.Start  the search for the partition, and the start
--   user/shell.c         User.Shell      the shell, a program of system calls
--   user/hello.c         User.Hello      the first such program
-- The timer's interrupt calls `do_switch`, which walks the list of tasks, and `sched_add_task` puts
-- a task into it: Process.Sched uses the operations of Klib.List and their theorems. The dispatcher
-- of system calls works on the scheduler, the pool of nodes, the keyboard and the screen. Boot.Start
-- runs the parts in the order of `kmain` and brings their theorems together.
--
-- A function of the source keeps its name; the prefix pmm_ becomes the module Mm.Pmm. A function
-- that writes static variables takes the record of them and returns the new record. An array is
-- a function of its index, written by `update`. Unsigned words are native numbers, with the
-- reduction modulo 2^32 written out (Base.Word); `char` and `int` are integers (Base.Int).
-- Bit operations are the native ones, and their laws at every width stand in Base.Bits.
-- A counted loop recurs on the rounds that are left. `list_for_each` runs on fuel, and more fuel
-- than the ring has nodes is enough. The searches in a directory run on one more than the bytes of
-- a block, which is enough since every entry has a length. A string in user memory is read to its 0,
-- or once round the 2^32 addresses. The loops that wait for the drive run on fuel, and more than the
-- drive's latency is enough.
--
-- Physical memory is a byte for each address (Base.Memory); the kernel reaches it at equal virtual
-- addresses, which its own tables grant for the first 16 MB. Mm.Paging.Translate is what the processor
-- makes of an address with the tables in memory.
--
-- Not modelled: the assembly files and inline assembly, and the interrupts that may come while the
-- kernel starts. The drive and the interrupt controllers behind the ports are records of operations
-- with the laws of their standard and data sheet, for sectors that the drive has and transfers
-- without an error; a drive as a reader of sectors and the addresses of the assembly stubs are
-- parameters, and a process's memory is apart from the kernel's. A store through a user address is
-- recorded with the page directory that translates it. The faults of the kernel itself are no outcome
-- of the definitions: a store to a page from 16 MB on, which the kernel does not map, returns a memory
-- here, and a division by 0 in the reader of ext2 returns 0. Theorems whose code may come there ask for
-- tables and free pages below 16 MB and for a mounted file system (Fs.Ext2.Block.IsMounted), whose
-- blocks the static buffers hold and which no reader divides by 0 on.
pub mod Arch
pub mod Base
pub mod Klib
pub mod Mm
pub mod Drivers
pub mod Process
pub mod User
pub mod Boot
pub mod Fs
