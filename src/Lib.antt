-- ===== src/Lib.antt =====
-- A model of the repository's C programs: the library of System V semaphores and shared memory,
-- the commands `lock` and `daemonize` that are built on it, the IA-32 emulator, and the system
-- checks.
--
-- The parts and how they interact:
-- * src/Semaphore.c (Semaphore.antt): sets of counting semaphores. Life.antt is about their
--   creation, attachment and removal, Locking.antt about taking and giving, Timed.antt about
--   waiting, Race.antt about two unlocks at a time, Users.antt (with Places.antt) about several
--   processes whose system calls interleave.
-- * src/SharedMemory.c (SharedMemory.antt): a segment of words, each access of which goes through
--   a semaphore of its own under the key + 128. Access.antt is about words, Life.antt about
--   creation, attachment and removal, Reopen.antt about keys in use.
-- * src/lock.c (Lock.antt, its `main` in Lock/Main.antt): the command keeps a counting semaphore
--   with a size and an optional lifetime in a set and a segment of four words under one key.
--   Lock/Counter.antt says what the kernel's tables hold for such a counter, Lock/Spec.antt is
--   the abstract counter, and Lock/Create.antt, Lock/Init.antt, Lock/Acquire.antt and
--   Lock/Report.antt relate the two; Lock/Session.antt is about sequences of calls.
-- * src/bits.h and src/bits.c (Bits.antt): the highest and the lowest bit, parity, hexadecimal
--   digits.
-- * src/registers.c (Registers.antt): five registers, kept in a shared segment between two runs.
-- * src/ia32emu.c (Emulator.antt, the names of opcodes in Emulator/Parse.antt, the command line
--   in Emulator/Options.antt): one instruction on the registers and the flags.
--   Emulator/Values.antt is about the values of its options. What an uninitialised variable holds
--   is a parameter.
-- * src/daemonize.c and src/daemonize.h (Daemonize.antt): a daemon that runs a command again and
--   again, and the commands that start, stop and watch it; the two share four words of a segment.
--   Daemonize/Service.antt is the daemon, Daemonize/Command.antt the commands,
--   Daemonize/Main.antt the command line. Daemonize/Words.antt is about the words; Report.antt,
--   Stop.antt, Start.antt and Channel.antt beside it are about the commands, Rounds.antt,
--   Release.antt and Serve.antt about the daemon, and Others.antt about what it relies on.
-- * src/syschk.c (Syschk.antt): checks that open files, allocate memory or fork until that fails
--   or gets slow (Syschk/Open.antt, Syschk/Calloc.antt, Syschk/Fork.antt; what they leave:
--   Opening.antt, Callocing.antt, Scanning.antt and Forking.antt beside them), their messages and
--   the table of them (Messages.antt, Dump.antt), limits (Limits.antt), the reading of /proc
--   (Proc.antt), what is set before a check (Prepare.antt, Prepared.antt), the checks as a whole
--   with their messages (Checks.antt), and `main` (Main.antt). Segment.antt and ForkCheck.antt are
--   about the segment of chk_fork, Overcommit.antt about the limit of the address space,
--   System.antt, Adding.antt and Whole.antt about `main`. Sock.antt is a check that has no caller.
--
-- A function of the source has its name without the prefix of its file: Semaphore$new is `new` in
-- Semaphore.antt. Heap objects are values, NULL is `none`, and a function that changes an object
-- returns it. The operating system is a parameter, the record `Kernel` of Sys.antt, and a
-- function that calls it is a command `W → Run W A` on the world outside the process; a run is
-- done, aborted by an assert, a fault, or blocked for ever. What the manual pages promise is the
-- record `Laws` of Sys/Laws.antt, over a view of the kernel's tables; Sys/Sim.antt is a small
-- kernel that keeps it, on which Tests.antt runs the theorems. The calls about processes and
-- signals are the record `Processes` of Sys/Processes.antt with `SignalLaws`, and those of the
-- checks the records `Host`, `Forks`, `Files`, `Control` and `Start` of Syschk.antt and the
-- files beside it. `Returns P r` says that the run `r` returns and that `P` holds of its result
-- and world, so no theorem about a command leaves open whether it returns.
--
-- Bounds: the timed loop of Semaphore$lock is recursion on the seconds that are left, and the
-- loop of `shift` on the count of at most 31, so neither needs fuel. Integers of fixed width are
-- numbers with the wrap-around written out; `time_t` and `long` do not overflow in the model. The
-- limits SEMMSL and SHMMAX of the kernel are fields of `Laws`, at least 250 and 4096.
--
-- The daemon's loop is observed for a number of rounds; its theorems hold for every number. The
-- loops of the checks run for a number of rounds, and the theorems say how many are enough.
--
-- Not modelled: floating-point arithmetic, `sscanf` and formatted text (parameters), src/Mutex.c
-- and src/gpr.h (fragments that nothing includes), src/c.c (a scratch program that prints how a
-- compiler treats sizes, casts and pointers), what is printed or logged beside the tables, signals
-- that arrive elsewhere than in a call that waits, and other processes except while the process
-- sleeps or waits, and in Semaphore/Race.antt and Semaphore/Users.antt.
pub mod Base
pub mod Sys
pub mod Semaphore
pub mod SharedMemory
pub mod Lock
pub mod Bits
pub mod Registers
pub mod Emulator
pub mod Daemonize
pub mod Syschk
pub mod Tests
