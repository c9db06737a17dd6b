-- ===== src/Tests.antt =====
-- The theorems on concrete inputs: worlds of the small kernel of Sys/Sim.antt, in which the key 5 is
-- in use, and machines of the emulator.
mod Worlds
mod Ipc
mod Command
mod Machines
mod Daemons
mod Checks
mod Forks
mod Proc
mod Whole
mod Users
