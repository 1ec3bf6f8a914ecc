-- ===== src/Hdsk.antt =====
-- hdsk/: the optimiser of a disk. hdsk/sim.c moves the partitions in a list in memory, to find out how
-- much would be copied.
pub mod Copy
pub mod Sim
pub mod Stat
pub mod Swap
mod Tests
