-- ===== src/Atop.antt =====
-- Qt/FakeAtop: the process monitor. Tstat holds the counters of a task, Pdb the database of the tasks
-- of the previous sample.
pub mod Tstat
pub mod Sstat
pub mod Photosyst
pub mod Photoproc
pub mod Order
pub mod Parseable
pub mod Acct
pub mod Netatop
pub mod System
pub mod Pdb
pub mod Deviate
pub mod Various
pub mod Accumulate
