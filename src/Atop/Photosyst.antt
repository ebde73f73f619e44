-- ===== src/Atop/Photosyst.antt =====
-- photosyst of Qt/FakeAtop/photosyst.c: the counters of the kernel's text files in /proc. A file is the
-- list of the lines that fgets returns; a line is not longer than the variables that take its words.
pub mod Scan
pub mod Lines
pub mod Stat
pub mod Vmstat
pub mod Meminfo
pub mod Netdev
pub mod Snmp
pub mod Beancounters
pub mod Devmap
pub mod Diskstats
pub mod Rpc
