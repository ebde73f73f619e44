-- ===== src/Atop/Photoproc.antt =====
-- photoproc of Qt/FakeAtop/photoproc.c: the counters of the tasks from the text files in /proc. What the
-- C library finds in a directory is a value here (Files); a file that cannot be opened is none.
pub mod Numbers
pub mod Stat
pub mod Status
pub mod Io
pub mod Cmd
pub mod Smaps
pub mod Walk
