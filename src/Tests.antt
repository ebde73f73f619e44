-- ===== src/Tests.antt =====
-- Runs of the definitions at concrete inputs, and the theorems at such inputs.
mod Capture
mod Sockets
mod Tasks
mod Atop
mod Various
mod Accumulate
mod System
mod Sums
mod Photosyst
mod Photoproc
mod Netatop
mod Acct
mod Parseable
