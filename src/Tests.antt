-- ===== src/Tests.antt =====
-- The theorems at concrete inputs, and runs of the definitions.
mod Buffers
mod Tables
mod Entries
mod Removal
mod Messages
mod Prepare
