-- ===== src/Tests.antt =====
-- The theorems at concrete inputs.
mod Access
mod Network
mod Parents
mod Stream
mod Transfer
mod Text
