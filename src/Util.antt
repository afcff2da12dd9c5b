-- ===== src/Util.antt =====
-- util.go: letter case, white space, fields, numbers, network masks and host names.
pub mod Case
pub mod Fields
pub mod Space
pub mod OneLine
pub mod ParseInt
pub mod Mask
pub mod Host
