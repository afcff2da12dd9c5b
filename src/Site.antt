-- ===== src/Site.antt =====
-- sitestat.go: visit counts of sites, and the table of them.
pub mod Visit
pub mod Stat
