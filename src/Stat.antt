-- ===== src/Stat.antt =====
-- elliptics/stat.go: statistics of a cluster, by group and by backend.
pub mod Types
pub mod Address
pub mod Texts
pub mod Pid
pub mod Find
pub mod Ring
pub mod Entry
pub mod Diff
pub mod Report
