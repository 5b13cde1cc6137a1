-- ===== src/Manager/Files.antt =====
-- src/fs_safe.rs: the files of the manager, read whole and replaced whole. The disk is the entries
-- under their paths. `Machine` stands for the operating system and the crates: which calls fail, the
-- digest of sha2, whether bytes are UTF-8, and whether files have Unix modes.
pub mod Paths
pub mod Os
pub mod Frame
pub mod Snapshots
pub mod Locks
pub mod Keeps
pub mod Reads
