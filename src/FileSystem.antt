-- ===== src/FileSystem.antt =====
-- The state of `class VSFileSystem` of src/fs/vsfs.hpp, and the commands on it.
-- The disk is that of `Disk`; the constants of the constructor are in `Layout`.
pub mod State
pub mod Here
pub mod Walk
pub mod Descriptor
pub mod Create
pub mod Remove
pub mod Command
pub mod Maintenance
pub mod SelfTest
pub mod Content
pub mod Invariant
pub mod Session
