-- ===== src/Tests.antt =====
-- Runs of the program's functions at concrete inputs, and the theorems at inputs where their
-- hypotheses hold.
pub mod Systems
pub mod Removal
pub mod Walks
pub mod Transfers
pub mod Files
pub mod Texts
pub mod Disks
pub mod Commands
pub mod Creation
