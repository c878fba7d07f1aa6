-- ===== src/NewVariant.antt =====
-- contrib/variant: new_variant.py, which creates a new variant of a reference board in steps that
-- it can pause and continue, and the modules of the boards that it supports.
pub mod State
pub mod Boards
pub mod Build
pub mod Scripts
pub mod Upload
pub mod Depend
pub mod Run
pub mod Typing
pub mod Commits
pub mod Contracts
pub mod Quiet
pub mod Recording
pub mod Uploading
pub mod Uploads
pub mod Depends
pub mod Amends
pub mod Soundness
pub mod Steps
pub mod Rounds
pub mod Resume
pub mod Sessions
pub mod Supported
pub mod Missing
pub mod Unnamed
pub mod Kconfig
pub mod Tests
