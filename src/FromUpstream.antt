-- ===== src/FromUpstream.antt =====
-- contrib/fromupstream.py, which picks patches from upstream and applies them.
pub mod Session
pub mod Pick
pub mod Run
pub mod Frames
pub mod Handlers
pub mod Mails
pub mod Conflicts
pub mod Commits
pub mod Titles
pub mod Tests
pub mod Main
