-- ===== src/FindMissing.antt =====
-- contrib/findmissing: the robot that finds missing kernel fixes and files changes for them.
pub mod Subsequent
pub mod Fixes
