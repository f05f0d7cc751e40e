-- ===== src/Startup.antt =====
-- What the daemon does when it starts: the patches (lxd/patches.go), the retries of the database
-- (lxd/db/db.go) and the containers that are started (lxd/containers.go).
pub mod Retry
pub mod Patches
pub mod Autostart
mod Tests
