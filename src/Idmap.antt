-- ===== src/Idmap.antt =====
-- Package idmap (shared/idmap/idmapset_linux.go): maps of user and group ids between a container's
-- namespace and the host.
pub mod Entry
pub mod IdSet
pub mod Files
pub mod Default
mod Tests
