-- ===== src/Ldm.antt =====
-- The local dynamic map, src/flexstack/facilities/local_dynamic_map.
pub mod Database
pub mod Maintenance
