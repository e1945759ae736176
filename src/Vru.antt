-- ===== src/Vru.antt =====
-- The vulnerable road user awareness service,
-- src/flexstack/facilities/vru_awareness_service.
pub mod Constants
pub mod Clustering
