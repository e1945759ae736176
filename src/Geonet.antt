-- ===== src/Geonet.antt =====
-- The GeoNetworking layer, src/flexstack/geonet.
pub mod Address
pub mod Mib
pub mod PositionVector
pub mod Request
pub mod CommonHeader
pub mod ExtendedHeaders
pub mod Entry
pub mod LocationTable
pub mod Geometry
pub mod Router
pub mod BasicHeader
