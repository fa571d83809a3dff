-- ===== src/Payload.antt =====
-- The data of the chunk classes: xfbin/structure/br/br_nucc.py and the classes of
-- xfbin/structure/nucc.py that hold it.
pub mod Types
pub mod References
pub mod Coord
pub mod Material
pub mod Dynamics
pub mod Clump
pub mod Nut
pub mod Texture
pub mod Classes
pub mod Attributes
