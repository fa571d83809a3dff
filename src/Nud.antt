-- ===== src/Nud.antt =====
-- xfbin/structure/nud.py: the meshes of a model, as they are made from what br_nud.py reads.
pub mod Types
pub mod Init
pub mod Faces
pub mod BoneRange
pub mod Strips
pub mod FaceEntries
pub mod Vertex
