-- ===== src/Examples.antt =====
-- Concrete inputs: the theorems applied to small chunks, dictionaries and files.
mod Data
mod Codes
mod Files
mod Edits
mod Meshes
mod Clumps
mod Payloads
mod Bodies
mod Body
mod Vertices
mod Objects
