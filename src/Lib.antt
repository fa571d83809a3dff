-- ===== src/Lib.antt =====
-- xfbin_lib reads, edits and writes XFBIN containers: files of pages, whose chunks refer to a table of types,
-- paths and names. This development models the container and the objects that a user edits.
--
-- The parts, and the files that model them (paths from the root of the repository):
--   Dict (xfbin/util/iterative_dict.py): IterativeDict, a list of entries and a counter. Its invariant is in
--     Dict/Numbering, what later states keep of earlier ones in Dict/Growth.
--   Binary: PyBinaryReader, a git submodule, as an interface. A reader is a position and the bytes from there;
--     a write is the bytes that it appends, or an exception. Binary/Rules and Binary/Sequence carry proofs over
--     reads and writes; Binary/BigEndian is an instance, used by the examples only.
--   Chunk (xfbin/structure/nucc.py, the class NuccChunk and its three classes without data): the type, path and
--     name that identify a chunk (ChunkMap), and what every chunk holds.
--   Table (xfbin/structure/br/br_xfbin.py): BrNuccHeader, BrChunkTable, BrChunkMap and BrChunkReference.
--     Table/Write and Table/Read are `__br_write__` and `__br_read__`.
--   Page (the same file, with BrNuccChunk, BrNuccChunkNull and BrNuccChunkPage of
--     xfbin/structure/br/br_nucc.py): BrChunk and BrPage. A page is written as a stream of frames (Page/Frames),
--     and the loop that reads it stops at the page chunk (Page/Loop).
--   Payload (xfbin/structure/br/br_nucc.py, xfbin/structure/br/br_nut.py and the classes of
--     xfbin/structure/nucc.py): what the classes Texture, Dynamics, Clump, Material and Coord write and read,
--     and what `init_data` makes of it. An object refers to chunks by their type, path and name; Payload/References
--     numbers them when they are written and looks them up when they are read. The `init_data` of a clump also asks
--     for the `node` and the `coord_index` of the objects that it refers to, and raises where they have none. Payload/Nut is BrNut, and
--     Payload/Classes joins the five classes, and Payload/Attributes makes them an instance of ChunkClasses.
--   File (BrXfbin of xfbin/structure/br/br_xfbin.py; xfbin/xfbin_writer.py): File/Write is BrXfbin.__br_write__, File/Read is
--     BrXfbin.__br_read__; the other files of File join the pages to the whole file. File/Objects is read_xfbin of
--     xfbin/xfbin_reader.py: the chunk objects are a list, and a page refers to an object by its place in it. The
--     `init_data` of a class, which is given all objects and may change them, is a parameter, which
--     File/Objects/Payloads gives for the five payload classes, and File/Objects/Written applies to what was written.
--   Xfbin (xfbin/structure/xfbin.py): Page in Xfbin/Chunks, Xfbin in Xfbin/Pages and Xfbin/Clump.
--   Nud (xfbin/structure/nud.py): the meshes of a model, made from what xfbin/structure/br/br_nud.py reads (whose
--     records are Nud/Types). Nud/Faces is NudMesh.add_faces, as a state machine over the entries;
--     Nud/FaceEntries is what BrNudMesh writes of the faces, Nud/Vertex is BrNudVertex.
--   Examples: concrete inputs.
--
-- How they interact: the writer of a page numbers its chunks in an IterativeDict while it writes their data; the
-- writer of the file joins these dictionaries into the table, which the reader of a page follows from a frame's
-- index to the class, path and name of its chunk. What the classes with properties read and write is the record
-- ChunkClasses, a parameter: a write only adds chunks to the dictionary.
--
-- Conventions. A class is known by its name. Exceptions are values of Error. The characters of a text are their
-- code points; `upper` and `lower` are those of ASCII letters. The reader is taken to give every text without a zero
-- back; the codec cp932 that the program asks for does so only for the characters that it has one code for. Python's `dict` is a list of entries, oldest
-- first. Reading the pages takes the number of bytes of the file, and one, as fuel, for the pages and for the
-- frames of a page: every round of either loop takes a byte at least, and the round trip of the file shows that
-- this fuel is enough. The loop over the model groups of a clump takes the number of bytes that are left, and one.
--
-- Not modelled: the attributes `coord_chunk`, `root_nodes` and `children`, which init_data of a clump sets; the payload of the class Model; of BrNud, which it holds, all but the vertices and faces;
-- main.py, files of the operating system, and methods that only format for display.
pub mod Base
pub mod Dict
pub mod Binary
pub mod Chunk
pub mod Table
pub mod Page
pub mod File
pub mod Xfbin
pub mod Nud
pub mod Payload
pub mod Examples
