-- ===== src/External.antt =====
-- What the program takes from packages outside the repository, as parameters: hash functions and
-- signatures, protobuf codecs, the databases, the Merkle trees, the priority queues. `External`
-- holds the operations; the records below it in Defs.antt hold the documented behaviour that some
-- theorems rely on, each as a named hypothesis. `Toy` is a concrete instance for the examples.
pub mod Defs
pub mod Toy
pub use Defs.*
