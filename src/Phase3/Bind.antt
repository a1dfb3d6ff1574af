-- ===== src/Phase3/Bind.antt =====
-- The meaning of the bind stream: an interpreter of the opcodes, as the Mach-O headers document
-- them. The registers keep their values from one DO_BIND to the next, the addend too.
mod Opcodes
mod Meaning
mod Stream
pub use Opcodes.{Bound, read_binds}
pub use Meaning.{IsPlain, as_written, as_meant, encoded}
pub use Stream.*
