-- ===== src/Phase3/Relocate.antt =====
-- What the relocation loop of phase3.py does to the image and to the records.
mod Cases
mod Tally
mod Words
mod Safety
mod Backed
mod Returns
pub use Tally.*
pub use Safety.*
pub use Returns.*
unfoldable pub use Words.*
