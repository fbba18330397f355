-- ===== src/Codec.antt =====
-- The encoders of the write buffer against the decoders of the read buffer.
mod Defs
pub mod Reread
pub mod Unsigned
pub mod Fixed
pub mod Text
pub mod Wide
pub mod Signed
pub use Defs.*
