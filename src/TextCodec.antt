-- ===== src/TextCodec.antt =====
-- src/textcodec.cpp and include/textcodec.h: the results, the errors and the character helpers that
-- the three codecs share. The codecs are the children `Hex`, `Base64` and `Url`.
mod Defs
pub mod Hex
pub mod Base64
pub mod Url
mod Tests
unfoldable pub use Defs.*
