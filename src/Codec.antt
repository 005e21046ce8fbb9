-- ===== src/Codec.antt =====
-- The crate crates/rustyice-codec: recognising MP3 frames and Ogg Vorbis pages.
pub mod Mp3
pub mod Vorbis
pub mod OggHeaderCapture
mod Tests
