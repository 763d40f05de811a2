-- ===== src/Stream.antt =====
-- UE4DevelopmentLibrary/Stream: byte streams that packets are written to and read from.
pub mod Bytes
pub mod ByteStream
pub mod InputStream
pub mod OutputStream
pub mod RoundTrip
