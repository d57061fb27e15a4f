-- ===== src/Codec.antt =====
-- engine/utils/codec.hpp: numbers, plain records and strings as bytes. A C++ object is copied to
-- memory byte by byte; on the machines that the engine supports the lowest byte comes first.
pub mod Bytes
pub mod Words
pub mod Strings
