-- ===== src/Daq/Event.antt =====
-- `EventFull` of DAQFormats.hpp: a packed header of 44 bytes and the fragments by source id.
-- The fragments that the map points to are not changed through other pointers.
mod Tests
pub mod Codec
pub mod Add
pub mod Load
pub mod RoundTrip
pub mod Status
pub mod Defs
pub mod Getters
pub mod Types
unfoldable pub use Defs.*
