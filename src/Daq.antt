-- ===== src/Daq.antt =====
-- EventFormats/EventFormats/DAQFormats.hpp: the event and its fragments as they stand in a file.
pub mod Defs
pub mod Fragment
pub mod Event
pub mod Print
