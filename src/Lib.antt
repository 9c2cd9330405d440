-- ===== src/Lib.antt =====
-- faser-common: the event formats of the FASER data acquisition. The library models how events are
-- built, written and read back, how the payloads of the detectors are decoded and validated, the
-- program that copies selected events from one file to another, and the one that prints the events
-- of a file.
--
-- An event is a packed header of 44 bytes and fragments in the order of their source ids; a
-- fragment is a packed header of 36 bytes and a payload. The payloads of the trigger logic board
-- are checked against the Fletcher checksum, as are the frames of a tracker readout board; the
-- payload of the digitizer is checked against its own size. The filter program reads events from a
-- stream and writes those it chooses.
--
-- Files, and the code they are about (paths from the repository's root):
--   Daq/Defs        EventFormats/EventFormats/DAQFormats.hpp: the enumerations and exceptions
--   Daq/Fragment    the same file, class EventFragment: `make_fragment` and `decode_fragment` are
--                   its constructors, `raw`, `raw_append` and the setters its methods
--   Daq/Event       the same file, class EventFull: `make_event`, `event_of_bytes` and `read_event`
--                   are its constructors, `add_fragment` is addFragment, `load_header`,
--                   `load_payload`, `update_status`, `raw` its methods
--   Checksum        EventFormats/EventFormats/FletcherChecksum.hpp
--   TlbData         EventFormats/EventFormats/TLBDataFragment.hpp
--   TlbMonitoring   EventFormats/EventFormats/TLBMonitoringFragment.hpp; TlbMonitoring/Access has
--                   its validity test and getters
--   Digitizer       EventFormats/EventFormats/DigitizerDataFragment.hpp: `decode_digitizer` is its
--                   constructor
--   Bobr            EventFormats/EventFormats/BOBRDataFragment.hpp
--   Tracker         EventFormats/EventFormats/TrackerDataFragment.hpp and .icc: the loop over the
--                   frames of a readout board, and `valid`; Tracker/SctEvent is SCTEvent,
--                   Tracker/Bitstream is Bitstream, Tracker/Decode is DecodeModuleData and the
--                   constructor as a whole, with the layout of a readout in Tracker/Decode/Layout
--   Print           of Daq, TlbData, TlbMonitoring, Digitizer and Bobr: the `operator<<` of the
--                   same file of the source; Filter/Printed joins a printed event and the filter
--   Exceptions      Exceptions/Exceptions/Exceptions.hpp, as it is compiled without ERS
--   Stream          the output streams of the standard library, as far as the operators use them
--   Filter          EventFormats/apps/eventFilter.cxx: the loop of main; Filter/Args reads the list
--                   of event numbers, Filter/Program is main from its arguments on;
--                   Filter/Program/Named says what a list names, by its digits alone
--   Dump            EventFormats/apps/eventDump.cxx: the options, the loop of main, and which
--                   decoder a fragment is given to
--   Common          bytes, words and bits, an ordered map for std::map, and the results of code
--                   that throws or reads out of bounds
--
-- State and operations: a class is a record of its members, a method a function from the record to
-- the record after it, with what it returns. `Result` has three cases: `ok`, `throw` for an
-- exception, and `fault` for a read beyond the end of a buffer or a division by zero, which C++
-- leaves undefined. A buffer is the list of all bytes that may be read from the pointer on; the
-- size that the code is given is a number of its own. Members that a constructor leaves unset are
-- parameters (`junk`, `stale`), as is the clock (`now`). Packed structures are read and written
-- byte by byte, lowest byte first, as on the x86 machines that the programs run on; reading an
-- enumeration or a bit field takes the same bytes. Machine integers are natural numbers with the
-- wrap-around written out at 8, 16, 32 or 64 bits where the code can reach it.
--
-- Fuel: `filter_loop` and `dump_loop` take one round for each byte of the file, which is enough
-- since each event takes 44 bytes at least. The loops of DecodeModuleData take `rounds n` rounds
-- for a side of `n` words, which is enough since each round removes a bit of the 24 of each word,
-- or lessens the count of those available; `no_fuel` is never reached. `range_loop` takes 2^32
-- rounds, more than any range of an `int` has. The digits of a printed number take one round for
-- each unit of the number and one more, more than it has digits. All other loops are structural.
--
-- Printing: a statement is the list of its items, written from left to right as C++17 has it. An
-- exception that leaves a getter in the middle of a statement finds what stands before it written,
-- and the stream's format as it was then. The name of the source file that an exception's text
-- shows is a parameter.
--
-- Not modelled: what the dump program prints of its own and the `operator<<` of the tracker's
-- classes, getopt and the file system behind the two programs (parameters), allocation and its
-- failure, Bitstream::Add and FillData (nothing calls them), the debug mode of the dump program,
-- logging, the exceptions as ERS declares them and the cabling database scripts.
pub mod Common
pub mod Bobr
pub mod Checksum
pub mod Daq
pub mod Digitizer
pub mod Filter
pub mod Dump
pub mod TlbData
pub mod TlbMonitoring
pub mod Tracker
pub mod Stream
pub mod Exceptions
