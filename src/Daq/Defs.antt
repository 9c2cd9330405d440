-- ===== src/Daq/Defs.antt =====
-- DAQFormats.hpp: the enumerations, and what an `EFormatException` is thrown for.
use faser_common.Common.{ℕ, ◌*◌, ◌^◌}

-- One constructor for each message.
pub data EFormatException : Type 0 where
  too_little_header no_fragment_header unsupported_fragment_version : EFormatException
  too_little_data fragment_size_mismatch : EFormatException
  too_small_event wrong_event_header unsupported_event_version : EFormatException
  payload_too_large event_size_mismatch payload_size_mismatch : EFormatException
  duplicate_fragment : EFormatException

pub data EventTags : Type 0 where
  physics_tag calibration_tag monitoring_tag tlb_monitoring_tag max_regular_tag : EventTags
  corrupted_tag incomplete_tag duplicate_tag max_any_tag : EventTags

abbrev pub tag_value : EventTags → ℕ
tag_value physics_tag = 0x00
tag_value calibration_tag = 0x01
tag_value monitoring_tag = 0x02
tag_value tlb_monitoring_tag = 0x03
tag_value max_regular_tag = 0x03
tag_value corrupted_tag = 0x10
tag_value incomplete_tag = 0x11
tag_value duplicate_tag = 0x12
tag_value max_any_tag = 0x13

pub data SourceIds : Type 0 where
  trigger_source_id tracker_source_id pmt_source_id bobr_source_id : SourceIds

abbrev pub source_value : SourceIds → ℕ
source_value trigger_source_id = 0x020000
source_value tracker_source_id = 0x030000
source_value pmt_source_id = 0x040000
source_value bobr_source_id = 0x050000

pub data EventStatus : Type 0 where
  unclassified_error bcid_mismatch tag_mismatch timeout overflow corrupted_fragment : EventStatus
  dummy_fragment missing_fragment empty_fragment duplicate_fragment error_fragment : EventStatus

abbrev pub status_value : EventStatus → ℕ
status_value unclassified_error = 1
status_value bcid_mismatch = 1 * 2 ^ 1
status_value tag_mismatch = 1 * 2 ^ 2
status_value timeout = 1 * 2 ^ 3
status_value overflow = 1 * 2 ^ 4
status_value corrupted_fragment = 1 * 2 ^ 5
status_value dummy_fragment = 1 * 2 ^ 6
status_value missing_fragment = 1 * 2 ^ 7
status_value empty_fragment = 1 * 2 ^ 8
status_value duplicate_fragment = 1 * 2 ^ 9
status_value error_fragment = 1 * 2 ^ 10
