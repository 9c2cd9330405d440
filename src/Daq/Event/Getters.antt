-- ===== src/Daq/Event/Getters.antt =====
-- The getters of `EventFull` that return a member, as its return type takes it; `status` and `size_of`
-- stand with the operations.
use faser_common.Common.{ℕ}
use faser_common.Daq.Event.Defs.{EventFull}

abbrev pub event_tag : EventFull → ℕ
event_tag ev = ev.header.event_tag

abbrev pub event_id : EventFull → ℕ
event_id ev = ev.header.event_id

abbrev pub event_counter : EventFull → ℕ
event_counter ev = ev.header.event_counter

abbrev pub bc_id : EventFull → ℕ
bc_id ev = ev.header.bc_id

abbrev pub header_size : EventFull → ℕ
header_size ev = ev.header.header_size

abbrev pub payload_size : EventFull → ℕ
payload_size ev = ev.header.payload_size

abbrev pub timestamp : EventFull → ℕ
timestamp ev = ev.header.timestamp

abbrev pub run_number : EventFull → ℕ
run_number ev = ev.header.run_number

abbrev pub trigger_bits : EventFull → ℕ
trigger_bits ev = ev.header.trigger_bits

abbrev pub fragment_count : EventFull → ℕ
fragment_count ev = ev.header.fragment_count
