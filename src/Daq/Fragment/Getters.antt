-- ===== src/Daq/Fragment/Getters.antt =====
-- The getters of `EventFragment` that return a member; `size_of` stands with the operations.
use faser_common.Common.{ℕ}
use faser_common.Daq.Fragment.{EventFragment}

abbrev pub event_id : EventFragment → ℕ
event_id frag = frag.header.event_id

abbrev pub fragment_tag : EventFragment → ℕ
fragment_tag frag = frag.header.fragment_tag

abbrev pub source_id : EventFragment → ℕ
source_id frag = frag.header.source_id

abbrev pub bc_id : EventFragment → ℕ
bc_id frag = frag.header.bc_id

abbrev pub status : EventFragment → ℕ
status frag = frag.header.status

abbrev pub trigger_bits : EventFragment → ℕ
trigger_bits frag = frag.header.trigger_bits

abbrev pub header_size : EventFragment → ℕ
header_size frag = frag.header.header_size

abbrev pub payload_size : EventFragment → ℕ
payload_size frag = frag.header.payload_size

abbrev pub timestamp : EventFragment → ℕ
timestamp frag = frag.header.timestamp
