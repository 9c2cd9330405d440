-- ===== src/Daq/Event/Status.antt =====
-- The status bits: `updateStatus` and the getter `status()`.
use faser_common.Common.{ℕ, ◌≤◌, ◌<◌, ◌≡◌, ◌∙◌}
use Prim.Native.Nat.{max}
use faser_common.Common.Bits.Digit.{bit, bit-bit_or, bit-mod_below, bit-mod_above}
use faser_common.Daq.Event.Defs.{EventFull, update_status, status}

-- Raising flags puts up just these bits of the header's status, and leaves those that are up. The
-- getter shows the eight lowest bits as they are then, and no bit from 8 on.
pub status-update_status :
    (ev : EventFull) (flags k : ℕ)
    → (bit k (update_status ev flags).header.status ≡ max (bit k ev.header.status) (bit k flags))
      × (k < 8
          → bit k (status (update_status ev flags)) ≡ max (bit k ev.header.status) (bit k flags))
      × (8 ≤ k → bit k (status (update_status ev flags)) ≡ 0)
unfolding update_status
status-update_status ev flags k =
    let raised = bit-bit_or k ev.header.status flags in
    let after : ℕ = (update_status ev flags).header.status in
    (raised, λ low. bit-mod_below 8 k after low ∙ raised, λ high. bit-mod_above 8 k after high)
