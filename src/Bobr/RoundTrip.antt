-- ===== src/Bobr/RoundTrip.antt =====
-- The constructor on every buffer, and on the bytes of an event.
use faser_common.Common.{
  ℕ, ◌/◌, ◌%◌, ◌^◌, ◌≤◌, ◌<◌, ◌≡◌, refl, ◌∙◌, List, ◌++◌, length, length-append,
}
use faser_common.Common.{false, ◌==◌, ==_iff, Bool-cases, inl, inr, ok, throw, arith, if◌then◌else◌}
use faser_common.Common.Bits.{bit_and_shifted}
use faser_common.Common.Bytes.{
  le_bytes, le_value-le_bytes, field, slice, load-in_range, load_bytes-in_range,
}
use faser_common.Bobr.{
  BobrEvent, BobrDataFragment, BobrDataException, wrong_size, unknown_version, event_of_bytes,
  make_fragment, clock_unlocked, ttc_ready, local_40mhz_present, local_turnclock_present,
  ttcb_available, ttc_errors,
}

-- The bytes of the packed structure.
unfoldable pub event_bytes : BobrEvent → List ℕ
event_bytes e =
    le_bytes 2 e.m_header
    ++ (le_bytes 2 e.m_status
        ++ (le_bytes 4 e.m_gpstime_seconds
            ++ (le_bytes 4 e.m_gpstime_useconds
                ++ (le_bytes 4 e.m_turncount
                    ++ (le_bytes 4 e.m_fillnumber
                        ++ (le_bytes 2 e.m_machinemode
                            ++ (le_bytes 2 e.m_beam_momentum
                                ++ (le_bytes 4 e.m_beam1_intensity
                                    ++ (le_bytes 4 e.m_beam2_intensity)))))))))

-- The values that the members can hold.
pub record IsBobrEvent (e : BobrEvent) : Type 0 where
  pub header_fits : e.m_header < 256 ^ 2
  pub status_fits : e.m_status < 256 ^ 2
  pub gpstime_seconds_fits : e.m_gpstime_seconds < 256 ^ 4
  pub gpstime_useconds_fits : e.m_gpstime_useconds < 256 ^ 4
  pub turncount_fits : e.m_turncount < 256 ^ 4
  pub fillnumber_fits : e.m_fillnumber < 256 ^ 4
  pub machinemode_fits : e.m_machinemode < 256 ^ 2
  pub beam_momentum_fits : e.m_beam_momentum < 256 ^ 2
  pub beam1_intensity_fits : e.m_beam1_intensity < 256 ^ 4
  pub beam2_intensity_fits : e.m_beam2_intensity < 256 ^ 4

event_of_bytes-event_bytes : (e : BobrEvent) → IsBobrEvent e → event_of_bytes (event_bytes e) ≡ e
unfolding event_of_bytes event_bytes
event_of_bytes-event_bytes e v = λ i. record {
  m_header = le_value-le_bytes 2 e.m_header v.header_fits i;
  m_status = le_value-le_bytes 2 e.m_status v.status_fits i;
  m_gpstime_seconds = le_value-le_bytes 4 e.m_gpstime_seconds v.gpstime_seconds_fits i;
  m_gpstime_useconds = le_value-le_bytes 4 e.m_gpstime_useconds v.gpstime_useconds_fits i;
  m_turncount = le_value-le_bytes 4 e.m_turncount v.turncount_fits i;
  m_fillnumber = le_value-le_bytes 4 e.m_fillnumber v.fillnumber_fits i;
  m_machinemode = le_value-le_bytes 2 e.m_machinemode v.machinemode_fits i;
  m_beam_momentum = le_value-le_bytes 2 e.m_beam_momentum v.beam_momentum_fits i;
  m_beam1_intensity = le_value-le_bytes 4 e.m_beam1_intensity v.beam1_intensity_fits i;
  m_beam2_intensity = le_value-le_bytes 4 e.m_beam2_intensity v.beam2_intensity_fits i;
}

-- The constructor on a buffer of the size that it is given: it throws for any size but 32 and for
-- any header but the known one, and takes the buffer's bytes otherwise.
pub make_fragment_outcome :
    (buf : List ℕ)
    → make_fragment buf (length buf) ≡ (
        if length buf == 32
        then (if field 0 2 buf == 0xB0B1
            then ok record {
              event = event_of_bytes (slice 0 (length buf) buf);
              m_size = length buf;
              m_debug = false;
            }
            else throw unknown_version)
        else throw wrong_size)
unfolding make_fragment
make_fragment_outcome buf = elim (Bool-cases (length buf == 32)) [
  | inr wrong ↦ rw wrong refl
  | inl right ↦
      let e : length buf ≡ 32 = (==_iff (length buf) 32).0 right in
      elim (Bool-cases (field 0 2 buf == 0xB0B1)) [
        | inr wrong ↦
            rw (right, load-in_range {E = BobrDataException} buf 0 2 (omega arith), wrong) refl
        | inl known ↦
            rw
              (
                right,
                load-in_range {E = BobrDataException} buf 0 2 (omega arith),
                known,
                load_bytes-in_range {E = BobrDataException} buf 0 (length buf) (omega arith),
              )
              refl
      ]
]

version-event_bytes :
    (e : BobrEvent) (more : List ℕ) → IsBobrEvent e → field 0 2 (event_bytes e ++ more) ≡ e.m_header
unfolding event_bytes
version-event_bytes e more v = le_value-le_bytes 2 e.m_header v.header_fits

slice-event_bytes :
    (e : BobrEvent) (more : List ℕ) → slice 0 32 (event_bytes e ++ more) ≡ event_bytes e
unfolding event_bytes
slice-event_bytes e more = refl

room-event_bytes : (e : BobrEvent) (more : List ℕ) → 32 ≤ length (event_bytes e ++ more)
unfolding event_bytes
room-event_bytes e more = omega (arith, length-append (event_bytes e) more)

-- The event is read back from its bytes, whatever follows them.
pub make_fragment-event_bytes :
    (e : BobrEvent) (more : List ℕ)
    → IsBobrEvent e
    → e.m_header ≡ 0xB0B1
    → make_fragment (event_bytes e ++ more) 32
      ≡ ok record { event = e; m_size = 32; m_debug = false }
unfolding make_fragment
make_fragment-event_bytes e more v known =
    let room = room-event_bytes e more in
    rw
      (
        load-in_range {E = BobrDataException} (event_bytes e ++ more) 0 2 (omega (arith, room)),
        (==_iff (field 0 2 (event_bytes e ++ more)) 0xB0B1).1
            (version-event_bytes e more v ∙ known),
        load_bytes-in_range {E = BobrDataException} (event_bytes e ++ more) 0 32
            (omega (arith, room)),
        slice-event_bytes e more,
        event_of_bytes-event_bytes e v,
      )
      refl

-- The six flags are bits 0 and 8 to 12 of the status word.
status_flags :
    (f : BobrDataFragment)
    → (clock_unlocked f ≡ (f.event.m_status % 2 == 1))
      × (ttc_ready f ≡ (f.event.m_status / 2 ^ 8 % 2 == 1))
      × (local_40mhz_present f ≡ (f.event.m_status / 2 ^ 9 % 2 == 1))
      × (local_turnclock_present f ≡ (f.event.m_status / 2 ^ 10 % 2 == 1))
      × (ttcb_available f ≡ (f.event.m_status / 2 ^ 11 % 2 == 1))
      × (ttc_errors f ≡ (f.event.m_status / 2 ^ 12 % 2 == 1))
unfolding clock_unlocked ttc_ready local_40mhz_present local_turnclock_present ttcb_available
    ttc_errors
status_flags f =
    let s = f.event.m_status in
    (
      ground (arith, bit_and_shifted 0 1 s),
      ground (arith, bit_and_shifted 8 1 s),
      ground (arith, bit_and_shifted 9 1 s),
      ground (arith, bit_and_shifted 10 1 s),
      ground (arith, bit_and_shifted 11 1 s),
      ground (arith, bit_and_shifted 12 1 s),
    )
