-- ===== src/Daq/Event/Add.antt =====
-- `addFragment`: it keeps an event well formed, and what it does to the header.
use faser_common.Common.{ℕ, ◌+◌, ◌^◌, ◌<◌, ◌≡◌, ◌≢◌, refl, bit_or}
use faser_common.Common.{none, some, ok, throw, arith, if◌then◌else◌, ◌==◌}
use faser_common.Common.Bits.{bit_or-lt}
use faser_common.Common.OrderedMap.{
  find, insert, insert-IsSorted, insert-All, sum_values-insert, length-insert, find-insert,
}
use faser_common.Daq.Defs.{EFormatException}
use faser_common.Daq.Fragment.{EventFragment, IsFragment}
use faser_common.Daq.Fragment.RoundTrip.{size_of-raw}
use faser_common.Daq.Event.Defs.{
  EventFull, IsHeader, IsEvent, IsEntry, make_event, add_fragment, bytes_of, adopt_first, account,
  mismatch, prefer_trigger,
}

-- A second fragment of one source is refused.
pub add_fragment_duplicate :
    (ev : EventFull) (f old : EventFragment)
    → find f.header.source_id ev.fragments ≡ some old
    → add_fragment ev f ≡ throw EFormatException.duplicate_fragment
unfolding add_fragment
add_fragment_duplicate ev f old h = rw (h, add_fragment)

-- The event after the addition.
abbrev pub added : EventFull → EventFragment → EventFull
added ev f =
    let h = account (adopt_first ev.header f) f in
    record {
      header = record (prefer_trigger h f) {
        status = bit_or (prefer_trigger h f).status (bit_or f.header.status (mismatch h f));
      };
      fragments = insert f.header.source_id f ev.fragments;
    }

pub add_fragment_ok :
    (ev : EventFull) (f : EventFragment)
    → find f.header.source_id ev.fragments ≡ none
    → add_fragment ev f ≡ ok (added ev f, mismatch (account (adopt_first ev.header f) f) f)
unfolding add_fragment
add_fragment_ok ev f h = rw (h, add_fragment)

make_event-IsEvent :
    (now tag run number : ℕ)
    → now < 256 ^ 8
    → tag < 256 ^ 1
    → number < 256 ^ 8
    → IsEvent (make_event now tag run number)
unfolding make_event
make_event-IsEvent now tag run number hn ht hc = record {
  header_fits = omega arith;
  marked = refl;
  versioned = refl;
  header_measured = refl;
  payload_measured = refl;
  counted = refl;
  sorted = tt;
  entries = tt;
}

module _ (ev : EventFull) (f : EventFragment) (v : IsEvent ev) (vf : IsFragment f)
    (fresh : find f.header.source_id ev.fragments ≡ none) (room : ev.header.fragment_count < 255)
    (space : ev.header.payload_size + bytes_of f < 2 ^ 32) where
  added-IsHeader : IsHeader (added ev f).header
  unfolding account adopt_first mismatch prefer_trigger
  added-IsHeader = record {
    marker_fits = ground (arith, v.header_fits.marker_fits);
    event_tag_fits = ground (arith, v.header_fits.event_tag_fits);
    trigger_bits_fits = ground (
      arith,
      bit_or-lt 16 ev.header.trigger_bits f.header.trigger_bits v.header_fits.trigger_bits_fits
          vf.header_fits.trigger_bits_fits,
    );
    version_number_fits = ground (arith, v.header_fits.version_number_fits);
    header_size_fits = ground (arith, v.header_fits.header_size_fits);
    payload_size_fits = ground arith;
    fragment_count_fits = ground arith;
    run_number_fits = ground (arith, v.header_fits.run_number_fits);
    event_id_fits = ground (arith, v.header_fits.event_id_fits, vf.header_fits.event_id_fits);
    event_counter_fits = ground (arith, v.header_fits.event_counter_fits);
    bc_id_fits = ground (arith, v.header_fits.bc_id_fits, vf.header_fits.bc_id_fits);
    status_fits =
        bit_or-lt 16 _ _ (ground (arith, v.header_fits.status_fits))
          (bit_or-lt 16 _ _ vf.header_fits.status_fits (ground arith));
    timestamp_fits = ground (arith, v.header_fits.timestamp_fits);
  }

  added-IsEvent : IsEvent (added ev f)
  unfolding account adopt_first prefer_trigger
  added-IsEvent = record {
    header_fits = added-IsHeader;
    marked = ground (arith, v.marked);
    versioned = ground (arith, v.versioned);
    header_measured = ground (arith, v.header_measured);
    payload_measured = ground (
      arith,
      v.payload_measured,
      size_of-raw f vf,
      sum_values-insert bytes_of f.header.source_id f ev.fragments fresh,
    );
    counted = ground (arith, v.counted, length-insert f.header.source_id f ev.fragments fresh);
    sorted = insert-IsSorted f.header.source_id f ev.fragments v.sorted;
    entries = insert-All IsEntry f.header.source_id f ev.fragments (refl, vf) v.entries;
  }

  -- Adding a well-formed fragment of a new source to a well-formed event that has room for it
  -- succeeds and keeps the event well formed; the fragment is found under its source, and the
  -- others are found as before.
  pub add_fragment-IsEvent :
      (ev' : EventFull) × (st : ℕ) × (add_fragment ev f ≡ ok (ev', st))
      × IsEvent ev'
      × ((j : ℕ)
          → find j ev'.fragments
            ≡ (if j == f.header.source_id then some f else find j ev.fragments))
  add_fragment-IsEvent = (
    added ev f,
    mismatch (account (adopt_first ev.header f) f) f,
    add_fragment_ok ev f fresh,
    added-IsEvent,
    λ j. find-insert f.header.source_id j f ev.fragments,
  )

-- What the header says after a fragment of a new source was added. The first fragment gives the
-- event its bunch crossing and id and raises no flag; a later one raises the mismatch flag exactly
-- if its bunch crossing is another one, and replaces the event's only if it is the trigger's.
pub add_fragment-header :
    (ev : EventFull) (f : EventFragment)
    → find f.header.source_id ev.fragments ≡ none
    → (ev' : EventFull) × (st : ℕ) × (add_fragment ev f ≡ ok (ev', st))
      × (ev.header.fragment_count ≡ 0
          → (st ≡ 0)
            × (ev'.header.bc_id ≡ f.header.bc_id)
            × (ev'.header.event_id ≡ f.header.event_id))
      × (ev.header.fragment_count ≢ 0
          → (st ≡ (if ev.header.bc_id == f.header.bc_id then 0 else 2))
            × (ev'.header.event_id ≡ ev.header.event_id)
            × (ev'.header.bc_id
                ≡ (if f.header.source_id == 0x020000 then f.header.bc_id else ev.header.bc_id)))
      × (ev'.header.status ≡ bit_or ev.header.status (bit_or f.header.status st))
      × (ev'.header.trigger_bits ≡ bit_or ev.header.trigger_bits f.header.trigger_bits)
unfolding account adopt_first mismatch prefer_trigger
add_fragment-header ev f fresh = (
  added ev f,
  mismatch (account (adopt_first ev.header f) f) f,
  add_fragment_ok ev f fresh,
  λ first. ground arith,
  λ later. ground arith,
  ground arith,
  ground arith,
)
