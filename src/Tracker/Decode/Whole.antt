-- ===== src/Tracker/Decode/Whole.antt =====
-- The whole constructor: the words of the modules that the frames leave have 24 bits.
use faser_common.Common.{
  ℕ, ◌+◌, ◌/◌, ◌%◌, ◌^◌, ◌≤◌, ◌≡◌, refl, sym, subst, ◌∙◌, List, [], ◌∷◌, ◌++◌, length, Bool, true,
  false, not, ◌&&◌, ◌||◌, Bool-cases, inl, inr, All, All-append, arith,
}
use faser_common.Common.{bit_and, ◌==◌, if◌then◌else◌, Option, ok}
use faser_common.Common.Bits.{bit_and_mask}
use faser_common.Common.Words.{words, u8}
use faser_common.Common.OrderedMap.{find}
use faser_common.Checksum.{checksum_of_words}
use faser_common.Checksum.Laws.{return_fletcher_checksum-in_range}
use faser_common.Tracker.{
  TrbEvent, header_word, trb_data_word, module_data_word, frame_word, frame_loop, push_module,
  module_key, fresh_event, decode_frames, trb_end, frame_counter, word_type, trb_header,
  wordtype_trbdata, wordtype_moduledata_led, wordtype_moduledata_ledx,
}
use faser_common.Tracker.Modules.{words_under, words_under-push_module}
use faser_common.Tracker.SctEvent.{SctEvent, TrackerDataException}
use faser_common.Tracker.Bitstream.Refine.{IsWord}
use faser_common.Tracker.Decode.{returns, no_fuel, make_tracker_data_fragment}
use faser_common.Common.{◌≢◌, Result, Result-Cases, returned, thrown, faulted, >>=-eq-ok}
use faser_common.Checksum.{return_fletcher_checksum}
use faser_common.Tracker.Decode.Total.{DbFits, SlotsFit, decode_module_data-returns}

module _ (ev : TrbEvent) (w : ℕ) where
  header_word-db : (header_word ev w).0.m_mod_db ≡ ev.m_mod_db
  unfolding header_word
  header_word-db = ground arith

  trb_data_word-db : (trb_data_word ev w).m_mod_db ≡ ev.m_mod_db
  unfolding trb_data_word
  trb_data_word-db = ground arith

push_module-DbFits :
    (key value : ℕ) (db : List (ℕ × List ℕ))
    → IsWord value
    → DbFits db
    → DbFits (push_module key value db)
push_module-DbFits key value db small fits k = elim (Bool-cases (k == key)) [
  | inl same ↦
      subst (All IsWord) (sym (words_under-push_module k key value db ∙ pick same))
        (All-append IsWord (words_under k db) (value ∷ []) (fits k) (small, tt))
  | inr other ↦
      subst (All IsWord) (sym (words_under-push_module k key value db ∙ pass other)) (fits k)
]
  where
    pick :
        (k == key) ≡ true
        → (if k == key then words_under k db ++ (value ∷ []) else words_under k db)
          ≡ words_under k db ++ (value ∷ [])
    pick e = rw e refl

    pass :
        (k == key) ≡ false
        → (if k == key then words_under k db ++ (value ∷ []) else words_under k db)
          ≡ words_under k db
    pass e = rw e refl

module_data_word-DbFits :
    (ev : TrbEvent) (w : ℕ) → DbFits ev.m_mod_db → DbFits (module_data_word ev w).m_mod_db
unfolding module_data_word
module_data_word-DbFits ev w fits =
    push_module-DbFits
      (module_key (u8 (bit_and w 0x07000000 / 2 ^ 24)) (u8 (bit_and w 0x40000000 / 2 ^ 30)))
      (bit_and w 0xFFFFFF) ev.m_mod_db (omega (arith, bit_and_mask 24 w)) fits

trb_part :
    (b : Bool) (ev : TrbEvent) (w : ℕ)
    → DbFits ev.m_mod_db
    → DbFits (if b then trb_data_word ev w else ev).m_mod_db
trb_part true ev w fits = subst DbFits (sym (trb_data_word-db ev w)) fits
trb_part false ev w fits = fits

module_part :
    (b : Bool) (ev : TrbEvent) (w : ℕ)
    → DbFits ev.m_mod_db
    → DbFits (if b then module_data_word ev w else ev).m_mod_db
module_part true ev w fits = module_data_word-DbFits ev w fits
module_part false ev w fits = fits

frame_word-DbFits :
    (ev : TrbEvent) (w : ℕ) → DbFits ev.m_mod_db → DbFits (frame_word ev w).0.m_mod_db
unfolding frame_word
frame_word-DbFits ev w fits = elim (Bool-cases (word_type w == trb_header)) [
  | inl e ↦ rw (frame_word, e) (subst DbFits (sym (header_word-db ev w)) fits)
  | inr e ↦
      let is_trb = word_type w == wordtype_trbdata in
      let is_module =
        word_type w == wordtype_moduledata_led || word_type w == wordtype_moduledata_ledx in
      rw (frame_word, e)
        (module_part is_module (if is_trb then trb_data_word ev w else ev) w
          (trb_part is_trb ev w fits))
]

frame_loop-DbFits :
    (ws : List ℕ) (later : Bool) (next : ℕ) (ev : TrbEvent)
    → DbFits ev.m_mod_db
    → DbFits (frame_loop ws later next ev).m_mod_db
unfolding frame_loop
frame_loop-DbFits [] later next ev fits = fits
frame_loop-DbFits (w ∷ ws) later next ev fits =
    let fits' = frame_word-DbFits ev w fits in
    elim (Bool-cases (later && (not (w == trb_end) && not (frame_counter w == next)))) [
      | inl e ↦ rw (frame_loop, e) fits
      | inr e ↦ elim (Bool-cases (frame_word ev w).1) [
        | inl e' ↦
            rw (frame_loop, e, e')
              (frame_loop-DbFits ws true ((frame_counter w + 1) % 8) (frame_word ev w).0 fits')
        | inr e' ↦ rw (frame_loop, e, e') fits'
      ]
    ]

decode_frames-DbFits :
    (junk : ℕ) (buf : List ℕ) (size : ℕ) (ev : TrbEvent)
    → decode_frames {E = TrackerDataException} junk buf size ≡ ok ev
    → DbFits ev.m_mod_db
unfolding decode_frames
decode_frames-DbFits junk buf size ev h =
    let (crc, made, e) =
      >>=-eq-ok (return_fletcher_checksum {E = TrackerDataException} buf size) _ h in
    subst (λ t. DbFits t.m_mod_db) (ok_frames _ ev e)
      (frame_loop-DbFits (words (size / 4) buf) false 0xf (fresh_event junk crc)
        (λ key. none_under key))
  where
    ok_frames :
        (a b : TrbEvent) → ◌≡◌ {A = Result TrackerDataException TrbEvent} (ok a) (ok b) → a ≡ b
    ok_frames a b e = cc e

    none_under : (key : ℕ) → All IsWord (words_under key [])
    none_under key = unfold find in tt

-- The fuel is enough for every size, also one beyond the buffer.
pub make_tracker_data_fragment-ne-no_fuel :
    (junk : ℕ) (buf : List ℕ) (size : ℕ) → make_tracker_data_fragment junk buf size ≢ no_fuel
unfolding make_tracker_data_fragment
make_tracker_data_fragment-ne-no_fuel junk buf size =
    elim (Result-Cases (decode_frames {E = TrackerDataException} junk buf size)) [
      | thrown x r ↦ rw (r, make_tracker_data_fragment) (λ h. cc)
      | faulted r ↦ rw (r, make_tracker_data_fragment) (λ h. cc)
      | returned ev r ↦
          let fits = decode_frames-DbFits junk buf size ev r in
          let (slots, e, eight, all) = decode_module_data-returns ev.m_mod_db fits in
          rw (r, e, make_tracker_data_fragment) (λ h. cc)
    ]

-- The constructor returns for every buffer that holds the fragment's size: the frames are read, all
-- module data is decoded, and nothing is thrown. It leaves eight pointers to decoded modules, each
-- null or to data of that module with twelve chips, an l1id of 4 bits, a bcid of 8 bits, and no
-- mismatch of the bcid ever reported.
pub make_tracker_data_fragment-returns :
    (junk : ℕ) (buf : List ℕ) (size : ℕ)
    → size ≤ length buf
    → (ev : TrbEvent) × (slots : List (Option SctEvent)) × (make_tracker_data_fragment junk buf size
        ≡ returns (ev, slots))
      × (decode_frames {E = TrackerDataException} junk buf size ≡ ok ev)
      × (length slots ≡ 8)
      × SlotsFit 0 slots
unfolding make_tracker_data_fragment
make_tracker_data_fragment-returns junk buf size h =
    let crc = checksum_of_words (words (size / 4) buf) in
    let ev : TrbEvent = frame_loop (words (size / 4) buf) false 0xf (fresh_event junk crc) in
    let frames : decode_frames {E = TrackerDataException} junk buf size ≡ ok ev =
      unfold decode_frames in
      rw (return_fletcher_checksum-in_range {E = TrackerDataException} buf size (omega arith))
        refl in
    let fits : DbFits ev.m_mod_db =
      frame_loop-DbFits (words (size / 4) buf) false 0xf (fresh_event junk crc)
        (λ key. none_under key) in
    let (slots, e, eight, all) = decode_module_data-returns ev.m_mod_db fits in
    (ev, slots, rw (make_tracker_data_fragment, frames, e) refl, frames, eight, all)
  where
    none_under : (key : ℕ) → All IsWord (words_under key [])
    none_under key = unfold find in tt
