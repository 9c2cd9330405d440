-- ===== src/Tracker/Decode/Total.antt =====
-- `DecodeModuleData` ends for all words that the frames hold.
use faser_common.Common.{
  ℕ, zero, suc, ◌+◌, ◌-◌, ◌*◌, ◌≤◌, ◌<◌, ◌≡◌, refl, ap, List, [], ◌∷◌, length, Bool, true, false,
  Bool-cases, inl, inr, All, arith,
}
use faser_common.Common.{Option}
use faser_common.Tracker.SctEvent.{SctEvent}
use faser_common.Tracker.{module_key}
use faser_common.Tracker.Modules.{words_under}
use faser_common.Tracker.Bitstream.{make_bitstream, bits_available, get_word32}
use faser_common.Tracker.Bitstream.Refine.{IsWord}
use faser_common.Tracker.Decode.{
  Decoded, returns, throws, overrun, null_pointer, no_fuel, ◌>>=◌, Side, round, side_loop, rounds,
  words_of_side, decode_side, decode_module, decode_modules, no_modules, decode_module_data,
}
use faser_common.Tracker.Decode.Progress.{Left, Left-make_bitstream}
use faser_common.Tracker.Decode.Packets.{Returns, Returns-bind, Returns-moved}
use faser_common.Tracker.Decode.Rounds.{SlotFits, PointerFits, SideFits, RoundFits, round-Returns}

-- A module's pointer and whether `sctEvent` is set.
abbrev PairFits : ℕ → Option SctEvent × Bool → Type 0
PairFits k (slot, has) = SlotFits k slot × PointerFits has slot

unfoldable pub after_round : ℕ → ℕ → ℕ → ℕ → ℕ → Side × Bool → Decoded Side
after_round fuel inner k led other r = elim r.1 [
  | true ↦ returns r.0
  | false ↦ side_loop fuel inner k led other r.0
]

module _ (fuel inner k led other : ℕ) (sd : Side) where
  pub side_loop-end :
      bits_available sd.stream ≡ false → side_loop (suc fuel) inner k led other sd ≡ returns sd
  unfolding side_loop
  side_loop-end e = rw (side_loop, e) refl

  pub side_loop-round :
      bits_available sd.stream ≡ true
      → side_loop (suc fuel) inner k led other sd
        ≡ (round inner k led other sd >>= after_round fuel inner k led other)
  unfolding side_loop after_round
  side_loop-round e = rw (side_loop, e) refl

side_loop-Returns :
    (fuel inner k m led other : ℕ) (sd : Side)
    → SideFits k sd
    → Left sd.stream m
    → m < fuel
    → m < inner
    → Returns (side_loop fuel (suc inner) k led other sd) (SideFits k)
side_loop-Returns zero inner k m led other sd fits left enough enough' = absurd (omega arith)
side_loop-Returns (suc fuel) inner k m led other sd fits left enough enough' =
    elim (Bool-cases (bits_available sd.stream)) [
      | inr e ↦
          Returns-moved _ _ (SideFits k) (side_loop-end fuel (suc inner) k led other sd e) fits
      | inl e ↦
          let some_left : 1 ≤ m = some_available sd m left e in
          let rest = λ (sd' : Side) (fits' : SideFits k sd') (left' : Left sd'.stream (m - 1)).
            side_loop-Returns fuel inner k (m - 1) led other sd' fits' left' (omega arith)
              (omega arith) in
          Returns-moved _ _ (SideFits k) (side_loop-round fuel (suc inner) k led other sd e) (
            Returns-bind (round (suc inner) k led other sd) _ (RoundFits k (m - 1)) (SideFits k)
              (round-Returns inner k m led other sd fits left e enough')
              (λ r h. after_round-Returns fuel (suc inner) k (m - 1) led other rest r h))
    ]
  where
    some_available :
        (sd : Side) (m : ℕ) → Left sd.stream m → bits_available sd.stream ≡ true → 1 ≤ m
    some_available sd m (bits, h, fits) e =
        let pos : 0 < sd.stream.m_bits_available = ground arith in omega arith

    after_round-Returns :
        (fuel inner k m led other : ℕ)
        → ((sd : Side)
            → SideFits k sd
            → Left sd.stream m
            → Returns (side_loop fuel inner k led other sd) (SideFits k))
        → (r : Side × Bool) → RoundFits k m r
        → Returns (after_round fuel inner k led other r) (SideFits k)
    after_round-Returns fuel inner k m led other rest (sd, true) h = unfold after_round in h
    after_round-Returns fuel inner k m led other rest (sd, false) h =
        unfold after_round in rest sd h.0 h.1

-- The words under each key are words of 24 bits.
abbrev pub DbFits : List (ℕ × List ℕ) → Type 0
DbFits db = (key : ℕ) → All IsWord (words_under key db)

module _ (db : List (ℕ × List ℕ)) (words_fit : DbFits db) (k : ℕ) where
  decode_side-Returns :
      (led : ℕ) (slot : Option SctEvent) (has : Bool)
      → SlotFits k slot
      → PointerFits has slot
      → Returns (decode_side db k led (slot, has)) (PairFits k)
  unfolding decode_side
  decode_side-Returns led slot has fits points =
      let ws = words_of_side db k led in
      let sd : Side = record {
        stream = make_bitstream ws;
        module_event = slot;
        has_event = has;
        praeamble_found = false;
        first = true;
      } in
      let other = get_word32 (make_bitstream (words_of_side db k (1 - led))) in
      let left : Left (make_bitstream ws) (49 * length ws + 32) =
        Left-make_bitstream ws (words_fit (module_key k led)) in
      Returns-bind (side_loop (rounds (length ws)) (rounds (length ws)) k led other sd) _
        (SideFits k) (PairFits k)
        (side_loop-Returns (rounds (length ws)) (50 * length ws + 100) k (49 * length ws + 32) led
          other sd (fits, points) left (omega arith) (omega arith))
        (λ sd' h. h)

  decode_module-Returns :
      (slot : Option SctEvent) → SlotFits k slot → Returns (decode_module db k slot) (SlotFits k)
  unfolding decode_module
  decode_module-Returns slot fits =
      Returns-bind (decode_side db k 0 (slot, false)) _ (PairFits k) (SlotFits k)
        (decode_side-Returns 0 slot false fits tt)
        (λ r h.
          Returns-bind (decode_side db k 1 r) _ (PairFits k) (SlotFits k)
            (decode_side-Returns 1 r.0 r.1 h.0 h.1) (λ r' h'. h'.0))

-- The pointers of the modules from `k` on.
abbrev pub SlotsFit : ℕ → List (Option SctEvent) → Type 0
SlotsFit k [] = Unit {0}
SlotsFit k (slot ∷ slots) = SlotFits k slot × SlotsFit (k + 1) slots

abbrev pub ModulesFit : ℕ → ℕ → List (Option SctEvent) → Type 0
ModulesFit k n slots = (length slots ≡ n) × SlotsFit k slots

decode_modules-Returns :
    (db : List (ℕ × List ℕ)) (words_fit : DbFits db) (slots : List (Option SctEvent)) (k : ℕ)
    → SlotsFit k slots
    → Returns (decode_modules db k slots) (ModulesFit k (length slots))
unfolding decode_modules
decode_modules-Returns db words_fit [] k fits = (refl, tt)
decode_modules-Returns db words_fit (slot ∷ slots) k fits =
    Returns-bind (decode_module db k slot) _ (SlotFits k) (ModulesFit k (suc (length slots)))
      (decode_module-Returns db words_fit k slot fits.0)
      (λ slot' h.
        Returns-bind (decode_modules db (k + 1) slots) _ (ModulesFit (k + 1) (length slots))
          (ModulesFit k (suc (length slots)))
          (decode_modules-Returns db words_fit slots (k + 1) fits.1)
          (λ slots' h'. (ap suc h'.0, (h, h'.1))))

Returns-returns {ℓ} :
    {A : Type ℓ} (d : Decoded A) (P : A → Type 0) → Returns d P → (x : A) × (d ≡ returns x) × P x
Returns-returns (returns x) P h = (x, refl, h)
Returns-returns (throws e) P h = absurd h
Returns-returns overrun P h = absurd h
Returns-returns null_pointer P h = absurd h
Returns-returns no_fuel P h = absurd h

pub decode_module_data-Returns :
    (db : List (ℕ × List ℕ)) → DbFits db → Returns (decode_module_data db) (ModulesFit 0 8)
unfolding decode_module_data
decode_module_data-Returns db words_fit =
    decode_modules-Returns db words_fit no_modules 0
      (tt, (tt, (tt, (tt, (tt, (tt, (tt, (tt, tt))))))))

-- For every map whose words have 24 bits, `DecodeModuleData` ends: it throws nothing, follows no null
-- pointer, and leaves eight pointers, each null or to data of that module with twelve chips, an l1id
-- of 4 bits, a bcid of 8 bits, and no mismatch of the bcid ever reported.
pub decode_module_data-returns :
    (db : List (ℕ × List ℕ))
    → DbFits db
    → (slots : List (Option SctEvent)) × (decode_module_data db ≡ returns slots)
      × (length slots ≡ 8)
      × SlotsFit 0 slots
decode_module_data-returns db words_fit =
    let (slots, e, fits) =
      Returns-returns (decode_module_data db) (ModulesFit 0 8)
        (decode_module_data-Returns db words_fit) in
    (slots, e, fits.0, fits.1)
