-- ===== src/Digitizer/Decode.antt =====
-- The constructor on every buffer: what it makes, what it throws, and when it divides by zero.
use faser_common.Common.{
  ℕ, zero, suc, ◌+◌, ◌-◌, ◌*◌, ◌/◌, ◌%◌, ◌^◌, ◌≤◌, ◌<◌, ◌≡◌, ◌≢◌, ◌↔◌, ◌⊎◌, inl, inr, refl, ◌∙◌,
  List, [],
}
use faser_common.Common.{
  length, false, ltb, ◌==◌, ok, throw, fault, arith, Bool-cases, ==_iff, le→ltb_false, ltb_false→le,
  ◌>>=◌,
}
use native.Mathlib.Nat.{mod-add-div}
use native.Mathlib.Decide.{dec_le, ℕ_discrete}
use faser_common.Common.Bits.{bit_and_mask}
use faser_common.Common.Bytes.{field, load-in_range}
use faser_common.Common.Words.{u32}
use faser_common.Digitizer.{
  DigitizerEvent, DigitizerDataFragment, DigitizerDataException, header_too_small, size_mismatch,
  not_divisible, decode_header, decode_channels, decode_digitizer, count_active, words_per_channel,
}
use faser_common.Digitizer.Reads.{channels_at, read_channels-in_range}

-- The header that a buffer begins with.
abbrev pub header : List ℕ → DigitizerEvent
header buf = decode_header (field 0 4 buf) (field 4 4 buf) (field 8 4 buf) (field 12 4 buf)

-- The number of enabled channels, and the words of each.
abbrev pub enabled : List ℕ → ℕ
enabled buf = count_active 16 0 (header buf).channel_mask

abbrev pub share : List ℕ → ℕ
share buf = ((header buf).event_size - 4) / enabled buf

-- The size is that of the header at least, and the one that the header names.
abbrev pub IsSized : List ℕ → ℕ → Type 0
IsSized buf size = (16 ≤ size) × ((header buf).event_size * 4 ≡ size)

-- The words behind the header are shared out among the enabled channels with none left over.
abbrev pub IsShared : List ℕ → Type 0
IsShared buf = (enabled buf ≢ 0) × (enabled buf * share buf ≡ (header buf).event_size - 4)

-- The fragment that is made of the buffer.
abbrev pub made : List ℕ → ℕ → DigitizerDataFragment
made buf size = record {
  event = record (header buf) {
    n_samples = u32 (2 * share buf);
    adc_counts = channels_at 16 0 (header buf).channel_mask (share buf) 4 buf;
  };
  m_size = size;
  m_debug = false;
}

pub event_size-lt : (buf : List ℕ) → (header buf).event_size < 2 ^ 28
unfolding decode_header
event_size-lt buf = omega (arith, bit_and_mask 28 (field 0 4 buf))

-- What is left of the constructor when the size is right.
decode_digitizer-IsSized :
    (buf : List ℕ) (size : ℕ)
    → size ≤ length buf
    → IsSized buf size
    → decode_digitizer buf size ≡ (
        decode_channels (header buf) buf >>= λ event.
        ok (record { event = event; m_size = size; m_debug = false }))
unfolding decode_digitizer
decode_digitizer-IsSized buf size h (big, e) =
    let same : u32 ((header buf).event_size * 4) ≡ size = omega (arith, event_size-lt buf) in
    rw
      (
        le→ltb_false size 16 big,
        load-in_range {E = DigitizerDataException} buf 0 4 (omega arith),
        load-in_range {E = DigitizerDataException} buf 4 4 (omega arith),
        load-in_range {E = DigitizerDataException} buf 8 4 (omega arith),
        load-in_range {E = DigitizerDataException} buf 12 4 (omega arith),
        (==_iff (u32 ((header buf).event_size * 4)) size).1 same,
      )
      refl

-- A wrong size is refused.
decode_digitizer-unsized :
    (buf : List ℕ) (size : ℕ)
    → size ≤ length buf
    → (IsSized buf size → ⊥)
    → (e : DigitizerDataException) × (decode_digitizer buf size ≡ throw e)
unfolding decode_digitizer
decode_digitizer-unsized buf size h wrong = elim (Bool-cases (ltb size 16)) [
  | inl small ↦ (header_too_small, rw small refl)
  | inr big ↦
      let big' : 16 ≤ size = ltb_false→le size 16 big in
      let e : u32 ((header buf).event_size * 4) ≡ (header buf).event_size * 4 =
        omega (arith, event_size-lt buf) in
      elim (Bool-cases (u32 ((header buf).event_size * 4) == size)) [
        | inl same ↦ absurd (wrong (big', cc (e, (==_iff _ _).0 same)))
        | inr other ↦ (
          size_mismatch,
          rw
              (
                big,
                load-in_range {E = DigitizerDataException} buf 0 4 (omega arith),
                load-in_range {E = DigitizerDataException} buf 4 4 (omega arith),
                load-in_range {E = DigitizerDataException} buf 8 4 (omega arith),
                load-in_range {E = DigitizerDataException} buf 12 4 (omega arith),
                other,
              )
              refl,
        )
      ]
]

-- The division.
words_per_channel-cases :
    (x n : ℕ)
    → ((n ≡ 0) × (words_per_channel x n ≡ fault))
      ⊎ (((n ≢ 0) × (n * (x / n) ≡ x) × (words_per_channel x n ≡ ok (x / n)))
          ⊎ ((n ≢ 0) × (n * (x / n) ≢ x) × (words_per_channel x n ≡ throw not_divisible)))
unfolding words_per_channel
words_per_channel-cases x zero = inl (refl, refl)
words_per_channel-cases x (suc n) = elim (Bool-cases (x % suc n == 0)) [
  | inl even ↦ inr (
      inl (
        omega arith,
        omega (arith, mod-add-div x (suc n), (==_iff (x % suc n) 0).0 even),
        rw even refl,
      ))
  | inr odd ↦ inr (
      inr (
        omega arith,
        λ whole. cc (odd, (==_iff (x % suc n) 0).1 (omega (arith, mod-add-div x (suc n), whole))),
        rw odd refl,
      ))
]

-- What is left of the event behind its header.
behind_header :
    (buf : List ℕ) (size : ℕ)
    → IsSized buf size
    → u32 ((header buf).event_size + 2 ^ 32 - 4) ≡ (header buf).event_size - 4
behind_header buf size s = omega (arith, event_size-lt buf, s.0, s.1)

decode_channels-IsShared :
    (buf : List ℕ) (size : ℕ)
    → size ≤ length buf
    → IsSized buf size
    → enabled buf * share buf ≡ (header buf).event_size - 4
    → words_per_channel ((header buf).event_size - 4) (enabled buf) ≡ ok (share buf)
    → decode_channels (header buf) buf ≡ ok (made buf size).event
unfolding decode_channels
decode_channels-IsShared buf size h s whole w =
    let room : 4 * (4 + enabled buf * share buf) ≤ length buf = omega (arith, whole, s.0, s.1) in
    rw
      (
        behind_header buf size s,
        w,
        read_channels-in_range 16 0 (header buf).channel_mask (share buf) 4 buf [] tt room,
      )
      refl

-- The constructor's outcomes on a buffer of the size that it is given.
data Outcome (buf : List ℕ) (size : ℕ) : Type 0 where
  decoded :
      IsSized buf size
      → IsShared buf
      → decode_digitizer buf size ≡ ok (made buf size)
      → Outcome buf size
  divided :
      IsSized buf size → enabled buf ≡ 0 → decode_digitizer buf size ≡ fault → Outcome buf size
  refused :
      (e : DigitizerDataException)
      → (IsSized buf size → enabled buf ≢ 0)
      → (IsSized buf size → IsShared buf → ⊥)
      → decode_digitizer buf size ≡ throw e
      → Outcome buf size

sized_outcome : (buf : List ℕ) (size : ℕ) → size ≤ length buf → IsSized buf size → Outcome buf size
sized_outcome buf size h s =
    let start = decode_digitizer-IsSized buf size h s in
    elim (words_per_channel-cases ((header buf).event_size - 4) (enabled buf)) [
      | inl (none_on, w) ↦
          divided s none_on
            (start ∙ unfold decode_channels in rw (behind_header buf size s, w) refl)
      | inr (inl (some_on, whole, w)) ↦
          decoded s (some_on, whole)
            (start ∙ rw (decode_channels-IsShared buf size h s whole w) refl)
      | inr (inr (some_on, broken, w)) ↦
          refused not_divisible (λ s'. some_on) (λ s' shared. broken shared.1)
            (start ∙ unfold decode_channels in rw (behind_header buf size s, w) refl)
    ]

outcome : (buf : List ℕ) (size : ℕ) → size ≤ length buf → Outcome buf size
outcome buf size h = elim (dec_le 16 size) [
  | yes big ↦ elim (ℕ_discrete ((header buf).event_size * 4) size) [
    | yes e ↦ sized_outcome buf size h (big, e)
    | no ne ↦ wrong_size (λ s. ne s.1)
  ]
  | no small ↦ wrong_size (λ s. small s.0)
]
  where
    wrong_size : (IsSized buf size → ⊥) → Outcome buf size
    wrong_size wrong =
        let (e, r) = decode_digitizer-unsized buf size h wrong in
        refused e (λ s. absurd (wrong s)) (λ s t. wrong s) r

-- A fragment is made of a buffer of `size` bytes exactly if it holds a header, the header names
-- that size, and the words behind it are shared out evenly among the enabled channels, of which
-- there is one at least.
pub decode_digitizer-ok_iff :
    (buf : List ℕ) (size : ℕ)
    → size ≤ length buf
    → ((f : DigitizerDataFragment) × (decode_digitizer buf size ≡ ok f))
      ↔ (IsSized buf size × IsShared buf)
decode_digitizer-ok_iff buf size h = elim (outcome buf size h) [
  | decoded s t r ↦ (λ p. (s, t), λ p. (made buf size, r))
  | divided s z r ↦ (λ p. cc (r, p.1), λ p. absurd (p.1.0 z))
  | refused e u v r ↦ (λ p. cc (r, p.1), λ p. absurd (v p.0 p.1))
]

-- It divides by zero exactly if the size is right and no channel is enabled; it never reads
-- behind the buffer.
pub decode_digitizer-fault_iff :
    (buf : List ℕ) (size : ℕ)
    → size ≤ length buf
    → (decode_digitizer buf size ≡ fault) ↔ (IsSized buf size × (enabled buf ≡ 0))
decode_digitizer-fault_iff buf size h = elim (outcome buf size h) [
  | decoded s t r ↦ (λ p. cc (r, p), λ p. absurd (t.0 p.1))
  | divided s z r ↦ (λ p. (s, z), λ p. r)
  | refused e u v r ↦ (λ p. cc (r, p), λ p. absurd (u p.0 p.1))
]

pub decode_digitizer-made :
    (buf : List ℕ) (size : ℕ) (f : DigitizerDataFragment)
    → size ≤ length buf
    → decode_digitizer buf size ≡ ok f
    → IsSized buf size × IsShared buf × (made buf size ≡ f)
decode_digitizer-made buf size f h e = elim (outcome buf size h) [
  | decoded s t r ↦ (s, t, cc (r, e))
  | divided s z r ↦ cc (r, e)
  | refused x u v r ↦ cc (r, e)
]
