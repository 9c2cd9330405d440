-- ===== src/Digitizer/Valid.antt =====
-- A fragment that the constructor made passes the validity test, and all its channels can be read.
use faser_common.Common.{
  ℕ, zero, suc, ◌+◌, ◌*◌, ◌≤◌, ◌<◌, ◌≡◌, ◌≢◌, inl, inr, refl, sym, ap, ◌∙◌, List, [],
}
use faser_common.Common.{
  length, true, false, ◌==◌, if◌then◌else◌, ok, throw, arith, ==_iff, ==_refl, some, none, subst,
}
use native.Mathlib.Decide.{ℕ_discrete}
use faser_common.Common.Words.{u32}
use faser_common.Common.OrderedMap.{find}
use faser_common.Digitizer.{
  DigitizerDataFragment, channel_not_in_map, decode_digitizer, valid, check_channels,
  channel_has_data, channel_adc_counts, get_bit,
}
use faser_common.Digitizer.Reads.{samples_at, length-samples_at, channels_at, get_bit_cases}
use faser_common.Digitizer.Decode.{
  made, share, enabled, header, IsSized, IsShared, decode_digitizer-made, event_size-lt,
}

-- The samples that a channel should have.
abbrev HasSamples : ℕ → ℕ → ℕ → List ℕ → Type 0
HasSamples mask c n s = (get_bit mask c ≡ 1 → length s ≡ 2 * n) × (get_bit mask c ≡ 0 → s ≡ [])

-- Every channel of the map is found.
find-channels_at :
    (left i mask n start c : ℕ) (buf : List ℕ)
    → i ≤ c
    → c < i + left
    → (s : List ℕ) × (find c (channels_at left i mask n start buf) ≡ some s) × HasSamples mask c n s
unfolding channels_at find
find-channels_at zero i mask n start c buf h h' = absurd (omega arith)
find-channels_at (suc left) i mask n start c buf h h' = elim (ℕ_discrete c i) [
  | yes e ↦
      subst
        (λ j.
          (s : List ℕ) × (find j (channels_at (suc left) i mask n start buf) ≡ some s)
          × HasSamples mask j n s)
        (sym e)
        (elim (get_bit_cases mask i) [
          | inl (off, z) ↦ ([], rw (channels_at, off, ==_refl i) refl, (λ t. cc (t, z), λ t. refl))
          | inr (on, z) ↦ (
            samples_at n start buf,
            rw (channels_at, on, ==_refl i) refl,
            (λ t. length-samples_at n start buf, λ t. cc (t, z)),
          )
        ])
  | no ne ↦
      let other : (c == i) ≡ false = ground arith in
      elim (get_bit_cases mask i) [
        | inl (off, z) ↦
            rw (channels_at, off, other)
              (find-channels_at left (i + 1) mask n start c buf (omega arith) (omega arith))
        | inr (on, z) ↦
            rw (channels_at, on, other)
              (find-channels_at left (i + 1) mask n (start + n) c buf (omega arith) (omega arith))
      ]
]

find-beyond :
    (left i mask n start c : ℕ) (buf : List ℕ)
    → i + left ≤ c
    → find c (channels_at left i mask n start buf) ≡ none
unfolding channels_at find
find-beyond zero i mask n start c buf h = refl
find-beyond (suc left) i mask n start c buf h =
    let other : (c == i) ≡ false = ground arith in
    elim (get_bit_cases mask i) [
      | inl (off, z) ↦
          rw (channels_at, off, other) (find-beyond left (i + 1) mask n start c buf (omega arith))
      | inr (on, z) ↦
          rw (channels_at, on, other)
            (find-beyond left (i + 1) mask n (start + n) c buf (omega arith))
    ]

channel_adc_counts-found :
    (f : DigitizerDataFragment) (c : ℕ) (s : List ℕ)
    → find c f.event.adc_counts ≡ some s
    → channel_adc_counts f c ≡ ok s
unfolding channel_adc_counts
channel_adc_counts-found f c s e = rw (channel_adc_counts, e) refl

channel_adc_counts-missing :
    (f : DigitizerDataFragment) (c : ℕ)
    → find c f.event.adc_counts ≡ none
    → channel_adc_counts f c ≡ throw channel_not_in_map
unfolding channel_adc_counts
channel_adc_counts-missing f c e = rw (channel_adc_counts, e) refl

-- The loop of the test, on a fragment whose enabled channels all have the samples announced.
check_channels-true :
    (left i : ℕ) (f : DigitizerDataFragment)
    → ((c : ℕ)
        → c < i + left
        → get_bit f.event.channel_mask c ≡ 1
        → (s : List ℕ) × (find c f.event.adc_counts ≡ some s) × (length s ≡ f.event.n_samples))
    → check_channels left i f true ≡ ok true
unfolding check_channels
check_channels-true zero i f h = refl
check_channels-true (suc left) i f h = elim (get_bit_cases f.event.channel_mask i) [
  | inl (off, z) ↦
      rw (check_channels, off) (check_channels-true left (i + 1) f (λ c hc. h c (omega arith)))
  | inr (on, z) ↦
      let (s, found, e) = h i (omega arith) z in
      rw
        (
          check_channels,
          on,
          channel_adc_counts-found f i s found,
          (==_iff (length s) f.event.n_samples).1 e,
        )
        (check_channels-true left (i + 1) f (λ c hc. h c (omega arith)))
]

factor_le : (n k x : ℕ) → n ≢ 0 → n * k ≡ x → k ≤ x
factor_le zero k x ne e = absurd (ne refl)
factor_le (suc n) k x ne e = grind arith

module _ (buf : List ℕ) (size : ℕ) (sized : IsSized buf size) (shared : IsShared buf) where
  fits : u32 (2 * share buf) ≡ 2 * share buf
  fits = omega (arith, factor_le (enabled buf) (share buf) _ shared.0 shared.1, event_size-lt buf)

  present :
      (c : ℕ)
      → c < 16
      → (s : List ℕ) × (find c (made buf size).event.adc_counts ≡ some s)
        × HasSamples (header buf).channel_mask c (share buf) s
  present c h = find-channels_at 16 0 (header buf).channel_mask (share buf) 4 c buf (omega arith) h

  valid-made : valid (made buf size) ≡ ok true
  unfolding valid
  valid-made =
      check_channels-true 16 0 (made buf size)
        (λ c h on. let (s, found, p) = present c h in (s, found, p.0 on ∙ sym fits))

  readable :
      (c : ℕ)
      → c < 16
      → (s : List ℕ) × (channel_adc_counts (made buf size) c ≡ ok s)
        × (length s ≡ (if channel_has_data (made buf size) c then u32 (2 * share buf) else 0))
  readable c h =
      let (s, found, p) = present c h in
      let read = channel_adc_counts-found (made buf size) c s found in
      elim (get_bit_cases (header buf).channel_mask c) [
        | inl (off, z) ↦ (s, read, rw off (ap length (p.1 z)))
        | inr (on, z) ↦ (s, read, rw on (p.0 z ∙ sym fits))
      ]

  unreadable : (c : ℕ) → 16 ≤ c → channel_adc_counts (made buf size) c ≡ throw channel_not_in_map
  unreadable c h =
      channel_adc_counts-missing (made buf size) c
        (find-beyond 16 0 (header buf).channel_mask (share buf) 4 c buf h)

-- A fragment that was made of a buffer is valid; each of the 16 channels can be read, an enabled
-- one with as many samples as the fragment announces, any other with none; a channel beyond
-- these is refused.
pub valid-decode_digitizer :
    (buf : List ℕ) (size : ℕ) (f : DigitizerDataFragment)
    → size ≤ length buf
    → decode_digitizer buf size ≡ ok f
    → (valid f ≡ ok true)
      × ((c : ℕ)
          → c < 16
          → (s : List ℕ) × (channel_adc_counts f c ≡ ok s)
            × (length s ≡ (if channel_has_data f c then f.event.n_samples else 0)))
      × ((c : ℕ) → 16 ≤ c → channel_adc_counts f c ≡ throw channel_not_in_map)
valid-decode_digitizer buf size f h e =
    let (s, t, same) = decode_digitizer-made buf size f h e in
    subst
      (λ g.
        (valid g ≡ ok true)
        × ((c : ℕ)
            → c < 16
            → (s : List ℕ) × (channel_adc_counts g c ≡ ok s)
              × (length s ≡ (if channel_has_data g c then g.event.n_samples else 0)))
        × ((c : ℕ) → 16 ≤ c → channel_adc_counts g c ≡ throw channel_not_in_map))
      same (valid-made buf size s t, readable buf size s t, unreadable buf size s t)
