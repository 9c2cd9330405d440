-- ===== src/Digitizer/Reads.antt =====
-- The loops that read the samples, described by what the buffer holds.
use faser_common.Common.{
  ℕ, zero, suc, ◌+◌, ◌*◌, ◌/◌, ◌≤◌, ◌≡◌, ap, ◌∙◌, List, [], ◌∷◌, ◌++◌, append_assoc, append-nil,
  refl, ◌^◌, ◌<◌, ◌⊎◌,
}
use faser_common.Common.{length, All-append, true, false, ◌==◌, bit_and, ok, arith, inl, inr}
use faser_common.Common.Bits.{bit_and_mask}
use faser_common.Common.Bytes.{field, load-in_range}
use faser_common.Common.OrderedMap.{Below, Below-mono, insert-Below}
use faser_common.Digitizer.{get_bit, count_active, read_samples, read_channels}

-- The samples in `n` words from word `i_dat` on.
unfoldable pub samples_at : ℕ → ℕ → List ℕ → List ℕ
samples_at zero i_dat buf = []
samples_at (suc n) i_dat buf =
    bit_and (field (4 * i_dat) 4 buf) 0x0000FFFF
    ∷ (bit_and (field (4 * i_dat) 4 buf) 0xFFFF0000 / 2 ^ 16)
    ∷ samples_at n (i_dat + 1) buf

pub read_samples-in_range :
    (n i_dat : ℕ) (buf counts : List ℕ)
    → 4 * (i_dat + n) ≤ length buf
    → read_samples n i_dat buf counts ≡ ok (counts ++ samples_at n i_dat buf)
unfolding read_samples samples_at
read_samples-in_range zero i_dat buf counts h = rw (append-nil counts) refl
read_samples-in_range (suc n) i_dat buf counts h =
    rw (load-in_range buf (4 * i_dat) 4 (omega arith)) (
      read_samples-in_range n (i_dat + 1) buf _ (omega arith)
      ∙ ap ok (append_assoc counts _ (samples_at n (i_dat + 1) buf)))

pub length-samples_at : (n i_dat : ℕ) (buf : List ℕ) → length (samples_at n i_dat buf) ≡ 2 * n
unfolding samples_at
length-samples_at zero i_dat buf = refl
length-samples_at (suc n) i_dat buf = omega (arith, length-samples_at n (i_dat + 1) buf)

-- The map of the samples of `left` channels from `i_chan` on.
unfoldable pub channels_at : ℕ → ℕ → ℕ → ℕ → ℕ → List ℕ → List (ℕ × List ℕ)
channels_at zero i_chan mask n_words start buf = []
channels_at (suc left) i_chan mask n_words start buf = elim (get_bit mask i_chan == 0) [
  | true ↦ (i_chan, []) ∷ channels_at left (i_chan + 1) mask n_words start buf
  | false ↦
      (i_chan, samples_at n_words start buf)
      ∷ channels_at left (i_chan + 1) mask n_words (start + n_words) buf
]

-- A bit is 0 or 1.
pub get_bit_cases :
    (mask i : ℕ)
    → ((get_bit mask i == 0) ≡ true × get_bit mask i ≡ 0)
      ⊎ ((get_bit mask i == 0) ≡ false × get_bit mask i ≡ 1)
get_bit_cases mask i = ground (arith, bit_and_mask 1 (mask / 2 ^ i))

pub count_active-off :
    (left i mask : ℕ)
    → get_bit mask i ≡ 0
    → count_active (suc left) i mask ≡ count_active left (i + 1) mask
unfolding count_active
count_active-off left i mask h = ground arith

pub count_active-on :
    (left i mask : ℕ)
    → get_bit mask i ≡ 1
    → count_active (suc left) i mask ≡ suc (count_active left (i + 1) mask)
unfolding count_active
count_active-on left i mask h = ground arith

-- The words that the enabled channels take, one channel at a time.
room_off :
    (left i mask n_words : ℕ)
    → get_bit mask i ≡ 0
    → count_active (suc left) i mask * n_words ≡ count_active left (i + 1) mask * n_words
room_off left i mask n_words e = ap (λ (t : ℕ). t * n_words) (count_active-off left i mask e)

room_on :
    (left i mask n_words : ℕ)
    → get_bit mask i ≡ 1
    → count_active (suc left) i mask * n_words ≡ n_words + count_active left (i + 1) mask * n_words
room_on left i mask n_words e =
    let grown : suc (count_active left (i + 1) mask) * n_words
        ≡ n_words + count_active left (i + 1) mask * n_words =
      grind arith in
    ap (λ (t : ℕ). t * n_words) (count_active-on left i mask e) ∙ grown

next-Below :
    (i : ℕ) (s : List ℕ) (counts : List (ℕ × List ℕ))
    → Below i counts
    → Below (i + 1) (counts ++ ((i, s) ∷ []))
next-Below i s counts h =
    All-append (λ e. e.0 < i + 1) counts ((i, s) ∷ []) (Below-mono i (i + 1) counts (omega arith) h)
      (omega arith, tt)

-- If the enabled channels fit into the buffer, all of them are read.
pub read_channels-in_range :
    (left i mask n_words start : ℕ) (buf : List ℕ) (counts : List (ℕ × List ℕ))
    → Below i counts
    → 4 * (start + count_active left i mask * n_words) ≤ length buf
    → read_channels left i mask n_words start buf counts
      ≡ ok (counts ++ channels_at left i mask n_words start buf)
unfolding read_channels channels_at
read_channels-in_range zero i mask n_words start buf counts b h = rw (append-nil counts) refl
read_channels-in_range (suc left) i mask n_words start buf counts b h =
    elim (get_bit_cases mask i) [
      | inl (off, e) ↦
          rw (off, read_channels, channels_at, insert-Below i [] counts b)
            (read_channels-in_range left (i + 1) mask n_words start buf _ (next-Below i [] counts b)
                (omega (arith, room_off left i mask n_words e))
              ∙ ap ok (append_assoc counts ((i, []) ∷ []) _))
      | inr (on, e) ↦
          let s = samples_at n_words start buf in
          rw
            (
              on,
              read_channels,
              channels_at,
              read_samples-in_range n_words start buf []
                  (omega (arith, room_on left i mask n_words e)),
              insert-Below i s counts b,
            )
            (read_channels-in_range left (i + 1) mask n_words (start + n_words) buf _
                (next-Below i s counts b) (omega (arith, room_on left i mask n_words e))
              ∙ ap ok (append_assoc counts ((i, s) ∷ []) _))
    ]
