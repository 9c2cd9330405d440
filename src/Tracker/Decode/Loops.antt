-- ===== src/Tracker/Decode/Loops.antt =====
-- The loops over the hits of a packet and over the bits that cannot be decoded end.
use faser_common.Common.{
  ℕ, zero, suc, ◌-◌, ◌/◌, ◌^◌, ◌<◌, ◌≡◌, refl, true, false, Bool-cases, inl, inr, arith,
}
use faser_common.Common.{bit_and, bit_or, ◌==◌}
use faser_common.Tracker.SctEvent.{SctEvent}
use faser_common.Tracker.Bitstream.{Bitstream, remove_bits, get_word32}
use faser_common.Tracker.Decode.{
  returns, ◌>>=◌, hit_of_chip, hit_loop, data_packet, skip_loop, has_leading_bit, is_trailer,
  is_data, next_channel,
}
use faser_common.Tracker.Decode.Progress.{
  Left, Left-le, Left-remove_bits, Left-word, has_leading_bit-nonzero,
}
use faser_common.Tracker.Decode.Packets.{
  Returns, Returns-bind, Returns-moved, Returns-weaker, IsDecoded, hit_of_chip-Returns,
}

-- What is left behind a loop, and a module's data.
abbrev pub Behind : ℕ → ℕ → Bitstream × SctEvent → Type 0
Behind k m (s, ev) = Left s m × IsDecoded k ev

Behind-less : (k m : ℕ) (r : Bitstream × SctEvent) → Behind k (m - 1) r → Behind k m r
Behind-less k m (s, ev) (left, v) = (Left-le s (m - 1) m left (omega arith), v)

module _ (fuel : ℕ) (s : Bitstream) (ev : SctEvent) (chip channel w : ℕ) where
  pub hit_loop-end :
      has_leading_bit w ≡ false → hit_loop (suc fuel) s ev chip channel w ≡ returns (s, ev)
  unfolding hit_loop
  hit_loop-end e = rw (hit_loop, e) refl

  pub hit_loop-trailer :
      has_leading_bit w ≡ true
      → is_trailer (get_word32 s) ≡ true
      → hit_loop (suc fuel) s ev chip channel w ≡ returns (s, ev)
  unfolding hit_loop
  hit_loop-trailer e e' = rw (hit_loop, e, e') refl

  pub hit_loop-hit :
      has_leading_bit w ≡ true
      → is_trailer (get_word32 s) ≡ false
      → hit_loop (suc fuel) s ev chip channel w ≡ (
          hit_of_chip ev chip channel (bit_and (get_word32 s / 2 ^ 28) 0x7) >>= λ ev'.
          hit_loop fuel
            (remove_bits s 4)
            ev'
            chip
            (next_channel ev chip channel)
            (get_word32 (remove_bits s 4)))
  unfolding hit_loop
  hit_loop-hit e e' = rw (hit_loop, e, e') refl

-- A loop that tests the word of the stream itself.
hit_loop-Returns :
    (fuel m k : ℕ) (s : Bitstream) (ev : SctEvent) (chip channel : ℕ)
    → Left s m
    → m < fuel
    → IsDecoded k ev
    → Returns (hit_loop fuel s ev chip channel (get_word32 s)) (Behind k m)
hit_loop-Returns zero m k s ev chip channel left enough v = absurd (omega arith)
hit_loop-Returns (suc fuel) m k s ev chip channel left enough v =
    elim (Bool-cases (has_leading_bit (get_word32 s))) [
      | inr e ↦
          Returns-moved _ _ (Behind k m) (hit_loop-end fuel s ev chip channel (get_word32 s) e)
            (left, v)
      | inl e ↦ elim (Bool-cases (is_trailer (get_word32 s))) [
        | inl e' ↦
            Returns-moved _ _ (Behind k m)
              (hit_loop-trailer fuel s ev chip channel (get_word32 s) e e') (left, v)
        | inr e' ↦
            let next =
              Left-word s 4 m (omega arith) (omega arith) left
                (has_leading_bit-nonzero (get_word32 s) e) in
            let rest = hit_loop-Returns fuel (m - 1) k (remove_bits s 4) in
            Returns-moved _ _ (Behind k m) (hit_loop-hit fuel s ev chip channel (get_word32 s) e e')
              (Returns-bind (hit_of_chip ev chip channel (bit_and (get_word32 s / 2 ^ 28) 0x7)) _
                (IsDecoded k) (Behind k m)
                (hit_of_chip-Returns k ev chip v channel (bit_and (get_word32 s / 2 ^ 28) 0x7))
                (λ ev' v'.
                  Returns-weaker _ (Behind k (m - 1)) (Behind k m)
                    (rest ev' chip (next_channel ev chip channel) next.1 (omega (arith, next.0)) v')
                    (λ r h. Behind-less k m r h)))
      ]
    ]

-- A first round on another word, which costs one round more.
hit_loop-first :
    (fuel m k : ℕ) (s : Bitstream) (ev : SctEvent) (chip channel w : ℕ)
    → Left s m
    → m < fuel
    → IsDecoded k ev
    → Returns (hit_loop (suc fuel) s ev chip channel w) (Behind k m)
hit_loop-first fuel m k s ev chip channel w left enough v = elim (Bool-cases (has_leading_bit w)) [
  | inr e ↦ Returns-moved _ _ (Behind k m) (hit_loop-end fuel s ev chip channel w e) (left, v)
  | inl e ↦ elim (Bool-cases (is_trailer (get_word32 s))) [
    | inl e' ↦
        Returns-moved _ _ (Behind k m) (hit_loop-trailer fuel s ev chip channel w e e') (left, v)
    | inr e' ↦ Returns-moved _ _ (Behind k m) (hit_loop-hit fuel s ev chip channel w e e') (
        Returns-bind (hit_of_chip ev chip channel (bit_and (get_word32 s / 2 ^ 28) 0x7)) _
          (IsDecoded k) (Behind k m)
          (hit_of_chip-Returns k ev chip v channel (bit_and (get_word32 s / 2 ^ 28) 0x7))
          (λ ev' v'.
            hit_loop-Returns fuel m k (remove_bits s 4) ev' chip (next_channel ev chip channel)
              (Left-remove_bits s 4 m (omega arith) (omega arith) left) enough v'))
  ]
]

pub data_packet-Returns :
    (fuel m k : ℕ) (s : Bitstream) (ev : SctEvent) (chip channel : ℕ)
    → Left s m
    → m < fuel
    → IsDecoded k ev
    → Returns (data_packet (suc fuel) s ev chip channel) (Behind k m)
unfolding data_packet
data_packet-Returns fuel m k s ev chip channel left enough v =
    elim (Bool-cases (has_leading_bit (get_word32 s))) [
      | inl e ↦
          rw (data_packet, e)
            (hit_loop-first fuel m k s ev chip channel (get_word32 s) left enough v)
      | inr e ↦
          rw (data_packet, e)
            (hit_loop-first fuel m k s ev chip (bit_or channel 0x7)
              (bit_or (get_word32 s) 0x80000000) left enough v)
    ]

skip_loop-step :
    (fuel : ℕ) (s : Bitstream)
    → is_data (get_word32 s) ≡ false
    → (get_word32 s == 0) ≡ false
    → skip_loop (suc fuel) s ≡ skip_loop fuel (remove_bits s 1)
unfolding skip_loop
skip_loop-step fuel s e e' = rw (skip_loop, e, e') refl

skip_loop-Returns :
    (fuel m : ℕ) (s : Bitstream)
    → Left s m
    → m < fuel
    → Returns (skip_loop fuel s) (λ s'. Left s' m)
unfolding skip_loop
skip_loop-Returns zero m s left enough = absurd (omega arith)
skip_loop-Returns (suc fuel) m s left enough = elim (Bool-cases (is_data (get_word32 s))) [
  | inl e ↦ rw (skip_loop, e) left
  | inr e ↦ elim (Bool-cases (get_word32 s == 0)) [
    | inl e' ↦ rw (skip_loop, e, e') left
    | inr e' ↦
        let next = Left-word s 1 m (omega arith) (omega arith) left e' in
        Returns-moved _ _ (λ s'. Left s' m) (skip_loop-step fuel s e e')
          (Returns-weaker _ (λ s'. Left s' (m - 1)) (λ s'. Left s' m)
            (skip_loop-Returns fuel (m - 1) (remove_bits s 1) next.1 (omega (arith, next.0)))
            (λ s' h. Left-le s' (m - 1) m h (omega arith)))
  ]
]

-- At a word that is no data packet and not 0, a bit is removed.
pub skip_loop-less :
    (fuel m : ℕ) (s : Bitstream)
    → Left s m
    → m < fuel
    → is_data (get_word32 s) ≡ false
    → (get_word32 s == 0) ≡ false
    → Returns (skip_loop (suc fuel) s) (λ s'. Left s' (m - 1))
skip_loop-less fuel m s left enough e e' =
    let next = Left-word s 1 m (omega arith) (omega arith) left e' in
    Returns-moved _ _ (λ s'. Left s' (m - 1)) (skip_loop-step fuel s e e')
      (skip_loop-Returns fuel (m - 1) (remove_bits s 1) next.1 (omega arith))
