-- ===== src/Tracker/Decode/Progress.antt =====
-- Every bit that is removed brings the decoding nearer to its end.
use faser_common.Common.{
  ℕ, ◌+◌, ◌-◌, ◌*◌, ◌≤◌, ◌≡◌, sym, ap, ◌∙◌, List, [], ◌∷◌, length, drop, All, true, false,
  Bool-cases, inl, inr, arith,
}
use faser_common.Common.{◌==◌, ==_iff, length-drop, length-append}
use faser_common.Tracker.Bitstream.{
  Bitstream, make_bitstream, remove_bits, bits_available, get_word32,
}
use faser_common.Tracker.Bitstream.Shift.{shifted-nil, length-bits_of, bits_of}
use faser_common.Tracker.Bitstream.Refine.{IsWord, all_bits}
use faser_common.Tracker.Bitstream.Contract.{
  StandsAt, remove_bits-StandsAt, make_bitstream-StandsAt, first_word,
}
use faser_common.Tracker.Bitstream.Rank.{rank, rank-remove_bits}
use faser_common.Tracker.Decode.{has_leading_bit}

-- A stream with at most `m` left of it.
abbrev pub Left : Bitstream → ℕ → Type 0
Left s m = (bits : List ℕ) × StandsAt s bits × (length bits + rank s ≤ m)

pub Left-le : (s : Bitstream) (m m' : ℕ) → Left s m → m ≤ m' → Left s m'
Left-le s m m' (bits, h, fits) le = (bits, h, omega arith)

module _ (s : Bitstream) (n m : ℕ) (one : 1 ≤ n) (few : n ≤ 31) (left : Left s m) where
  pub Left-remove_bits : Left (remove_bits s n) m
  Left-remove_bits =
      let (bits, h, fits) = left in
      (
        drop n bits,
        remove_bits-StandsAt s n bits h one few,
        omega (arith, length-drop n bits, (rank-remove_bits s n h.stream one).0),
      )

  pub Left-available : bits_available s ≡ true → Left (remove_bits s n) (m - 1)
  Left-available some_left =
      let (bits, h, fits) = left in
      let less = (rank-remove_bits s n h.stream one).1 some_left in
      (drop n bits, remove_bits-StandsAt s n bits h one few, omega (arith, length-drop n bits))

  -- A word that is not 0 shows that there are bits.
  pub Left-word : (get_word32 s == 0) ≡ false → (1 ≤ m) × Left (remove_bits s n) (m - 1)
  Left-word other =
      let (bits, h, fits) = left in
      let some_bits : 1 ≤ length bits =
        bits_there bits (ap (λ (t : ℕ). t == 0) (sym h.window) ∙ other) in
      (
        omega arith,
        (
          drop n bits,
          remove_bits-StandsAt s n bits h one few,
          omega (arith, length-drop n bits, (rank-remove_bits s n h.stream one).0),
        ),
      )
    where
      bits_there : (bits : List ℕ) → (first_word bits == 0) ≡ false → 1 ≤ length bits
      bits_there [] e =
          let zero_word : first_word [] ≡ 0 = shifted-nil 32 0 (omega arith) in
          let hit : (first_word [] == 0) ≡ true = (==_iff (first_word []) 0).1 zero_word in
          cc (hit, e)
      bits_there (x ∷ xs) e = omega arith

pub has_leading_bit-nonzero : (w : ℕ) → has_leading_bit w ≡ true → (w == 0) ≡ false
has_leading_bit-nonzero w h = elim (Bool-cases (w == 0)) [
  | inl e ↦
      let none_set : has_leading_bit w ≡ false = ap has_leading_bit ((==_iff w 0).0 e) in
      cc (none_set, h)
  | inr e ↦ e
]

length-all_bits : (ws : List ℕ) → length (all_bits ws) ≡ 24 * length ws
length-all_bits [] = omega arith
length-all_bits (w ∷ ws) =
    omega
      (arith, length-all_bits ws, length-append (bits_of 24 w) (all_bits ws), length-bits_of 24 w)

rank-make_bitstream : (ws : List ℕ) → rank (make_bitstream ws) ≤ 25 * length ws + 32
unfolding make_bitstream
rank-make_bitstream [] = omega arith
rank-make_bitstream (w ∷ []) = omega arith
rank-make_bitstream (w ∷ v ∷ ws) = omega arith

pub Left-make_bitstream :
    (ws : List ℕ) → All IsWord ws → Left (make_bitstream ws) (49 * length ws + 32)
Left-make_bitstream ws fit = (
  all_bits ws,
  make_bitstream-StandsAt ws fit,
  omega (arith, length-all_bits ws, rank-make_bitstream ws),
)
