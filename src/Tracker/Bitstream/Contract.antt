-- ===== src/Tracker/Bitstream/Contract.antt =====
-- The stream against a list of bits: its window is the next 32 of them.
use faser_common.Common.{
  ℕ, zero, suc, ◌+◌, ◌*◌, ◌/◌, ◌^◌, ◌≤◌, ◌<◌, ◌≡◌, refl, sym, ap, ◌∙◌, List, [], ◌∷◌, drop, All,
  arith,
}
use faser_common.Common.{bit_or, drop-drop}
use faser_common.Common.Words.{u32}
use faser_common.Tracker.Bitstream.{Bitstream, make_bitstream, remove_bits, get_word32}
use faser_common.Tracker.Bitstream.Shift.{
  shifted, shifted-nil, shifted-lt, shifted_split, next_bit, next_nil,
}
use faser_common.Tracker.Bitstream.Refine.{
  IsWord, all_bits, pending, Holds, Holds-moved, whole_word, fill_last, fits_of,
}
use faser_common.Tracker.Bitstream.Window.{remove_bits-shifted}

-- The word of the first 32 bits, zeros behind the last one.
abbrev pub first_word : List ℕ → ℕ
first_word bits = shifted 32 0 bits

-- What is in the register is gone after 32 bits.
forget :
    (n b b' : ℕ) (xs : List ℕ)
    → b < 2 ^ 32
    → b' < 2 ^ 32
    → u32 (b * 2 ^ n) ≡ u32 (b' * 2 ^ n)
    → shifted n b xs ≡ shifted n b' xs
unfolding shifted
forget zero b b' xs h h' e = omega arith
forget (suc n) b b' [] h h' e =
    forget n (u32 (2 * b)) (u32 (2 * b')) [] (omega arith) (omega arith)
      (next_nil n b ∙ e ∙ sym (next_nil n b'))
forget (suc n) b b' (x ∷ xs) h h' e =
    forget n (u32 (2 * b + x)) (u32 (2 * b' + x)) xs (omega arith) (omega arith)
      (omega (arith, next_bit n b x 0, next_bit n b' x 0))

module _ (xs : List ℕ) (n : ℕ) where
  shifted-first_word : shifted n (first_word xs) (drop 32 xs) ≡ first_word (drop n xs)
  shifted-first_word =
      sym (shifted_split 32 n (n + 32) 0 xs (omega arith))
      ∙ shifted_split n 32 (n + 32) 0 xs refl
      ∙ forget 32 (shifted n 0 xs) 0 (drop n xs) (shifted-lt n 0 xs (omega arith)) (omega arith)
          (omega arith)

  drop_swap : drop n (drop 32 xs) ≡ drop 32 (drop n xs)
  drop_swap =
      let e : 32 + n ≡ n + 32 = omega arith in
      drop-drop 32 n xs ∙ ap (λ (t : ℕ). drop t xs) e ∙ sym (drop-drop n 32 xs)

-- A stream at the start of some bits.
abbrev pub StandsAt : Bitstream → List ℕ → Type 0
StandsAt s bits = Holds s (first_word bits) (drop 32 bits)

pub remove_bits-StandsAt :
    (s : Bitstream) (n : ℕ) (bits : List ℕ)
    → StandsAt s bits
    → 1 ≤ n
    → n ≤ 31
    → StandsAt (remove_bits s n) (drop n bits)
remove_bits-StandsAt s n bits h one few =
    Holds-moved refl
      (ap (λ (t : ℕ). shifted n t (pending s)) h.window
        ∙ ap (shifted n (first_word bits)) h.behind
        ∙ shifted-first_word bits n)
      (ap (drop n) h.behind ∙ drop_swap bits n) (remove_bits-shifted s n h.stream one few)

pub make_bitstream-StandsAt :
    (ws : List ℕ) → All IsWord ws → StandsAt (make_bitstream ws) (all_bits ws)
unfolding make_bitstream
make_bitstream-StandsAt [] fit = record {
  window = sym (shifted-nil 32 0 (omega arith));
  behind = refl;
  stream = record { buffer_fits = omega arith; used_fits = omega arith; words_fit = tt };
}
make_bitstream-StandsAt (w ∷ []) fit =
    let word : shifted 24 0 (all_bits (w ∷ [])) ≡ w =
      whole_word 0 w [] (omega arith) fit.0 ∙ omega (arith, fit.0) in
    let all : shifted 32 0 (all_bits (w ∷ [])) ≡ u32 (w * 2 ^ 8) =
      shifted_split 24 8 32 0 (all_bits (w ∷ [])) refl
      ∙ ap (λ (t : ℕ). shifted 8 t []) word
      ∙ shifted-nil 8 w (omega (arith, fit.0)) in
    record {
      window = sym all;
      behind = refl;
      stream = record { buffer_fits = omega arith; used_fits = omega arith; words_fit = tt };
    }
make_bitstream-StandsAt (w ∷ v ∷ ws) fit =
    let word : shifted 24 0 (all_bits (w ∷ v ∷ ws)) ≡ w =
      whole_word 0 w (all_bits (v ∷ ws)) (omega arith) fit.0 ∙ omega (arith, fit.0) in
    let small : w < 2 ^ 32 = omega (arith, fit.0) in
    let all : bit_or (u32 (w * 2 ^ 8)) (v / 2 ^ 16) ≡ first_word (all_bits (w ∷ v ∷ ws)) =
      fill_last w v 8 (all_bits ws) (omega arith) small fit.1.0
      ∙ ap (λ (t : ℕ). shifted 8 t (all_bits (v ∷ ws))) (sym word)
      ∙ sym (shifted_split 24 8 32 0 (all_bits (w ∷ v ∷ ws)) refl) in
    record {
      window = all;
      behind = refl;
      stream = record {
        buffer_fits = fits_of all (shifted-lt 32 0 (all_bits (w ∷ v ∷ ws)) (omega arith));
        used_fits = omega arith;
        words_fit = fit.1;
      };
    }

-- A sequence of calls of `RemoveBits`, and the bits that it removes.
unfoldable pub removed : Bitstream → List ℕ → Bitstream
removed s [] = s
removed s (n ∷ ns) = removed (remove_bits s n) ns

abbrev pub total : List ℕ → ℕ
total [] = 0
total (n ∷ ns) = n + total ns

-- A number of bits that the loops of `RemoveBits` stand for.
abbrev pub IsCount : ℕ → Type 0
IsCount n = (1 ≤ n) × (n ≤ 31)

removed-StandsAt :
    (ns : List ℕ) (s : Bitstream) (bits : List ℕ)
    → All IsCount ns
    → StandsAt s bits
    → StandsAt (removed s ns) (drop (total ns) bits)
unfolding removed
removed-StandsAt [] s bits fit h = h
removed-StandsAt (n ∷ ns) s bits fit h =
    Holds-moved refl (ap first_word (drop-drop n (total ns) bits))
      (ap (drop 32) (drop-drop n (total ns) bits))
      (removed-StandsAt ns (remove_bits s n) (drop n bits) fit.1
        (remove_bits-StandsAt s n bits h fit.0.0 fit.0.1))

-- A stream made of words below 2^24, after any sequence of calls of `RemoveBits` with 1 to 31 bits
-- each, shows in its window the first 32 of the words' bits, 24 to a word and the highest first,
-- that are not removed, with zeros where none are left.
pub get_word32-removed :
    (ws ns : List ℕ)
    → All IsWord ws
    → All IsCount ns
    → get_word32 (removed (make_bitstream ws) ns) ≡ first_word (drop (total ns) (all_bits ws))
get_word32-removed ws ns fit counts =
    (removed-StandsAt ns (make_bitstream ws) (all_bits ws) counts
      (make_bitstream-StandsAt ws fit)).window
