-- ===== src/Stream.antt =====
-- What the `operator<<` functions use of the standard library's output streams. A stream is what was
-- written, the base of its numbers, the character that fills a field, and the width that the next
-- item is given; the items of a statement are written from the left to the right.
pub mod Numbers
pub mod Laws
pub mod Runs
use Prim.Native.Char.{code}
use Prim.Native.String.{String}
use faser_common.Common.{
  ℕ, zero, suc, ◌+◌, ◌-◌, ◌/◌, ◌%◌, ◌^◌, List, [], ◌∷◌, ◌++◌, Bool, true, false, ltb,
}
use faser_common.Common.{if◌then◌else◌, length, Result, ok, throw, fault}

-- The characters of a string literal.
abbrev pub codes : String → List ℕ
codes String.[] = []
codes (String.◌∷◌ c s) = code c ∷ codes s

pub data Base : Type 0 where
  decimal hexadecimal : Base

-- How the next item is written.
pub record Format : Type 0 where
  pub base : Base
  pub fill : ℕ
  pub width : ℕ

pub record Ostream : Type 0 where
  pub text : List ℕ
  pub format : Format

-- A digit, with lower-case letters from 10 on.
abbrev pub digit : ℕ → ℕ
digit d = if ltb d 10 then b'0' + d else b'a' + (d - 10)

-- The digits of a number before others; a round for each unit of the number and one more is enough.
unfoldable pub decimal_digits : ℕ → ℕ → List ℕ → List ℕ
decimal_digits zero n rest = rest
decimal_digits (suc fuel) n rest = elim (ltb n 10) [
  | true ↦ digit n ∷ rest
  | false ↦ decimal_digits fuel (n / 10) (digit (n % 10) ∷ rest)
]

unfoldable pub hex_digits : ℕ → ℕ → List ℕ → List ℕ
hex_digits zero n rest = rest
hex_digits (suc fuel) n rest = elim (ltb n 16) [
  | true ↦ digit n ∷ rest
  | false ↦ hex_digits fuel (n / 16) (digit (n % 16) ∷ rest)
]

unfoldable pub number_text : Base → ℕ → List ℕ
unfolding decimal_digits hex_digits
number_text decimal n = decimal_digits (suc n) n []
number_text hexadecimal n = hex_digits (suc n) n []

-- `std::bitset<n>`, the highest bit first.
unfoldable pub bitset_text : ℕ → ℕ → List ℕ
bitset_text zero x = []
bitset_text (suc n) x = (b'0' + x / 2 ^ n % 2) ∷ bitset_text n x

-- `n` times a character.
unfoldable pub replicate : ℕ → ℕ → List ℕ
replicate zero c = []
replicate (suc n) c = c ∷ replicate n c

-- A text at the right of a field, which is as wide as the text at least.
unfoldable pub padded : ℕ → ℕ → List ℕ → List ℕ
unfolding replicate
padded zero fill t = t
padded (suc n) fill t = replicate (suc n - length t) fill ++ t

-- What `<<` is given: characters, a number, a manipulator.
pub data Item : Type 0 where
  chars : List ℕ → Item
  number setw setfill : ℕ → Item
  hex dec endl : Item

abbrev pub str : String → Item
str s = chars (codes s)

-- What an item writes.
unfoldable pub output : Format → Item → List ℕ
output fm (chars t) = padded fm.width fm.fill t
output fm (number n) = padded fm.width fm.fill (number_text fm.base n)
output fm (setw n) = []
output fm (setfill c) = []
output fm hex = []
output fm dec = []
output fm endl = 10 ∷ []

-- What it leaves for the next: a text takes up the width, a manipulator and the end of a line do not.
unfoldable pub format_after : Format → Item → Format
format_after fm (chars t) = record fm { width = 0 }
format_after fm (number n) = record fm { width = 0 }
format_after fm (setw n) = record fm { width = n }
format_after fm (setfill c) = record fm { fill = c }
format_after fm hex = record fm { base = hexadecimal }
format_after fm dec = record fm { base = decimal }
format_after fm endl = fm

unfoldable pub put : Ostream → Item → Ostream
unfolding output format_after
put s i = record { text = s.text ++ output s.format i; format = format_after s.format i }

unfoldable pub puts : Ostream → List Item → Ostream
unfolding put
puts s [] = s
puts s (i ∷ is) = puts (put s i) is

-- A stream with its format as at the start of a program.
abbrev pub plain : Format
plain = record { base = decimal; fill = b' '; width = 0 }

abbrev pub plain_stream : List ℕ → Ostream
plain_stream t = record { text = t; format = plain }

-- A part of a statement: an item, or what a call that may throw answers, with the line at which it
-- throws.
pub data Step (F E : Type 0) : Type 0 where
  item : Item → Step F E
  call : ℕ → (F → Result E ℕ × F) → (ℕ → Item) → Step F E

-- An exception leaves what is written, and the stream as it is; the object may change under a call.
module _ {F E : Type 0} where
  unfoldable pub run : List (Step F E) → Ostream → F → Result (E × ℕ) (Unit {0}) × Ostream × F
  run [] s f = (ok tt, s, f)
  run (item i ∷ steps) s f = run steps (put s i) f
  run (call line get show ∷ steps) s f = elim (get f).0 [
    | ok n ↦ run steps (put s (show n)) (get f).1
    | throw e ↦ (throw (e, line), s, (get f).1)
    | fault ↦ (fault, s, (get f).1)
  ]
