-- ===== src/Digitizer/Tests.antt =====
-- A recording of two channels, and one in which no channel is enabled.
use faser_common.Common.{◌++◌}
use faser_common.Stream.{codes, plain_stream}
use faser_common.Digitizer.Print
use faser_common.Digitizer.Print.Table.{table_text, print_fragment-table}
use faser_common.Common.{
  ℕ, ◌≤◌, ◌<◌, ◌≡◌, ◌↔◌, refl, List, [], ◌∷◌, length, true, ok, throw, fault, arith, if◌then◌else◌,
}
use faser_common.Common.Words.{word_bytes}
use faser_common.Common.OrderedMap.{find, insert}
use faser_common.Digitizer.Reads.{channels_at, samples_at}
use faser_common.Digitizer.{
  DigitizerDataFragment, channel_not_in_map, decode_header, decode_channels, decode_digitizer,
  valid, channel_has_data, channel_adc_counts, count_active, words_per_channel, read_channels,
}
use faser_common.Digitizer.Decode.{
  made, IsSized, IsShared, enabled, decode_digitizer-ok_iff, decode_digitizer-fault_iff,
}
use faser_common.Digitizer.Valid.{valid-decode_digitizer}

-- Channels 0 and 9, with two words each.
abbrev recording : List ℕ
recording =
    word_bytes
      (0xA0000008 ∷ 0x08000001 ∷ 0x02000007 ∷ 99 ∷ 0x20001 ∷ 0x40003 ∷ 0x60005 ∷ 0x80007 ∷ [])

abbrev silent : List ℕ
silent = word_bytes (0xA0000005 ∷ 0x08000000 ∷ 7 ∷ 99 ∷ 0x20001 ∷ [])

decoded : decode_digitizer recording 32 ≡ ok (made recording 32)
unfolding decode_digitizer decode_header decode_channels count_active words_per_channel
    read_channels channels_at insert samples_at
decoded = refl

channel_9 : channel_adc_counts (made recording 32) 9 ≡ ok (5 ∷ 6 ∷ 7 ∷ 8 ∷ [])
unfolding channel_adc_counts find channels_at samples_at decode_header count_active
channel_9 = refl

recording-IsSized : IsSized recording 32 × IsShared recording
unfolding decode_header count_active
recording-IsSized = ((omega arith, refl), (omega arith, refl))

silent-IsSized : IsSized silent 20 × (enabled silent ≡ 0)
unfolding decode_header count_active
silent-IsSized = ((omega arith, refl), refl)

decode_digitizer-ok_iff_example :
    ((f : DigitizerDataFragment) × (decode_digitizer recording 32 ≡ ok f))
    ↔ (IsSized recording 32 × IsShared recording)
decode_digitizer-ok_iff_example = decode_digitizer-ok_iff recording 32 (omega arith)

decode_digitizer-fault_iff_example :
    (decode_digitizer silent 20 ≡ fault) ↔ (IsSized silent 20 × (enabled silent ≡ 0))
decode_digitizer-fault_iff_example = decode_digitizer-fault_iff silent 20 (omega arith)

valid-decode_digitizer_example :
    (valid (made recording 32) ≡ ok true)
    × ((c : ℕ)
        → c < 16
        → (s : List ℕ) × (channel_adc_counts (made recording 32) c ≡ ok s)
          × (length s ≡ (
              if channel_has_data (made recording 32) c
              then (made recording 32).event.n_samples
              else 0)))
    × ((c : ℕ) → 16 ≤ c → channel_adc_counts (made recording 32) c ≡ throw channel_not_in_map)
valid-decode_digitizer_example =
    valid-decode_digitizer recording 32 (made recording 32) (omega arith) decoded

print_fragment-table_example :
    Print.print_fragment (plain_stream (codes "> ")) (made recording 32)
    ≡ ok (plain_stream (codes "> " ++ table_text (made recording 32)))
print_fragment-table_example =
    print_fragment-table recording 32 (made recording 32) (codes "> ") (omega arith) decoded
