-- ===== src/Digitizer/Print/Tests.antt =====
-- A recording of one channel with three samples, printed.
use faser_common.Common.{◌≡◌, refl, [], ◌∷◌, ok, throw, false}
use faser_common.Common.OrderedMap.{find}
use faser_common.Stream.{codes, plain_stream, puts, number_text, padded}
use faser_common.Digitizer.{DigitizerDataFragment}
use faser_common.Digitizer.Print.{print_fragment, out_of_range}

abbrev recorded : DigitizerDataFragment
recorded = record {
  event = record {
    event_size = 0x13f;
    board_id = 6;
    board_fail_flag = 0;
    pattern_trig_options = 65280;
    channel_mask = 1;
    event_counter = 0;
    trigger_time_tag = 199277;
    n_samples = 2;
    adc_counts = (0, 8074 ∷ 7687 ∷ []) ∷ [];
  };
  m_size = 24;
  m_debug = false;
}

recorded_printed :
    print_fragment (plain_stream []) recorded
    ≡ ok (
        plain_stream (
          codes
            "Digitizer Fragment\n        event_size:                                        13f\n        board_id:                                            6\n        board_fail_flag:                                     0\n        pattern_trig_options:                            65280\n        channel_mask:                                        1\n        event_counter:                                       0\n        trigger_time_tag:                               199277\n      Time|     0[1]     1[0]     2[0]     3[0]     4[0]     5[0]     6[0]     7[0]     8[0]     9[0]    10[0]    11[0]    12[0]    13[0]    14[0]    15[0]\n         0|     8074       -        -        -        -        -        -        -        -        -        -        -        -        -        -        - \n         1|     7687       -        -        -        -        -        -        -        -        -        -        -        -        -        -        - \n"))
unfolding print_fragment puts number_text padded find
recorded_printed = refl

-- A fragment that no buffer gives.
missing_sample :
    print_fragment
      (plain_stream [])
      (record recorded { event = record (recorded.event) { n_samples = 3 } })
    ≡ throw out_of_range
unfolding print_fragment puts number_text padded find
missing_sample = refl
