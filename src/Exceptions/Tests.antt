-- ===== src/Exceptions/Tests.antt =====
-- A text of an exception.
use faser_common.Common.{◌≡◌, refl}
use faser_common.Stream.{codes, puts, number_text, padded}
use faser_common.Exceptions.{throw_at, what}

what_text :
    (what (throw_at (codes "TLBDataFragment.hpp") 92 (codes "Data not valid"))).0
    ≡ codes "Exception thrown: TLBDataFragment.hpp:92: Data not valid"
unfolding what puts number_text padded
what_text = refl
