-- ===== src/Checksum/Sums.antt =====
-- The two sums of the checksum loop against their description without wrap-around.
use faser_common.Common.{ℕ, ◌+◌, ◌%◌, ◌^◌, ◌≡◌, refl, arith, List, [], ◌∷◌, ◌++◌, length}
use faser_common.Checksum.{FletcherChecksum, checksum_loop, add_data}

-- The words added up.
abbrev pub total : List ℕ → ℕ
total [] = 0
total (w ∷ ws) = w + total ws

-- The partial sums `s + w₁`, `s + w₁ + w₂`, … added up.
abbrev pub partial_sums : ℕ → List ℕ → ℕ
partial_sums s [] = 0
partial_sums s (w ∷ ws) = (s + w) + partial_sums (s + w) ws

-- The running object after a list of words.
abbrev pub add_all : FletcherChecksum → List ℕ → FletcherChecksum
add_all c [] = c
add_all c (w ∷ ws) = add_all (add_data c w) ws

-- The loop stops before the words that lie beyond its rounds.
pub checksum_loop-add_all :
    (ws more : List ℕ) (c : FletcherChecksum)
    → checksum_loop (length ws) (ws ++ more) c ≡ add_all c ws
unfolding checksum_loop add_data
checksum_loop-add_all [] more c = refl
checksum_loop-add_all (w ∷ ws) more c = checksum_loop-add_all ws more (add_data c w)

pub add_all-low :
    (ws : List ℕ) (c : FletcherChecksum) (s : ℕ)
    → c.m_checksum_l ≡ s % 2 ^ 32
    → (add_all c ws).m_checksum_l ≡ (s + total ws) % 2 ^ 32
unfolding add_data
add_all-low [] c s e = omega arith
add_all-low (w ∷ ws) c s e = omega (arith, add_all-low ws (add_data c w) (s + w) (omega arith))

pub add_all-high :
    (ws : List ℕ) (c : FletcherChecksum) (s t : ℕ)
    → c.m_checksum_l ≡ s % 2 ^ 32
    → c.m_checksum_h ≡ t % 2 ^ 32
    → (add_all c ws).m_checksum_h ≡ (t + partial_sums s ws) % 2 ^ 32
unfolding add_data
add_all-high [] c s t e f = omega arith
add_all-high (w ∷ ws) c s t e f =
    omega (arith, add_all-high ws (add_data c w) (s + w) (t + (s + w)) (omega arith) (omega arith))
