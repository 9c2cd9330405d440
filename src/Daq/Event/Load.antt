-- ===== src/Daq/Event/Load.antt =====
-- The loop that decodes the fragments, on the bytes of well-formed fragments.
use faser_common.Common.{ℕ, suc, ◌-◌, ◌≤◌, ◌≡◌, refl, sym, ap, ◌∙◌, subst, inr, List, [], ◌∷◌, ◌++◌}
use faser_common.Common.{
  append_assoc, append-nil, length, length-append, drop-append_length, All, true, ok, arith,
}
use faser_common.Common.OrderedMap.{insert, insert-last, IsSorted, sum_values}
use faser_common.Daq.Fragment
use faser_common.Daq.Fragment.{EventFragment, IsFragment, decode_fragment}
use faser_common.Daq.Fragment.RoundTrip.{decode_fragment-raw, size_of-raw}
use faser_common.Daq.Event.Defs.{FragmentMap, IsEntry, bytes_of, append_fragments, load_fragments}

-- The bytes of the fragments, in the order of the map.
unfoldable pub fragment_bytes : FragmentMap → List ℕ
fragment_bytes [] = []
fragment_bytes ((id, f) ∷ m) = Fragment.raw f ++ fragment_bytes m

pub append_fragments-eq :
    (m : FragmentMap) (full : List ℕ) → append_fragments m full ≡ full ++ fragment_bytes m
unfolding append_fragments fragment_bytes Fragment.raw_append Fragment.raw
append_fragments-eq [] full = sym (append-nil full)
append_fragments-eq ((id, f) ∷ m) full =
    append_fragments-eq m (Fragment.raw_append f full) ∙ simp append_assoc

pub length-fragment_bytes : (m : FragmentMap) → length (fragment_bytes m) ≡ sum_values bytes_of m
unfolding fragment_bytes
length-fragment_bytes [] = refl
length-fragment_bytes ((id, f) ∷ m) =
    omega (arith, length-append (Fragment.raw f) (fragment_bytes m), length-fragment_bytes m)

-- One round of the loop on the bytes of a fragment.
load_fragments-step :
    (rounds : ℕ) (f : EventFragment) (rest : List ℕ) (left : ℕ) (acc : FragmentMap)
    → IsFragment f
    → length (Fragment.raw f) ≤ left
    → load_fragments (suc rounds) (Fragment.raw f ++ rest) left acc
      ≡ load_fragments rounds rest
          (left - length (Fragment.raw f))
          (insert f.header.source_id f acc)
unfolding load_fragments
load_fragments-step rounds f rest left acc v h =
    rw
      (
        decode_fragment-raw f rest v left true h (inr refl),
        size_of-raw f v,
        drop-append_length (Fragment.raw f) rest,
      )
      refl

fragment_bytes-cons :
    (id : ℕ) (f : EventFragment) (m : FragmentMap) (rest : List ℕ)
    → fragment_bytes ((id, f) ∷ m) ++ rest ≡ Fragment.raw f ++ (fragment_bytes m ++ rest)
unfolding fragment_bytes
fragment_bytes-cons id f m rest = append_assoc (Fragment.raw f) (fragment_bytes m) rest

-- The loop adds the fragments of a sorted map to those that stand before them.
pub load_fragments-bytes :
    (m acc : FragmentMap) (rest : List ℕ) (left : ℕ)
    → All IsEntry m
    → IsSorted (acc ++ m)
    → sum_values bytes_of m ≤ left
    → load_fragments (length m) (fragment_bytes m ++ rest) left acc ≡ ok (acc ++ m)
load_fragments-bytes [] acc rest left v s h = unfold load_fragments in ap ok (sym (append-nil acc))
load_fragments-bytes ((id, f) ∷ m) acc rest left v s h =
    let placed : insert f.header.source_id f acc ≡ acc ++ ((id, f) ∷ []) =
      ap (λ k. insert k f acc) (sym v.0.0) ∙ insert-last id f acc m s in
    let regroup : (acc ++ ((id, f) ∷ [])) ++ m ≡ acc ++ ((id, f) ∷ m) =
      append_assoc acc ((id, f) ∷ []) m in
    ap (λ t. load_fragments (suc (length m)) t left acc) (fragment_bytes-cons id f m rest)
    ∙ load_fragments-step (length m) f (fragment_bytes m ++ rest) left acc v.0.1 (omega arith)
    ∙ ap (load_fragments (length m) (fragment_bytes m ++ rest) (left - bytes_of f)) placed
    ∙ load_fragments-bytes m (acc ++ ((id, f) ∷ [])) rest (left - bytes_of f) v.1
        (subst IsSorted (sym regroup) s) (omega arith)
    ∙ ap ok regroup
