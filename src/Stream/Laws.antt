-- ===== src/Stream/Laws.antt =====
-- What a statement writes, and the format that it leaves.
use faser_common.Common.{◌≡◌, refl, sym, ap, ◌∙◌, List, [], ◌∷◌, ◌++◌, append_assoc, append-nil, ℕ}
use faser_common.Stream.{Ostream, Format, Item, output, format_after, put, puts}

unfoldable pub outputs : Format → List Item → List ℕ
unfolding output format_after
outputs fm [] = []
outputs fm (i ∷ is) = output fm i ++ outputs (format_after fm i) is

unfoldable pub format_behind : Format → List Item → Format
unfolding format_after
format_behind fm [] = fm
format_behind fm (i ∷ is) = format_behind (format_after fm i) is

pub puts-outputs :
    (is : List Item) (s : Ostream)
    → puts s is
      ≡ record { text = s.text ++ outputs s.format is; format = format_behind s.format is }
unfolding puts outputs format_behind
puts-outputs [] s = ap (λ t. record s { text = t }) (sym (append-nil s.text))
puts-outputs (i ∷ is) s =
    puts-outputs is (put s i)
    ∙ ap (λ t. record { text = t; format = format_behind (format_after s.format i) is })
        (append_assoc s.text (output s.format i) (outputs (format_after s.format i) is))

pub puts-append : (is js : List Item) (s : Ostream) → puts s (is ++ js) ≡ puts (puts s is) js
unfolding puts
puts-append [] js s = refl
puts-append (i ∷ is) js s = puts-append is js (put s i)
