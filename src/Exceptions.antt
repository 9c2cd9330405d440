-- ===== src/Exceptions.antt =====
-- Exceptions/Exceptions/Exceptions.hpp, as it is compiled without ERS.
mod Tests
use faser_common.Common.{ℕ, List, [], ◌∷◌}
use faser_common.Stream.{Ostream, number, chars, str, plain_stream, puts}

-- The members that the constructor sets; `_msg` is where `what` keeps its text.
pub record BaseException : Type 0 where
  pub arg : List ℕ
  pub file : List ℕ
  pub line : ℕ
  pub msg : List ℕ

-- `THROW(exception, arg)`, with what `__FILE__` and `__LINE__` stand for.
abbrev pub throw_at : List ℕ → ℕ → List ℕ → BaseException
throw_at file line arg = record { arg = arg; file = file; line = line; msg = [] }

-- `what()`: the text, and the object that keeps it.
unfoldable pub what : BaseException → List ℕ × BaseException
unfolding puts
what e =
    let o = puts (plain_stream []) (
      str "Exception thrown: "
      ∷ chars e.file
      ∷ str ":"
      ∷ number e.line
      ∷ str ": "
      ∷ chars e.arg
      ∷ []) in
    (o.text, record e { msg = o.text })
