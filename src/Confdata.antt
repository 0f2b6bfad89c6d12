-- ===== src/Confdata.antt =====
-- build-tools/kconfig/confdata.c: the lines of a configuration file, as `conf_read_simple` reads them
-- into the values set by the user and as `conf_write` writes them. A line is a list of characters with
-- its newline and without the final NUL.
pub mod Read
pub mod Write
pub mod RoundTrip
pub mod Written
pub mod AllNew
pub mod Checks
use Prim.Native.Char.{Char, code}
use mkrootfs.Base.{
  ℕ, zero, suc, String, Bool, true, false, ◌==◌, if◌then◌else◌, Option, none, some, List, [], ◌∷◌,
  ◌++◌,
}

abbrev pub Line : Type 0
Line = List Char

abbrev pub chars : String → Line
chars String.[] = []
chars (String.◌∷◌ c s) = c ∷ chars s

abbrev pub string : Line → String
string [] = String.[]
string (c ∷ s) = String.◌∷◌ c (string s)

-- The characters behind `p`, if the line begins with it: a comparison of as many bytes as `p` has
-- is zero. The bytes behind the end of a line match nothing.
abbrev pub strip : Line → Line → Option Line
strip [] s = some s
strip (c ∷ p) [] = none
strip (c ∷ p) (d ∷ s) = if code c == code d then strip p s else none

-- `strchr`: the characters before and behind the first of this code.
unfoldable pub cut_at : ℕ → Line → Option (Line × Line)
cut_at n [] = none
cut_at n (c ∷ s) =
    if code c == n
    then some ([], s)
    else elim (cut_at n s) [ none ↦ none | some (a, b) ↦ some (c ∷ a, b) ]

-- `if (*p2 == '\r') *p2 = 0`, at the last character.
abbrev pub drop_return : Line → Line
drop_return [] = []
drop_return (c ∷ []) = if code c == b'\r' then [] else c ∷ []
drop_return (c ∷ (e ∷ s)) = c ∷ drop_return (e ∷ s)

-- What is left of a value that was cut at the newline, or not cut.
abbrev pub before_newline : Option (Line × Line) → Line → Line
before_newline none p = p
before_newline (some (a, _)) p = drop_return a

unfoldable pub end_line : Line → Line
end_line p = before_newline (cut_at b'\n' p) p
