-- ===== src/Confdata/RoundTrip/File.antt =====
-- build-tools/kconfig/confdata.c: a file of written lines is read back.
use mathlib.Core.List.{append_assoc}
use mkrootfs.Base.{
  ℕ, zero, suc, ◌≡◌, ◌≤◌, refl, sym, ap, ◌∙◌, subst, arith, ◌<◌, List, [], ◌∷◌, ◌++◌, length,
  length-append,
}
use mkrootfs.Symbol.{SymbolValue}
use mkrootfs.Config.{Decls, State}
use mkrootfs.Symtab.{Symtab}
use mkrootfs.Confdata.{Line, chars}
use mkrootfs.Confdata.Read.{read_lines, next_line, file_lines, load, reset_all}
use mkrootfs.Confdata.RoundTrip.{Without}
use mkrootfs.Confdata.RoundTrip.Effect.{symbol_lines, AreSaved, AreRestored, read_lines-AreRestored}

-- One newline, at the end, and no more characters than fit the buffer of `conf_read_simple`.
pub record IsLine (line : Line) : Type 0 where
  pub body : Line
  pub ends : line ≡ body ++ chars "\n"
  pub inside : Without b'\n' body
  pub fits : length body < 1023

abbrev pub AreLines : List Line → Type 0
AreLines [] = Unit
AreLines (l ∷ ls) = IsLine l × AreLines ls

abbrev pub concat : List Line → Line
concat [] = []
concat (l ∷ ls) = l ++ concat ls

next_line-line :
    (room : ℕ) (body rest : Line)
    → Without b'\n' body
    → length body < room
    → next_line room (body ++ (chars "\n" ++ rest)) ≡ (body ++ chars "\n", rest)
next_line-line (suc room) [] rest h lt = refl
next_line-line (suc room) (c ∷ body) rest h lt =
    rw (h.0, next_line-line room body rest h.1 (omega (arith, lt))) refl
next_line-line zero _ rest h lt = absurd (omega (arith, lt))

file_lines-step :
    (f : ℕ) (body rest : Line)
    → file_lines (suc f) (body ++ (chars "\n" ++ rest))
      ≡ (let cut = next_line 1023 (body ++ (chars "\n" ++ rest)) in cut.0 ∷ file_lines f cut.1)
unfolding file_lines
file_lines-step f [] rest = refl
file_lines-step f (c ∷ body) rest = refl

file_lines-line :
    (f : ℕ) (line rest : Line)
    → IsLine line
    → file_lines (suc f) (line ++ rest) ≡ line ∷ file_lines f rest
file_lines-line f line rest h =
    ap (file_lines (suc f)) (ap (λ l. l ++ rest) h.ends ∙ append_assoc h.body (chars "\n") rest)
    ∙ file_lines-step f h.body rest
    ∙ ap (λ cut. cut.0 ∷ file_lines f cut.1) (next_line-line 1023 h.body rest h.inside h.fits)
    ∙ ap (λ l. l ∷ file_lines f rest) (sym h.ends)

file_lines-concat :
    (ls : List Line) (f : ℕ) → AreLines ls → length ls < f → file_lines f (concat ls) ≡ ls
unfolding file_lines
file_lines-concat [] (suc f) h lt = refl
file_lines-concat (l ∷ ls) (suc f) h lt =
    file_lines-line f l (concat ls) h.0
    ∙ ap (λ r. l ∷ r) (file_lines-concat ls f h.1 (omega (arith, lt)))
file_lines-concat _ zero h lt = absurd (omega (arith, lt))

length-concat : (ls : List Line) → AreLines ls → length ls ≤ length (concat ls)
length-concat [] h = omega arith
length-concat (l ∷ ls) h = omega (
  arith,
  length-append l (concat ls),
  length-concat ls h.1,
  ap length h.0.ends,
  length-append h.0.body (chars "\n"),
)

-- For declarations in which the choice of each value of a choice is a choice, and distinct symbols of a
-- type that a file can hold, none a choice, each found by its name, which has no space and no equals sign, whose values are not m for a boolean symbol and else texts that are valid
-- for the type, hold no newline and do not end in a carriage return: reading the file of the lines that
-- are written for these values, each with one newline and short enough for the buffer, from any state,
-- sets each symbol to its value as one that the user has set.
pub load-AreRestored :
    (tab : Symtab) (values : ℕ → SymbolValue) (d : Decls) (l : List ℕ) (st : State)
    → AreSaved tab values d l
    → AreLines (symbol_lines values d l)
    → AreRestored values d (load tab (concat (symbol_lines values d l)) d st).state l
unfolding load
load-AreRestored tab values d l st h k =
    subst
      (λ ls.
        AreRestored values d
          (read_lines tab ls
            (record { decls = d; state = reset_all d d.symbols st; warnings = 0 })).state
          l)
      (sym (
        file_lines-concat (symbol_lines values d l) _ k
          (omega (arith, length-concat (symbol_lines values d l) k))))
      (read_lines-AreRestored tab values d l _ refl h)
