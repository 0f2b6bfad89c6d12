-- ===== src/Confdata/Write.antt =====
-- build-tools/kconfig/confdata.c: the lines that `conf_write` writes for symbols, in the order of
-- the menu. The headings between them and the name of the file are left out.
use mkrootfs.Base.{
  ℕ, String, Bool, true, false, if◌then◌else◌, Option, none, some, List, [], ◌∷◌, ◌++◌,
}
use mkrootfs.Tristate.{Tristate, tri_no, tri_mod, tri_yes, tri_eq}
use mkrootfs.Symbol.{
  SymbolType, s_boolean, s_tristate, s_int, s_hex, s_string, SymbolValue, is_tristate, text_as,
}
use mkrootfs.Config.{Decls, M, ◌>>=◌, ◌>>◌, return, gets, modify}
use mkrootfs.Calc.Expression.{Calc}
use mkrootfs.Calc.Value.{set_write}
use mkrootfs.Confdata.{Line, chars}

abbrev pub value_line : Line → Line → Line
value_line name value = chars "MKR_" ++ (name ++ (chars "=" ++ (value ++ chars "\n")))

abbrev pub tristate_line : Line → Tristate → Line
tristate_line name tri_no = chars "# MKR_" ++ (name ++ chars " is not set\n")
tristate_line name tri_mod = value_line name (chars "m")
tristate_line name tri_yes = value_line name (chars "y")

-- The switch over the type. The case of a number in base 16 writes the same with its prefix and
-- without it.
abbrev pub symbol_line : SymbolType → Line → SymbolValue → Line
symbol_line s_boolean name v = tristate_line name v.tri
symbol_line s_tristate name v = tristate_line name v.tri
symbol_line s_string name v = value_line name (chars (text_as s_string v))
symbol_line s_hex name v = value_line name (chars (text_as s_hex v))
symbol_line s_int name v = value_line name (chars (text_as s_int v))
symbol_line _ name v = []

-- The name; a symbol of a menu that is not a choice has one.
abbrev pub chars_or_nil : Option String → Line
chars_or_nil none = []
chars_or_nil (some n) = chars n

abbrev pub name_of : Decls → ℕ → Line
name_of d s = chars_or_nil (d.decl_of s).name

module _ (d : Decls) where
  -- The type of a tristate symbol where `modules_sym` is n.
  abbrev pub type_under : Calc → Option ℕ → M SymbolType
  type_under calc none = return s_tristate
  type_under calc (some m) = do
    calc m
    gets (λ st. if tri_eq (st.now_of m).curr.tri tri_no then s_boolean else s_tristate)

  -- The type by which a symbol is written, given whether it is tristate.
  abbrev pub written_type : Calc → ℕ → Bool → M SymbolType
  written_type calc s false = return (d.decl_of s).type
  written_type calc s true = type_under calc d.modules_sym

  -- Given whether the flag SYMBOL_WRITE is set.
  abbrev pub write_line : Calc → ℕ → Bool → M Line
  write_line calc s false = return []
  write_line calc s true = do
    modify (set_write d s false)
    type ← written_type calc s (is_tristate (d.decl_of s).type)
    gets (λ st. symbol_line type (name_of d s) (st.now_of s).curr)

  -- Given whether the symbol is a choice.
  abbrev pub write_unless : Calc → ℕ → Bool → M Line
  write_unless calc s true = return []
  write_unless calc s false = do
    calc s
    writes ← gets (λ st. (st.now_of s).write)
    write_line calc s writes

  -- What is written for the symbol of one menu.
  unfoldable pub write_symbol : Calc → ℕ → M Line
  write_symbol calc s = write_unless calc s (d.decl_of s).choice

  unfoldable pub write_symbols : Calc → List ℕ → M Line
  write_symbols calc [] = return []
  write_symbols calc (s ∷ l) = do
    line ← write_symbol calc s
    rest ← write_symbols calc l
    return (line ++ rest)
