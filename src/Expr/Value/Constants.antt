-- ===== src/Expr/Value/Constants.antt =====
-- Comparing a boolean or tristate symbol with one of the constants compares its value.
use mkrootfs.Base.{ℕ, ◌≡◌, refl, arith, Bool, true, ◌||◌, str_eq, if◌then◌else◌}
use mkrootfs.Tristate.{Tristate, tri_no, tri_mod, tri_yes, tri_eq, tri_text, expr_not}
use mkrootfs.Expr.{e_equal, e_unequal, symbol_no, symbol_mod, symbol_yes}
use mkrootfs.Symbol.{
  Symbol, SymbolType, Table, is_boolean, is_tristate, sym_get_string_value, const_symbol,
}
use mkrootfs.Expr.Value.{value, IsSettled}

abbrev pub compares_as_tri : SymbolType → Bool
compares_as_tri ty = is_boolean ty || is_tristate ty

-- The address of the constant symbol with a value.
abbrev pub const_of : Tristate → ℕ
const_of tri_no = symbol_no
const_of tri_mod = symbol_mod
const_of tri_yes = symbol_yes

tri_text-eq : (a b : Tristate) → str_eq (tri_text a) (tri_text b) ≡ tri_eq a b
tri_text-eq tri_no tri_no = refl
tri_text-eq tri_mod tri_mod = refl
tri_text-eq tri_yes tri_yes = refl
tri_text-eq _ _ = refl

text-tri :
    (s : Symbol) → compares_as_tri s.type ≡ true → sym_get_string_value s ≡ tri_text s.curr.tri
unfolding sym_get_string_value
text-tri s h = ground arith

text-const : (v : Tristate) → sym_get_string_value (const_symbol v) ≡ tri_text v
unfolding sym_get_string_value
text-const v = refl

module _ (t : Table) (settled : IsSettled t) where
  pub const_of_lem : (v : Tristate) → t (const_of v) ≡ const_symbol v
  const_of_lem tri_no = settled.no_lem
  const_of_lem tri_mod = settled.mod_lem
  const_of_lem tri_yes = settled.yes_lem

  pub value-equal :
      (a : ℕ) (v : Tristate)
      → compares_as_tri (t a).type ≡ true
      → value t (e_equal a (const_of v)) ≡ (if tri_eq (t a).curr.tri v then tri_yes else tri_no)
  unfolding value
  value-equal a v h =
      rw (const_of_lem v, text-const v, text-tri (t a) h, tri_text-eq (t a).curr.tri v)

  pub value-unequal :
      (a : ℕ) (v : Tristate)
      → compares_as_tri (t a).type ≡ true
      → value t (e_unequal a (const_of v)) ≡ (if tri_eq (t a).curr.tri v then tri_no else tri_yes)
  unfolding value
  value-unequal a v h =
      rw (const_of_lem v, text-const v, text-tri (t a) h, tri_text-eq (t a).curr.tri v)

pub not-unequal : (t : Table) (a b : ℕ) → expr_not (value t (e_equal a b)) ≡ value t (e_unequal a b)
unfolding value
not-unequal t a b = ground arith

pub not-equal : (t : Table) (a b : ℕ) → expr_not (value t (e_unequal a b)) ≡ value t (e_equal a b)
unfolding value
not-equal t a b = ground arith
