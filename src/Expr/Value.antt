-- ===== src/Expr/Value.antt =====
-- build-tools/kconfig/expr.c: `expr_calc_value` over a table whose symbols have been calculated,
-- so that `sym_calc_value` returns at once.
pub mod Constants
use mkrootfs.Base.{
  ℕ, String, ◌≡◌, ◌≢◌, refl, arith, Bool, true, false, Option, none, some, str_eq, if◌then◌else◌,
}
use mkrootfs.Tristate.{Tristate, tri_no, tri_mod, tri_yes, expr_or, expr_and, expr_not, tri_eq}
use mkrootfs.Expr.{
  Expr, e_symbol, e_not, e_and, e_or, e_equal, e_unequal, symbol_no, symbol_mod, symbol_yes,
}
use mkrootfs.Symbol.{Symbol, is_boolean, Table, const_symbol, sym_get_string_value}

-- `strcmp(str1, str2)` is zero.
abbrev pub same_text : Table → ℕ → ℕ → Bool
same_text t a b = str_eq (sym_get_string_value (t a)) (sym_get_string_value (t b))

unfoldable pub value : Table → Expr → Tristate
value t (e_symbol s) = (t s).curr.tri
value t (e_and l r) = expr_and (value t l) (value t r)
value t (e_or l r) = expr_or (value t l) (value t r)
value t (e_not e) = expr_not (value t e)
value t (e_equal a b) = if same_text t a b then tri_yes else tri_no
value t (e_unequal a b) = if same_text t a b then tri_no else tri_yes

-- `expr_calc_value`: a null expression is `yes`.
abbrev pub expr_calc_value : Table → Option Expr → Tristate
expr_calc_value t none = tri_yes
expr_calc_value t (some e) = value t e

-- What holds of every table of calculated symbols: the three constants are as initialised, a
-- boolean symbol is never `m`, and two constant symbols differ in their texts.
pub record IsSettled (t : Table) : Type 0 where
  pub no_lem : t symbol_no ≡ const_symbol tri_no
  pub mod_lem : t symbol_mod ≡ const_symbol tri_mod
  pub yes_lem : t symbol_yes ≡ const_symbol tri_yes
  pub boolean_ne : (s : ℕ) → is_boolean (t s).type ≡ true → (t s).curr.tri ≢ tri_mod
  pub const_ne :
      (a b : ℕ) → (t a).const ≡ true → (t b).const ≡ true → a ≢ b → same_text t a b ≡ false

module _ (t : Table) (settled : IsSettled t) where
  pub value_no : value t (e_symbol symbol_no) ≡ tri_no
  unfolding value
  value_no = ground (arith, settled.no_lem)

  pub value_mod : value t (e_symbol symbol_mod) ≡ tri_mod
  unfolding value
  value_mod = ground (arith, settled.mod_lem)

  pub value_yes : value t (e_symbol symbol_yes) ≡ tri_yes
  unfolding value
  value_yes = ground (arith, settled.yes_lem)
