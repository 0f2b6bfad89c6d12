-- ===== src/Calc/Expression.antt =====
-- build-tools/kconfig/expr.c and symbol.c: `expr_calc_value` with its calls of `sym_calc_value`, and
-- the search for a visible property.
use mkrootfs.Base.{
  ℕ, suc, String, Bool, true, false, ℤ, if◌then◌else◌, Option, none, some, List, [], ◌∷◌, str_eq,
}
use mkrootfs.Tristate.{Tristate, tri_no, tri_yes, tri_eq, expr_or, expr_and, expr_not}
use mkrootfs.Expr.{Expr, e_symbol, e_not, e_and, e_or, e_equal, e_unequal}
use mkrootfs.Symbol.{SymbolValue, PropType, Property, sym_get_string_value}
use mkrootfs.Config.{Decls, table, M, ◌>>=◌, ◌>>◌, return, gets, modify, with_prop_tri, change}

-- What the calculation takes from the C library: `memcmp(&oldval, &sym->curr, sizeof(oldval))`,
-- which depends on the addresses of texts, `strtol` with a base, cut to an `int`, and `sprintf`
-- with "%d" and "0x%x".
pub record Libc : Type 0 where
  pub same_bytes : SymbolValue → SymbolValue → Bool
  pub strtol : String → ℕ → ℤ
  pub print_int : ℤ → String
  pub print_hex : ℤ → String

abbrev pub Calc : Type 0
Calc = ℕ → M (Unit {0})

module _ (d : Decls) where
  -- `expr_calc_value`, on an expression that is not null.
  unfoldable pub calc_expr : Calc → Expr → M Tristate
  calc_expr calc (e_symbol s) = do calc s; gets (λ st. (st.now_of s).curr.tri)
  calc_expr calc (e_and l r) = do
    val1 ← calc_expr calc l
    val2 ← calc_expr calc r
    return (expr_and val1 val2)
  calc_expr calc (e_or l r) = do
    val1 ← calc_expr calc l
    val2 ← calc_expr calc r
    return (expr_or val1 val2)
  calc_expr calc (e_not e) = do val1 ← calc_expr calc e; return (expr_not val1)
  calc_expr calc (e_equal a b) = do
    calc a
    calc b
    gets λ st.
        if str_eq (sym_get_string_value (table d st a)) (sym_get_string_value (table d st b))
        then tri_yes
        else tri_no
  calc_expr calc (e_unequal a b) = do
    calc a
    calc b
    gets λ st.
        if str_eq (sym_get_string_value (table d st a)) (sym_get_string_value (table d st b))
        then tri_no
        else tri_yes

  abbrev pub calc_optional : Calc → Option Expr → M Tristate
  calc_optional calc none = return tri_yes
  calc_optional calc (some e) = calc_expr calc e

  -- `prop->visible.tri = expr_calc_value(prop->visible.expr)` for the property at place `i`.
  abbrev pub calc_prop : Calc → ℕ → ℕ → Property → M Tristate
  calc_prop calc s i p = do
    tri ← calc_optional calc p.visible_expr
    modify (change s (with_prop_tri i tri))
    return tri

  -- The first property of a kind that is visible, with its visibility: `sym_get_default_prop` and
  -- `sym_get_range_prop`.
  unfoldable pub first_visible :
      (PropType → Bool) → Calc → ℕ → ℕ → List Property → M (Option (Property × Tristate))
  first_visible wanted calc s i [] = return none
  first_visible wanted calc s i (p ∷ ps) = elim (wanted p.type) [
    | true ↦ calc_prop calc s i p >>= λ tri. elim (tri_eq tri tri_no) [
      | true ↦ first_visible wanted calc s (suc i) ps
      | false ↦ return (some (p, tri))
    ]
    | false ↦ first_visible wanted calc s (suc i) ps
  ]
