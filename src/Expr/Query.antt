-- ===== src/Expr/Query.antt =====
-- build-tools/kconfig/expr.c: `expr_contains_symbol` and `expr_depends_symbol`.
pub mod Sound
use mkrootfs.Base.{ℕ, Bool, true, false, ◌&&◌, ◌||◌, ◌==◌, Option, none, some}
use mkrootfs.Expr.{
  Expr, e_symbol, e_not, e_and, e_or, e_equal, e_unequal, symbol_no, symbol_mod, symbol_yes,
}

unfoldable pub contains : Expr → ℕ → Bool
contains (e_and l r) s = contains l s || contains r s
contains (e_or l r) s = contains l s || contains r s
contains (e_symbol x) s = x == s
contains (e_equal a b) s = (a == s) || (b == s)
contains (e_unequal a b) s = (a == s) || (b == s)
contains (e_not e) s = contains e s

abbrev pub expr_contains_symbol : Option Expr → ℕ → Bool
expr_contains_symbol none s = false
expr_contains_symbol (some e) s = contains e s

unfoldable pub depends : Expr → ℕ → Bool
depends (e_and l r) s = depends l s || depends r s
depends (e_symbol x) s = x == s
depends (e_equal a b) s = (a == s) && ((b == symbol_yes) || (b == symbol_mod))
depends (e_unequal a b) s = (a == s) && (b == symbol_no)
depends (e_or l r) s = false
depends (e_not e) s = false

abbrev pub expr_depends_symbol : Option Expr → ℕ → Bool
expr_depends_symbol none s = false
expr_depends_symbol (some e) s = depends e s
