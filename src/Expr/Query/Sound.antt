-- ===== src/Expr/Query/Sound.antt =====
-- build-tools/kconfig/expr.c: the two queries against the value of an expression.
use mkrootfs.Base.{ℕ, ◌≡◌, ap, arith, true, false, update}
use mkrootfs.Tristate.{tri_no, tri_mod, tri_yes, expr_not}
use mkrootfs.Expr.{Expr, e_symbol, e_not, e_and, e_or, e_equal, e_unequal}
use mkrootfs.Symbol.{Symbol, Table}
use mkrootfs.Expr.Value.{value, IsSettled}
use mkrootfs.Expr.Value.Constants.{value-equal, value-unequal, compares_as_tri}
use mkrootfs.Expr.Query.{contains, depends}

-- An expression that does not contain a symbol has the same value whatever becomes of the symbol.
pub value-update_of_not-contains :
    (t : Table) (s : ℕ) (v : Symbol) (e : Expr)
    → contains e s ≡ false
    → value (update t s v) e ≡ value t e
unfolding value contains
value-update_of_not-contains t s v (e_and l r) h =
    ground (arith, value-update_of_not-contains t s v l, value-update_of_not-contains t s v r)
value-update_of_not-contains t s v (e_or l r) h =
    ground (arith, value-update_of_not-contains t s v l, value-update_of_not-contains t s v r)
value-update_of_not-contains t s v (e_not e) h =
    ap expr_not (value-update_of_not-contains t s v e h)
value-update_of_not-contains t s v _ h = ground arith

-- A dependency on a symbol is a dependency on something that the expression contains.
pub contains_of_depends : (s : ℕ) (e : Expr) → depends e s ≡ true → contains e s ≡ true
unfolding depends contains
contains_of_depends s (e_and l r) h =
    ground (arith, contains_of_depends s l, contains_of_depends s r)
contains_of_depends s _ h = ground arith

-- An expression that depends on a boolean or tristate symbol is `no` where the symbol is `no`, in
-- every settled table.
pub value-of_depends :
    (t : Table)
    → IsSettled t
    → (s : ℕ) (e : Expr) → compares_as_tri (t s).type ≡ true
    → depends e s ≡ true
    → (t s).curr.tri ≡ tri_no
    → value t e ≡ tri_no
unfolding depends value
value-of_depends t settled s (e_and l r) ty h off =
    ground (arith, value-of_depends t settled s l ty, value-of_depends t settled s r ty)
value-of_depends t settled s (e_symbol x) ty h off = ground arith
value-of_depends t settled s (e_equal a b) ty h off =
    ground (arith, value-equal t settled a tri_yes, value-equal t settled a tri_mod)
value-of_depends t settled s (e_unequal a b) ty h off =
    ground (arith, value-unequal t settled a tri_no)
value-of_depends t settled s _ ty h off = ground arith
