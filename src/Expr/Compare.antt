-- ===== src/Expr/Compare.antt =====
-- build-tools/kconfig/expr.c: `expr_trans_bool` and `expr_trans_compare`.
pub mod Sound
use mkrootfs.Base.{ℕ, Bool, true, false, ◌==◌, ◌&&◌, if◌then◌else◌, Option, none, some, ◌>>=◌}
use mkrootfs.Expr.{
  Expr, e_symbol, e_not, e_and, e_or, e_equal, e_unequal, symbol_no, symbol_mod, symbol_yes,
  expr_copy,
}
use mkrootfs.Symbol.{Table, is_tristate}

unfoldable pub trans_bool : Table → Expr → Expr
trans_bool t (e_and l r) = e_and (trans_bool t l) (trans_bool t r)
trans_bool t (e_or l r) = e_or (trans_bool t l) (trans_bool t r)
trans_bool t (e_not e) = e_not (trans_bool t e)
trans_bool t (e_unequal a b) =
    if is_tristate (t a).type && b == symbol_no then e_symbol a else e_unequal a b
trans_bool t (e_symbol s) = e_symbol s
trans_bool t (e_equal a b) = e_equal a b

abbrev pub expr_trans_bool : Table → Option Expr → Option Expr
expr_trans_bool t none = none
expr_trans_bool t (some e) = some (trans_bool t e)

-- The parameter `type`, which is E_EQUAL or E_UNEQUAL.
pub data Comparison : Type 0 where
  equal unequal : Comparison

abbrev pub flip : Comparison → Comparison
flip equal = unequal
flip unequal = equal

-- `if (type == E_UNEQUAL) e = expr_alloc_one(E_NOT, e);`
abbrev pub negate_unequal : Comparison → Expr → Expr
negate_unequal equal e = e
negate_unequal unequal e = e_not e

-- `expr_alloc_comp(type, a, b)`
abbrev pub alloc_comp : Comparison → ℕ → ℕ → Expr
alloc_comp equal a b = e_equal a b
alloc_comp unequal a b = e_unequal a b

-- `case E_UNEQUAL` and `case E_EQUAL`: comparing a comparison `e`. A null result for any other
-- symbol than the three constants.
abbrev pub compare_leaf : Comparison → ℕ → Expr → Option Expr
compare_leaf equal sym e =
    if sym == symbol_yes
    then some (expr_copy e)
    else if sym == symbol_mod
    then some (e_symbol symbol_no)
    else if sym == symbol_no
    then some (e_not (expr_copy e))
    else none
compare_leaf unequal sym e =
    if sym == symbol_yes
    then some (e_not (expr_copy e))
    else if sym == symbol_mod
    then some (e_symbol symbol_yes)
    else if sym == symbol_no
    then some (expr_copy e)
    else none

-- `expr_alloc_two` on the results for the two operands. They are null only for a symbol with
-- which the caller does not join them.
abbrev pub join_two : (Expr → Expr → Expr) → Option Expr → Option Expr → Option Expr
join_two two e1 e2 = do l ← e1; r ← e2; some (two l r)

-- With a symbol that is neither `y` nor `n`, a conjunction or disjunction stays as it is.
unfoldable pub trans_compare : Expr → Comparison → ℕ → Option Expr
trans_compare (e_and l r) type sym =
    let e1 = trans_compare l equal sym in
    let e2 = trans_compare r equal sym in
    do
      e ←
          if sym == symbol_yes
          then join_two e_and e1 e2
          else if sym == symbol_no
          then join_two e_or e1 e2
          else some (e_and l r)
      some (negate_unequal type e)
trans_compare (e_or l r) type sym =
    let e1 = trans_compare l equal sym in
    let e2 = trans_compare r equal sym in
    do
      e ←
          if sym == symbol_yes
          then join_two e_or e1 e2
          else if sym == symbol_no
          then join_two e_and e1 e2
          else some (e_or l r)
      some (negate_unequal type e)
trans_compare (e_not e) type sym = trans_compare e (flip type) sym
trans_compare (e_equal a b) type sym = compare_leaf type sym (e_equal a b)
trans_compare (e_unequal a b) type sym = compare_leaf type sym (e_unequal a b)
trans_compare (e_symbol s) type sym = some (alloc_comp type s sym)

abbrev pub expr_trans_compare : Option Expr → Comparison → ℕ → Option Expr
expr_trans_compare none type sym = some (negate_unequal type (e_symbol sym))
expr_trans_compare (some e) type sym = trans_compare e type sym
