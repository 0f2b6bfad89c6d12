-- ===== src/Expr/Transform.antt =====
-- build-tools/kconfig/expr.c: `expr_transform`, which pushes negations down to the symbols and
-- turns comparisons of boolean symbols into symbols. The function calls itself on its own result,
-- so it runs on fuel; `weight e` calls are enough.
pub mod Sound
use mkrootfs.Base.{ℕ, zero, suc, ◌+◌, ◌*◌, max, Option, none, some, ◌>>=◌, if◌then◌else◌, ◌==◌}
use mkrootfs.Expr.{
  Expr, e_symbol, e_not, e_and, e_or, e_equal, e_unequal, symbol_no, symbol_mod, symbol_yes,
}
use mkrootfs.Symbol.{Table, is_boolean}

-- `case E_EQUAL`
abbrev pub transform_equal : Table → ℕ → ℕ → Expr
transform_equal t a b =
    if is_boolean (t a).type
    then (if b == symbol_no
        then e_not (e_symbol a)
        else if b == symbol_mod
        then e_symbol symbol_no
        else if b == symbol_yes
        then e_symbol a
        else e_equal a b)
    else e_equal a b

-- `case E_UNEQUAL`
abbrev pub transform_unequal : Table → ℕ → ℕ → Expr
transform_unequal t a b =
    if is_boolean (t a).type
    then (if b == symbol_no
        then e_symbol a
        else if b == symbol_mod
        then e_symbol symbol_yes
        else if b == symbol_yes
        then e_not (e_symbol a)
        else e_unequal a b)
    else e_unequal a b

-- `case E_NOT` with the operand `E_SYMBOL`
abbrev pub transform_not_symbol : ℕ → Expr
transform_not_symbol s =
    if s == symbol_yes
    then e_symbol symbol_no
    else if s == symbol_mod
    then e_symbol symbol_mod
    else if s == symbol_no
    then e_symbol symbol_yes
    else e_not (e_symbol s)

-- `case E_NOT`, by the type of the operand. `again` is the call of `expr_transform` on the result.
unfoldable pub transform_not : (Expr → Option Expr) → Expr → Option Expr
transform_not again (e_not a) = again a
transform_not again (e_equal a b) = some (e_unequal a b)
transform_not again (e_unequal a b) = some (e_equal a b)
transform_not again (e_or a b) = again (e_and (e_not a) (e_not b))
transform_not again (e_and a b) = again (e_or (e_not a) (e_not b))
transform_not again (e_symbol s) = some (transform_not_symbol s)

unfoldable pub transform : Table → ℕ → Expr → Option Expr
transform t zero e = none
transform t (suc f) (e_symbol s) = some (e_symbol s)
transform t (suc f) (e_equal a b) = some (transform_equal t a b)
transform t (suc f) (e_unequal a b) = some (transform_unequal t a b)
transform t (suc f) (e_and l r) = do l' ← transform t f l; r' ← transform t f r; some (e_and l' r')
transform t (suc f) (e_or l r) = do l' ← transform t f l; r' ← transform t f r; some (e_or l' r')
transform t (suc f) (e_not e) = do e' ← transform t f e; transform_not (transform t f) e'

-- A bound on the depth of the calls: a negation doubles it, as it may move below its operand.
unfoldable pub weight : Expr → ℕ
weight (e_symbol _) = 1
weight (e_equal _ _) = 2
weight (e_unequal _ _) = 2
weight (e_not e) = 2 * weight e
weight (e_and l r) = 1 + max (weight l) (weight r)
weight (e_or l r) = 1 + max (weight l) (weight r)

-- `expr_transform` on an expression that is not null.
unfoldable pub expr_transform : Table → Expr → Option Expr
expr_transform t e = transform t (weight e) e
