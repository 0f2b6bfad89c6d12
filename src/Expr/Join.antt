-- ===== src/Expr/Join.antt =====
-- build-tools/kconfig/expr.c: `expr_join_or` and `expr_join_and`, which replace two operands by one
-- expression where they can. A null result is `none` inside the result of the comparison.
pub mod Sound
use mkrootfs.Base.{
  ℕ, Bool, true, false, not, ◌&&◌, ◌||◌, ◌==◌, if◌then◌else◌, Option, none, some, ◌>>=◌,
}
use mkrootfs.Expr.{
  Expr, e_symbol, e_not, e_and, e_or, e_equal, e_unequal, symbol_no, symbol_mod, symbol_yes,
  expr_copy,
}
use mkrootfs.Symbol.{Table, is_boolean, is_tristate}
use mkrootfs.Expr.Eq.{expr_eq}

-- `sym1`: the symbol of a comparison or symbol, or of one below a negation.
abbrev pub first_symbol : Expr → Option ℕ
first_symbol (e_symbol s) = some s
first_symbol (e_equal a _) = some a
first_symbol (e_unequal a _) = some a
first_symbol (e_not (e_symbol s)) = some s
first_symbol (e_not (e_equal a _)) = some a
first_symbol (e_not (e_unequal a _)) = some a
first_symbol _ = none

-- `sym2`: below a negation only a symbol serves.
abbrev pub second_symbol : Expr → Option ℕ
second_symbol (e_symbol s) = some s
second_symbol (e_equal a _) = some a
second_symbol (e_unequal a _) = some a
second_symbol (e_not (e_symbol s)) = some s
second_symbol _ = none

-- `sym1`, if both expressions are about it and it is boolean or tristate.
abbrev pub common_symbol : Table → Expr → Expr → Option ℕ
common_symbol t e1 e2 = do
  sym1 ← first_symbol e1
  sym2 ← second_symbol e2
  if (sym1 == sym2) && (is_boolean (t sym1).type || is_tristate (t sym1).type)
      then some sym1
      else none

-- `b` and `c` are the symbols `x` and `y`, in either order.
abbrev pub either_order : ℕ → ℕ → ℕ → ℕ → Bool
either_order x y b c = ((b == x) && (c == y)) || ((b == y) && (c == x))

-- The rules of `expr_join_or` on expressions about the symbol `s`.
unfoldable pub or_rules : Table → ℕ → Expr → Expr → Option Expr
or_rules t s (e_equal _ b) (e_equal _ c) =
    if is_tristate (t s).type
    then (if either_order symbol_yes symbol_mod b c
        then some (e_unequal s symbol_no)
        else if either_order symbol_yes symbol_no b c
        then some (e_unequal s symbol_mod)
        else if either_order symbol_mod symbol_no b c
        then some (e_unequal s symbol_yes)
        else none)
    else none
or_rules t s (e_not (e_symbol _)) (e_symbol _) =
    if is_boolean (t s).type then some (e_symbol symbol_yes) else none
or_rules t s (e_symbol _) (e_not (e_symbol _)) =
    if is_boolean (t s).type then some (e_symbol symbol_yes) else none
or_rules t s _ _ = none

-- The rule for a symbol `s` and a comparison `s = b`.
abbrev pub and_equal : ℕ → ℕ → Option Expr
and_equal s b = if b == symbol_yes then some (e_equal s symbol_yes) else none

-- The rules for a symbol `s` and a comparison `s != b`.
abbrev pub and_unequal : ℕ → ℕ → Option Expr
and_unequal s b =
    if b == symbol_no
    then some (e_symbol s)
    else if b == symbol_mod
    then some (e_equal s symbol_yes)
    else none

-- The rule for `s = b` and `s != c` with constants `b` and `c`.
abbrev pub and_constants : Table → ℕ → ℕ → ℕ → Option Expr
and_constants t s b c =
    if is_tristate (t s).type && ((t c).const && (t b).const)
    then (if b == c then some (e_symbol symbol_no) else some (e_equal s b))
    else none

-- The rules of `expr_join_and` on expressions about the symbol `s`.
unfoldable pub and_rules : Table → ℕ → Expr → Expr → Option Expr
and_rules t s (e_symbol _) (e_equal _ b) = and_equal s b
and_rules t s (e_equal _ b) (e_symbol _) = and_equal s b
and_rules t s (e_symbol _) (e_unequal _ b) = and_unequal s b
and_rules t s (e_unequal _ b) (e_symbol _) = and_unequal s b
and_rules t s (e_equal _ b) (e_unequal _ c) = and_constants t s b c
and_rules t s (e_unequal _ c) (e_equal _ b) = and_constants t s b c
and_rules t s (e_unequal _ b) (e_unequal _ c) =
    if is_tristate (t s).type
    then (if either_order symbol_yes symbol_no b c
        then some (e_equal s symbol_mod)
        else if either_order symbol_yes symbol_mod b c
        then some (e_equal s symbol_no)
        else if either_order symbol_mod symbol_no b c
        then some (e_equal s symbol_yes)
        else none)
    else none
and_rules t s _ _ = none

-- Equal expressions are joined to a copy, any others by the rules.
abbrev pub join_by :
    (Table → ℕ → Expr → Expr → Option Expr) → Table → Expr → Expr → Option (Option Expr)
join_by rules t e1 e2 = do
  same ← expr_eq e1 e2
  some (if same then some (expr_copy e1) else (common_symbol t e1 e2 >>= λ s. rules t s e1 e2))

unfoldable pub expr_join_or : Table → Expr → Expr → Option (Option Expr)
unfolding or_rules
expr_join_or t e1 e2 = join_by or_rules t e1 e2

unfoldable pub expr_join_and : Table → Expr → Expr → Option (Option Expr)
unfolding and_rules
expr_join_and t e1 e2 = join_by and_rules t e1 e2
