-- ===== src/Calc.antt =====
-- build-tools/kconfig/symbol.c and expr.c: the calculation of symbol values. `sym_calc_value` and
-- `expr_calc_value` call one another; each function here takes `calc`, the call of
-- `sym_calc_value`. The flag SYMBOL_VALID, which is set on entry, ends the recursion, so that a
-- depth of one more call than there are symbols is enough.
pub mod Expression
pub mod Visibility
pub mod Range
pub mod Value
pub mod Run
pub mod Invariant
pub mod Set
pub mod Settled
pub mod Total
