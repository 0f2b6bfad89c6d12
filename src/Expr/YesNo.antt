-- ===== src/Expr/YesNo.antt =====
-- build-tools/kconfig/expr.c: `expr_eliminate_yn`, which removes the constants `y` and `n` from
-- conjunctions and disjunctions.
use mkrootfs.Base.{ℕ, ◌+◌, ◌≤◌, ◌≡◌, refl, ◌∙◌, ap₂, ◌||◌, arith, Bool, true, false, if◌then◌else◌}
use mkrootfs.Tristate.{tri_no, tri_yes, expr_or, expr_and}
use mkrootfs.Expr.{
  Expr, e_symbol, e_not, e_and, e_or, e_equal, e_unequal, symbol_no, symbol_yes, size, size_pos,
  is_symbol,
}
use mkrootfs.Symbol.{Table}
use mkrootfs.Expr.Value.{value, IsSettled, value_no, value_yes}

-- The body of `case E_AND`, on operands that are already reduced.
abbrev pub and_yn : Expr → Expr → Expr
and_yn l r =
    if is_symbol symbol_no l
    then e_symbol symbol_no
    else if is_symbol symbol_yes l
    then r
    else if is_symbol symbol_no r
    then e_symbol symbol_no
    else if is_symbol symbol_yes r
    then l
    else e_and l r

-- The body of `case E_OR`.
abbrev pub or_yn : Expr → Expr → Expr
or_yn l r =
    if is_symbol symbol_no l
    then r
    else if is_symbol symbol_yes l
    then e_symbol symbol_yes
    else if is_symbol symbol_no r
    then l
    else if is_symbol symbol_yes r
    then e_symbol symbol_yes
    else e_or l r

unfoldable pub expr_eliminate_yn : Expr → Expr
expr_eliminate_yn (e_and l r) = and_yn (expr_eliminate_yn l) (expr_eliminate_yn r)
expr_eliminate_yn (e_or l r) = or_yn (expr_eliminate_yn l) (expr_eliminate_yn r)
expr_eliminate_yn (e_symbol s) = e_symbol s
expr_eliminate_yn (e_not e) = e_not e
expr_eliminate_yn (e_equal a b) = e_equal a b
expr_eliminate_yn (e_unequal a b) = e_unequal a b

pub is_symbol-eq : (s : ℕ) (e : Expr) → is_symbol s e ≡ true → e ≡ e_symbol s
is_symbol-eq s (e_symbol x) h = ground arith
is_symbol-eq s _ h = ground arith

module _ (t : Table) (settled : IsSettled t) where
  value-no : (e : Expr) → is_symbol symbol_no e ≡ true → value t e ≡ tri_no
  value-no e h = rw (is_symbol-eq symbol_no e h) (value_no t settled)

  value-yes : (e : Expr) → is_symbol symbol_yes e ≡ true → value t e ≡ tri_yes
  value-yes e h = rw (is_symbol-eq symbol_yes e h) (value_yes t settled)

  pub value-and_yn : (l r : Expr) → value t (and_yn l r) ≡ expr_and (value t l) (value t r)
  unfolding value
  value-and_yn l r =
      ground (arith, value-no l, value-yes l, value-no r, value-yes r, settled.no_lem)

  pub value-or_yn : (l r : Expr) → value t (or_yn l r) ≡ expr_or (value t l) (value t r)
  unfolding value
  value-or_yn l r =
      ground (arith, value-no l, value-yes l, value-no r, value-yes r, settled.yes_lem)

  -- Removing the constants keeps the value of an expression in every settled table.
  pub value-expr_eliminate_yn : (e : Expr) → value t (expr_eliminate_yn e) ≡ value t e
  unfolding expr_eliminate_yn value
  value-expr_eliminate_yn (e_and l r) =
      value-and_yn (expr_eliminate_yn l) (expr_eliminate_yn r)
      ∙ ap₂ expr_and (value-expr_eliminate_yn l) (value-expr_eliminate_yn r)
  value-expr_eliminate_yn (e_or l r) =
      value-or_yn (expr_eliminate_yn l) (expr_eliminate_yn r)
      ∙ ap₂ expr_or (value-expr_eliminate_yn l) (value-expr_eliminate_yn r)
  value-expr_eliminate_yn (e_symbol s) = refl
  value-expr_eliminate_yn _ = refl

-- The constants `y` and `n`, and an expression in which one of them is an operand of a conjunction or
-- disjunction that stands below no negation.
abbrev is_constant : Expr → Bool
is_constant e = is_symbol symbol_no e || is_symbol symbol_yes e

abbrev pub has_constant : Expr → Bool
has_constant (e_and l r) = is_constant l || is_constant r || has_constant l || has_constant r
has_constant (e_or l r) = is_constant l || is_constant r || has_constant l || has_constant r
has_constant _ = false

has_constant-and_yn :
    (l r : Expr)
    → has_constant l ≡ false
    → has_constant r ≡ false
    → has_constant (and_yn l r) ≡ false
has_constant-and_yn l r p q = ground arith

has_constant-or_yn :
    (l r : Expr)
    → has_constant l ≡ false
    → has_constant r ≡ false
    → has_constant (or_yn l r) ≡ false
has_constant-or_yn l r p q = ground arith

-- The result is a constant itself, or no operand of those of its conjunctions and disjunctions that
-- stand below no negation is the constant `y` or `n`.
pub has_constant-expr_eliminate_yn : (e : Expr) → has_constant (expr_eliminate_yn e) ≡ false
unfolding expr_eliminate_yn
has_constant-expr_eliminate_yn (e_and l r) =
    has_constant-and_yn (expr_eliminate_yn l) (expr_eliminate_yn r)
      (has_constant-expr_eliminate_yn l) (has_constant-expr_eliminate_yn r)
has_constant-expr_eliminate_yn (e_or l r) =
    has_constant-or_yn (expr_eliminate_yn l) (expr_eliminate_yn r)
      (has_constant-expr_eliminate_yn l) (has_constant-expr_eliminate_yn r)
has_constant-expr_eliminate_yn _ = refl

pub size-and_yn-le : (l r : Expr) → size (and_yn l r) ≤ 1 + size l + size r
unfolding size
size-and_yn-le l r = ground (arith, size_pos l, size_pos r)

pub size-or_yn-le : (l r : Expr) → size (or_yn l r) ≤ 1 + size l + size r
unfolding size
size-or_yn-le l r = ground (arith, size_pos l, size_pos r)

-- The result is never larger than the expression.
pub size-expr_eliminate_yn-le : (e : Expr) → size (expr_eliminate_yn e) ≤ size e
unfolding expr_eliminate_yn size
size-expr_eliminate_yn-le (e_and l r) = omega (
  arith,
  size-and_yn-le (expr_eliminate_yn l) (expr_eliminate_yn r),
  size-expr_eliminate_yn-le l,
  size-expr_eliminate_yn-le r,
)
size-expr_eliminate_yn-le (e_or l r) = omega (
  arith,
  size-or_yn-le (expr_eliminate_yn l) (expr_eliminate_yn r),
  size-expr_eliminate_yn-le l,
  size-expr_eliminate_yn-le r,
)
size-expr_eliminate_yn-le _ = omega arith
