-- ===== src/Expr/Extract.antt =====
-- build-tools/kconfig/expr.c: `expr_extract_eq` and its callers `expr_extract_eq_and` and
-- `expr_extract_eq_or`, which move the common operands of two expressions into a third one. The
-- recursion runs on fuel; one call for each node is enough.
pub mod Sound
use mkrootfs.Base.{ℕ, zero, suc, ◌+◌, Bool, true, false, Option, none, some, ◌>>=◌}
use mkrootfs.Expr.{Expr, e_and, e_or, size}
use mkrootfs.Expr.YesNo.{expr_eliminate_yn}
use mkrootfs.Expr.Eq.{Connective, conj, disj, two, neutral, Pair, walk_step, expr_eq}

-- `*ep ? expr_alloc_two(type, *ep, e1) : e1`
abbrev pub add_common : Connective → Option Expr → Expr → Expr
add_common c none e = e
add_common c (some k) e = two c k e

-- Two equal operands are moved to `*ep`, and the neutral element takes their places.
abbrev pub move_equal : Connective → Pair (Option Expr) → Bool → Pair (Option Expr)
move_equal c p true = record {
  left = neutral c;
  right = neutral c;
  extra = some (add_common c p.extra p.left);
}
move_equal c p false = p

unfoldable pub extract_leaf : Connective → Pair (Option Expr) → Option (Pair (Option Expr))
extract_leaf c p = do q ← expr_eq p.left p.right; some (move_equal c p q)

unfoldable pub extract : ℕ → Connective → Pair (Option Expr) → Option (Pair (Option Expr))
extract zero c p = none
extract (suc f) c p = walk_step (extract f c) (extract_leaf c) c p

unfoldable pub expr_extract_eq : Connective → Pair (Option Expr) → Option (Pair (Option Expr))
expr_extract_eq c p = extract (size p.left + size p.right) c p

-- `if (tmp) { *ep1 = expr_eliminate_yn(*ep1); *ep2 = expr_eliminate_yn(*ep2); }`
abbrev pub clean_pair : Pair (Option Expr) → Option Expr → Pair (Option Expr)
clean_pair p none = p
clean_pair p (some _) = record p {
  left = expr_eliminate_yn p.left;
  right = expr_eliminate_yn p.right;
}

abbrev pub extract_from : Connective → Expr → Expr → Option (Pair (Option Expr))
extract_from c e1 e2 = do
  p ← expr_extract_eq c (record { left = e1; right = e2; extra = none })
  some (clean_pair p p.extra)

-- The result holds `*ep1`, `*ep2` and the returned expression.
unfoldable pub expr_extract_eq_and : Expr → Expr → Option (Pair (Option Expr))
expr_extract_eq_and e1 e2 = extract_from conj e1 e2

unfoldable pub expr_extract_eq_or : Expr → Expr → Option (Pair (Option Expr))
expr_extract_eq_or e1 e2 = extract_from disj e1 e2
