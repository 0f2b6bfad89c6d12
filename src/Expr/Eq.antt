-- ===== src/Expr/Eq.antt =====
-- build-tools/kconfig/expr.c: `expr_eliminate_eq`, which removes what two expressions have in
-- common, and `expr_eq`, which compares copies of two expressions by it. The functions call one
-- another on trees that they change, so they run on fuel. `trans_count` is part of the state.
pub mod Removes
pub mod Sound
use mkrootfs.Base.{
  ℕ, zero, suc, ◌+◌, ◌*◌, Bool, true, false, not, ◌&&◌, ◌||◌, ◌==◌, if◌then◌else◌, Option, none,
  some, ◌>>=◌,
}
use mkrootfs.Expr.{
  Expr, e_symbol, e_not, e_and, e_or, e_equal, e_unequal, symbol_no, symbol_yes, size, expr_copy,
}
use mkrootfs.Expr.YesNo.{expr_eliminate_yn}

-- The parameter `type`, which is E_OR or E_AND.
pub data Connective : Type 0 where
  conj disj : Connective

-- The connective of an E_OR or E_AND.
abbrev pub connective : Expr → Option Connective
connective (e_and _ _) = some conj
connective (e_or _ _) = some disj
connective _ = none

-- The operands, if `e->type == type`.
abbrev pub operands : Connective → Expr → Option (Expr × Expr)
operands conj (e_and l r) = some (l, r)
operands disj (e_or l r) = some (l, r)
operands _ _ = none

-- `expr_alloc_two(type, l, r)`
abbrev pub two : Connective → Expr → Expr → Expr
two conj l r = e_and l r
two disj l r = e_or l r

-- `expr_alloc_symbol(&symbol_no)` for E_OR, `expr_alloc_symbol(&symbol_yes)` for E_AND.
abbrev pub neutral : Connective → Expr
neutral conj = e_symbol symbol_yes
neutral disj = e_symbol symbol_no

-- `*ep1` and `*ep2` with what else the walk changes: `trans_count`, or `*ep`.
pub record Pair {ℓ} (A : Type ℓ) : Type ℓ where
  pub left : Expr
  pub right : Expr
  pub extra : A

-- Both expressions are the constant `y`, or both are the constant `n`.
abbrev pub same_constant : Expr → Expr → Bool
same_constant (e_symbol a) (e_symbol b) = (a == b) && ((a == symbol_yes) || (a == symbol_no))
same_constant _ _ = false

-- Both expressions are one symbol.
abbrev pub same_symbol : Expr → Expr → Bool
same_symbol (e_symbol a) (e_symbol b) = a == b
same_symbol _ _ = false

abbrev pub same_connective : Option Connective → Option Connective → Bool
same_connective (some conj) (some conj) = true
same_connective (some disj) (some disj) = true
same_connective _ _ = false

-- Two operands that are equal are replaced by the neutral element.
abbrev pub replace_equal : Connective → Pair ℕ → Bool → Pair ℕ
replace_equal c p true = record { left = neutral c; right = neutral c; extra = suc p.extra }
replace_equal c p false = p

-- The calls for the two operands of the left expression, and of the right one.
abbrev pub on_left {ℓ} :
    {A : Type ℓ} → (Pair A → Option (Pair A)) → Connective → Pair A → Expr → Expr → Option (Pair A)
on_left again c p l r = do
  a ← again (record p { left = l })
  b ← again (record a { left = r })
  some (record b { left = two c a.left b.left })

abbrev pub on_right {ℓ} :
    {A : Type ℓ} → (Pair A → Option (Pair A)) → Connective → Pair A → Expr → Expr → Option (Pair A)
on_right again c p l r = do
  a ← again (record p { right = l })
  b ← again (record a { right = r })
  some (record b { right = two c a.right b.right })

-- The two `if` blocks at the top of `__expr_eliminate_eq` and of `expr_extract_eq`, and then `leaf`.
unfoldable pub walk_step {ℓ} :
    {A : Type ℓ}
    → (Pair A → Option (Pair A))
    → (Pair A → Option (Pair A))
    → Connective
    → Pair A
    → Option (Pair A)
walk_step again leaf c p = elim (operands c p.left) [
  | some (l, r) ↦ on_left again c p l r
  | none ↦ elim (operands c p.right) [ some (l, r) ↦ on_right again c p l r | none ↦ leaf p ]
]

-- The rest of `__expr_eliminate_eq`.
unfoldable pub eliminate_leaf : (Expr → Expr → Option Bool) → Connective → Pair ℕ → Option (Pair ℕ)
eliminate_leaf eq c p = elim (same_constant p.left p.right) [
  | true ↦ some p
  | false ↦ do q ← eq p.left p.right; some (replace_equal c p q)
]

-- `__expr_eliminate_eq`, given its recursive call and `expr_eq`.
unfoldable pub eliminate_step :
    (Pair ℕ → Option (Pair ℕ)) → (Expr → Expr → Option Bool) → Connective → Pair ℕ → Option (Pair ℕ)
unfolding walk_step eliminate_leaf
eliminate_step again eq c p = walk_step again (eliminate_leaf eq c) c p

-- `expr_eliminate_eq` on two expressions that are not null, given `__expr_eliminate_eq`. The
-- second switch runs if the types differ after the first one; only E_OR and E_AND matter there.
unfoldable pub eliminate_both : (Connective → Pair ℕ → Option (Pair ℕ)) → Pair ℕ → Option (Pair ℕ)
eliminate_both again p = do
  a ← elim (connective p.left) [ some c ↦ again c p | none ↦ some p ]
  b ← elim (same_connective (connective a.left) (connective a.right)) [
    | true ↦ some a
    | false ↦ elim (connective a.right) [ some c ↦ again c a | none ↦ some a ]
  ]
  some (record b { left = expr_eliminate_yn b.left; right = expr_eliminate_yn b.right })

-- `expr_eq`, given itself and `expr_eliminate_eq`. The count is restored, so it is dropped here.
unfoldable pub eq_step :
    (Expr → Expr → Option Bool) → (Pair ℕ → Option (Pair ℕ)) → Expr → Expr → Option Bool
eq_step again eliminate (e_equal a b) (e_equal c d) = some ((a == c) && (b == d))
eq_step again eliminate (e_unequal a b) (e_unequal c d) = some ((a == c) && (b == d))
eq_step again eliminate (e_symbol a) (e_symbol b) = some (a == b)
eq_step again eliminate (e_not a) (e_not b) = again a b
eq_step again eliminate (e_and a b) (e_and c d) = do
  p ← eliminate (record { left = expr_copy (e_and a b); right = expr_copy (e_and c d); extra = 0 })
  some (same_symbol p.left p.right)
eq_step again eliminate (e_or a b) (e_or c d) = do
  p ← eliminate (record { left = expr_copy (e_or a b); right = expr_copy (e_or c d); extra = 0 })
  some (same_symbol p.left p.right)
eq_step again eliminate _ _ = some false

-- The three functions, closed by fuel.
unfoldable mutual
  pub eliminate_eq_type : ℕ → Connective → Pair ℕ → Option (Pair ℕ)
  eliminate_eq_type zero c p = none
  eliminate_eq_type (suc f) c p = eliminate_step (eliminate_eq_type f c) (expr_eq_fuel f) c p

  pub eliminate_eq_fuel : ℕ → Pair ℕ → Option (Pair ℕ)
  eliminate_eq_fuel zero p = none
  eliminate_eq_fuel (suc f) p = eliminate_both (eliminate_eq_type f) p

  pub expr_eq_fuel : ℕ → Expr → Expr → Option Bool
  expr_eq_fuel zero e1 e2 = none
  expr_eq_fuel (suc f) e1 e2 = eq_step (expr_eq_fuel f) (eliminate_eq_fuel f) e1 e2

-- Four calls for each node are enough.
abbrev pub pair_fuel : Expr → Expr → ℕ
pair_fuel e1 e2 = 4 * (size e1 + size e2)

unfoldable pub expr_eliminate_eq : Pair ℕ → Option (Pair ℕ)
expr_eliminate_eq p = eliminate_eq_fuel (pair_fuel p.left p.right) p

unfoldable pub expr_eq : Expr → Expr → Option Bool
expr_eq e1 e2 = expr_eq_fuel (pair_fuel e1 e2) e1 e2
