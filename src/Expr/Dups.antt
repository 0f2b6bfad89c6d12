-- ===== src/Expr/Dups.antt =====
-- build-tools/kconfig/expr.c: `expr_eliminate_dups1`, `expr_eliminate_dups2` and
-- `expr_eliminate_dups`. Their two pointers point into one tree, so a pointer is a path from the
-- node at which both started, and two pointers are equal if their paths are. The recursion runs on
-- fuel. `trans_count` is part of the state.
pub mod Paths
pub mod Apart
pub mod Keeps
pub mod Joined
pub mod Steps
pub mod First
pub mod Second
pub mod Ends
use mkrootfs.Base.{
  ℕ, zero, suc, ◌+◌, ◌*◌, Bool, true, false, ◌&&◌, if◌then◌else◌, List, [], ◌∷◌, ◌++◌, Option, none,
  some, ◌>>=◌,
}
use mkrootfs.Expr.{Expr, size, e_not, e_and, e_or, expr_copy, expr_is_yes, expr_is_no}
use mkrootfs.Symbol.{Table}
use mkrootfs.Expr.YesNo.{expr_eliminate_yn}
use mkrootfs.Expr.Transform.{expr_transform}
use mkrootfs.Expr.Eq.{Connective, conj, disj, connective, operands, neutral, Pair}
use mkrootfs.Expr.Extract.{expr_extract_eq_and, expr_extract_eq_or}
use mkrootfs.Expr.Join.{expr_join_or, expr_join_and}

-- `&e->left.expr` and `&e->right.expr`
pub data Side : Type 0 where
  on_the_left on_the_right : Side

abbrev pub same_side : Side → Side → Bool
same_side on_the_left on_the_left = true
same_side on_the_right on_the_right = true
same_side _ _ = false

abbrev pub same_path : List Side → List Side → Bool
same_path [] [] = true
same_path (a ∷ p) (b ∷ q) = same_side a b && same_path p q
same_path _ _ = false

-- The operands of an E_AND or E_OR.
abbrev pub child : Side → Expr → Option Expr
child on_the_left (e_and l r) = some l
child on_the_left (e_or l r) = some l
child on_the_right (e_and l r) = some r
child on_the_right (e_or l r) = some r
child _ _ = none

abbrev pub set_child : Side → Expr → Expr → Expr
set_child on_the_left x (e_and l r) = e_and x r
set_child on_the_left x (e_or l r) = e_or x r
set_child on_the_right x (e_and l r) = e_and l x
set_child on_the_right x (e_or l r) = e_or l x
set_child _ x e = e

-- `*ep`; no path of the walk leads out of the tree.
unfoldable pub get : List Side → Expr → Option Expr
get [] e = some e
get (s ∷ p) e = do c ← child s e; get p c

-- `*ep = x`
unfoldable pub put : List Side → Expr → Expr → Expr
put [] x e = x
put (s ∷ p) x e = elim (child s e) [ some c ↦ set_child s (put p x c) e | none ↦ e ]

-- The tree below the node at which both pointers started, and `trans_count`.
pub record Walk : Type 0 where
  pub tree : Expr
  pub count : ℕ

abbrev pub on_first : (Walk → List Side → Option Walk) → Walk → List Side → Option Walk
on_first again w p1 = do w' ← again w (p1 ++ on_the_left ∷ []); again w' (p1 ++ on_the_right ∷ [])

-- `expr_join_or` for E_OR, `expr_join_and` for E_AND.
abbrev pub join : Connective → Table → Expr → Expr → Option (Option Expr)
join disj t e1 e2 = expr_join_or t e1 e2
join conj t e1 e2 = expr_join_and t e1 e2

-- `if (tmp) { … e1 = expr_alloc_symbol(…); e2 = tmp; trans_count++; }`
abbrev pub write_joined : Connective → Walk → List Side → List Side → Option Expr → Walk
write_joined c w p1 p2 none = w
write_joined c w p1 p2 (some tmp) = record {
  tree = put p2 tmp (put p1 (neutral c) w.tree);
  count = suc w.count;
}

-- The second switch of `expr_eliminate_dups1`.
unfoldable pub join_at : Connective → Table → Walk → List Side → List Side → Option Walk
join_at c t w p1 p2 = do
  e1 ← get p1 w.tree
  e2 ← get p2 w.tree
  tmp ← join c t e1 e2
  some (write_joined c w p1 p2 tmp)

-- `expr_eliminate_dups1(e1->type, &e1, &e1)` for an operand of the other connective: `again` is
-- the whole walk below the operand.
unfoldable pub inside_at : (Connective → Walk → Option Walk) → Walk → List Side → Expr → Option Walk
inside_at again w p e = elim (connective e) [
  | some d ↦ do
    v ← again d (record w { tree = e })
    some (record { tree = put p v.tree w.tree; count = v.count })
  | none ↦ some w
]

-- `expr_eliminate_dups1`
unfoldable pub dups1 : ℕ → Table → Connective → Walk → List Side → List Side → Option Walk
dups1 zero t c w p1 p2 = none
dups1 (suc f) t c w p1 p2 = do
  e1 ← get p1 w.tree
  e2 ← get p2 w.tree
  elim (operands c e1) [
    | some _ ↦ on_first (λ w' p. dups1 f t c w' p p2) w p1
    | none ↦ elim (operands c e2) [
      | some _ ↦ on_first (λ w' p. dups1 f t c w' p1 p) w p2
      | none ↦ elim (same_path p1 p2) [
        | true ↦ some w
        | false ↦ do w' ← inside_at (λ d v. dups1 f t d v [] []) w p1 e1; join_at c t w' p1 p2
      ]
    ]
  ]

-- The extraction that looks for the operands of a negated E_OR or E_AND.
abbrev pub extract_for : Connective → Expr → Expr → Option (Pair (Option Expr))
extract_for disj e1 e2 = expr_extract_eq_and e1 e2
extract_for conj e1 e2 = expr_extract_eq_or e1 e2

-- `expr_is_yes(tmp1)` for an E_OR, `expr_is_no(tmp1)` for an E_AND.
abbrev pub all_extracted : Connective → Expr → Bool
all_extracted disj tmp1 = expr_is_yes (some tmp1)
all_extracted conj tmp1 = expr_is_no (some tmp1)

-- The body of `case E_OR` or `case E_AND` of `expr_eliminate_dups2` after the inner call, where `d`
-- is the type of `e1`.
unfoldable pub contradict_at : Connective → Table → Walk → List Side → List Side → Option Walk
contradict_at d t w p1 p2 = do
  e1 ← get p1 w.tree
  e2 ← get p2 w.tree
  tmp1 ← expr_transform t (e_not (expr_copy e1))
  q ← extract_for d tmp1 (expr_copy e2)
  some (
      if all_extracted d q.left
      then record { tree = put p1 (neutral d) w.tree; count = suc w.count }
      else w)

-- `expr_eliminate_dups2` from `if (e1 == e2)` on.
unfoldable pub after_at :
    (Connective → Walk → Option Walk) → Table → Walk → List Side → List Side → Option Walk
after_at again t w p1 p2 = elim (same_path p1 p2) [
  | true ↦ some w
  | false ↦ do
    e ← get p1 w.tree
    elim (connective e) [
      | none ↦ some w
      | some d ↦ do v ← inside_at again w p1 e; contradict_at d t v p1 p2
    ]
]

-- `expr_eliminate_dups2`. After the two calls for the operands of `*ep2` the function goes on with
-- `*ep2` itself.
unfoldable pub dups2 : ℕ → Table → Connective → Walk → List Side → List Side → Option Walk
dups2 zero t c w p1 p2 = none
dups2 (suc f) t c w p1 p2 = do
  e1 ← get p1 w.tree
  e2 ← get p2 w.tree
  elim (operands c e1) [
    | some _ ↦ on_first (λ w' p. dups2 f t c w' p p2) w p1
    | none ↦ do
      w' ← elim (operands c e2) [
        | some _ ↦ on_first (λ v p. dups2 f t c v p1 p) w p2
        | none ↦ some w
      ]
      after_at (λ d u. dups2 f t d u [] []) t w' p1 p2
  ]

-- One round of the loop of `expr_eliminate_dups`: the tree and its count, which starts at zero.
unfoldable pub dups_round : ℕ → Table → Expr → Option Walk
dups_round f t e = elim (connective e) [
  | some c ↦ do
    w ← dups1 f t c (record { tree = e; count = 0 }) [] []
    elim (connective w.tree) [ some d ↦ dups2 f t d w [] [] | none ↦ some w ]
  | none ↦ some (record { tree = e; count = 0 })
]

-- The loop, with at most `n` rounds, each with fuel `f`.
unfoldable pub eliminate_dups : ℕ → ℕ → Table → Expr → Option Expr
eliminate_dups zero f t e = none
eliminate_dups (suc n) f t e = do
  w ← dups_round f t e
  elim (w.count) [ zero ↦ some w.tree | suc _ ↦ eliminate_dups n f t (expr_eliminate_yn w.tree) ]

-- The fuel that is enough for the passes over a tree of at most this size.
unfoldable pub enough : ℕ → ℕ
enough zero = 0
enough (suc n) = 2 * suc n + 1 + enough n

-- `expr_eliminate_dups`. Each round but the last leaves a smaller tree.
unfoldable pub expr_eliminate_dups : Table → Option Expr → Option (Option Expr)
expr_eliminate_dups t none = some none
expr_eliminate_dups t (some e) = do r ← eliminate_dups (size e) (enough (size e)) t e; some (some r)
