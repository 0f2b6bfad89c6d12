-- ===== src/Expr/Extract/Sound.antt =====
-- build-tools/kconfig/expr.c: `expr_extract_eq_and` and `expr_extract_eq_or` against the value of
-- an expression.
use mkrootfs.Base.{
  ℕ, zero, suc, ◌+◌, ◌≤◌, ◌≡◌, refl, sym, ap, ◌∙◌, arith, Bool, true, false, Option, none, some,
  Returns, returned, Returns-bind,
}
use mkrootfs.Tristate.{Tristate}
use mkrootfs.Expr.{Expr, size, size_pos}
use mkrootfs.Symbol.{Table}
use mkrootfs.Expr.Value.{value, IsSettled}
use mkrootfs.Expr.YesNo.{value-expr_eliminate_yn, size-expr_eliminate_yn-le}
use mkrootfs.Expr.Eq.{Connective, conj, disj, neutral, Pair}
use mkrootfs.Expr.Eq.Removes.{
  op, unit, op-unit, unit-op, op_assoc, value-two, value-neutral, size-neutral, pair_size, Removes,
  EqSound, walk_step-Removes,
}
use mkrootfs.Expr.Eq.Sound.{expr_eq-Sound}
use mkrootfs.Expr.Extract.{
  add_common, move_equal, extract_leaf, extract, expr_extract_eq, clean_pair, extract_from,
  expr_extract_eq_and, expr_extract_eq_or,
}

-- The value of what was extracted; nothing is the neutral element.
abbrev pub common_value : Table → Connective → Option Expr → Tristate
common_value t c none = unit c
common_value t c (some e) = value t e

-- What was extracted grew by the operands that were taken.
abbrev pub Grows : Table → Connective → Option Expr → Tristate → Option Expr → Type 0
Grows t c o v o' = common_value t c o' ≡ op c (common_value t c o) v

-- Both expressions have the value of what is left of them joined with what was extracted.
pub record Extracts (t : Table) (c : Connective) (e1 e2 : Expr) (q : Pair (Option Expr))
    : Type 0 where
  pub left_lem : value t e1 ≡ op c (value t q.left) (common_value t c q.extra)
  pub right_lem : value t e2 ≡ op c (value t q.right) (common_value t c q.extra)
  pub left_le : size q.left ≤ size e1
  pub right_le : size q.right ≤ size e2

module _ (t : Table) (settled : IsSettled t) (c : Connective) where
  Grows-trans :
      (x y z : Option Expr) (j k : Tristate)
      → Grows t c x j y
      → Grows t c y k z
      → Grows t c x (op c j k) z
  Grows-trans x y z j k g h = h ∙ ap (λ v. op c v k) g ∙ op_assoc c (common_value t c x) j k

  add_common-Grows :
      (o : Option Expr) (e : Expr) → Grows t c o (value t e) (some (add_common c o e))
  add_common-Grows none e = sym (unit-op c (value t e))
  add_common-Grows (some k) e = value-two t c k e

  move_equal-Removes :
      (p : Pair (Option Expr)) (b : Bool)
      → EqSound t p.left p.right b
      → Removes (Grows t c) t c p (move_equal c p b)
  move_equal-Removes p false s = record {
    rest = unit c;
    left_lem = sym (op-unit c (value t p.left));
    right_lem = sym (op-unit c (value t p.right));
    left_le = omega arith;
    right_le = omega arith;
    linked = sym (op-unit c (common_value t c p.extra));
  }
  move_equal-Removes p true s =
      let back : op c (value t (neutral c)) (value t p.left) ≡ value t p.left =
        ap (λ v. op c v (value t p.left)) (value-neutral t settled c)
        ∙ unit-op c (value t p.left) in
      record {
        rest = value t p.left;
        left_lem = sym back;
        right_lem = sym (s refl) ∙ sym back;
        left_le = omega (arith, size-neutral c, size_pos p.left);
        right_le = omega (arith, size-neutral c, size_pos p.right);
        linked = add_common-Grows p.extra p.left;
      }

  extract_leaf-Removes :
      (p : Pair (Option Expr)) → Returns (Removes (Grows t c) t c p) (extract_leaf c p)
  unfolding extract_leaf
  extract_leaf-Removes p =
      Returns-bind (expr_eq-Sound t settled p.left p.right)
        λ b s. returned (move_equal-Removes p b s)

  extract-Removes :
      (f : ℕ) (p : Pair (Option Expr))
      → pair_size p ≤ f
      → Returns (Removes (Grows t c) t c p) (extract f c p)
  unfolding extract pair_size
  extract-Removes zero p h = absurd (omega (arith, size_pos p.left))
  extract-Removes (suc f) p h =
      walk_step-Removes (Grows t c) t c Grows-trans (extract f c) (suc f) (extract_leaf c) p
        (λ q lt. extract-Removes f q (omega arith)) h (λ _ _. extract_leaf-Removes p)

  clean_pair-Extracts :
      (e1 e2 : Expr) (q : Pair (Option Expr)) (o : Option Expr)
      → Extracts t c e1 e2 q
      → Extracts t c e1 e2 (clean_pair q o)
  clean_pair-Extracts e1 e2 q none x = x
  clean_pair-Extracts e1 e2 q (some _) x = record {
    left_lem =
        x.left_lem
        ∙ ap (λ v. op c v (common_value t c q.extra))
            (sym (value-expr_eliminate_yn t settled q.left));
    right_lem =
        x.right_lem
        ∙ ap (λ v. op c v (common_value t c q.extra))
            (sym (value-expr_eliminate_yn t settled q.right));
    left_le = omega (arith, x.left_le, size-expr_eliminate_yn-le q.left);
    right_le = omega (arith, x.right_le, size-expr_eliminate_yn-le q.right);
  }

  pub extract_from-Extracts : (e1 e2 : Expr) → Returns (Extracts t c e1 e2) (extract_from c e1 e2)
  unfolding expr_extract_eq pair_size
  extract_from-Extracts e1 e2 =
      Returns-bind
        (extract-Removes (size e1 + size e2) (record { left = e1; right = e2; extra = none })
          (omega arith))
        λ q m. returned (
          clean_pair-Extracts e1 e2 q q.extra (record {
            left_lem = m.left_lem ∙ ap (op c (value t q.left)) (sym (m.linked ∙ unit-op c m.rest));
            right_lem =
                m.right_lem ∙ ap (op c (value t q.right)) (sym (m.linked ∙ unit-op c m.rest));
            left_le = m.left_le;
            right_le = m.right_le;
          }))

-- In every settled table both extractions return. Each of the two expressions has the value of
-- what is left of it joined with what was extracted, by the connective, and what is left is not
-- larger.
pub expr_extract_eq-Extracts :
    (t : Table)
    → IsSettled t
    → (e1 e2 : Expr)
    → Returns (Extracts t conj e1 e2) (expr_extract_eq_and e1 e2)
      × Returns (Extracts t disj e1 e2) (expr_extract_eq_or e1 e2)
unfolding expr_extract_eq_and expr_extract_eq_or
expr_extract_eq-Extracts t settled e1 e2 =
    (extract_from-Extracts t settled conj e1 e2, extract_from-Extracts t settled disj e1 e2)
