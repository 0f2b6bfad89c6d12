-- ===== src/Expr/Eq/Removes.antt =====
-- Removing equal operands from two expressions: what each step keeps, given what the calls in it
-- promise.
use mkrootfs.Base.{
  ℕ, ◌+◌, ◌≤◌, ◌<◌, ◌≡◌, refl, sym, ap, ap₂, ◌∙◌, arith, Bool, true, false, Option, none, some,
  Returns, returned, Returns-bind, Option-cases, Bool-cases, inl, inr,
}
use mkrootfs.Tristate.{Tristate, tri_no, tri_yes, expr_and, expr_or}
use mkrootfs.Expr.{Expr, e_not, e_and, e_or, size, size_pos, expr_copy}
use mkrootfs.Symbol.{Table}
use mkrootfs.Expr.Value.{value, IsSettled, value_no, value_yes}
use mkrootfs.Expr.Eq.{
  Connective, conj, disj, operands, two, neutral, Pair, replace_equal, on_left, on_right, walk_step,
  eliminate_leaf, eliminate_step, same_constant,
}

abbrev pub op : Connective → Tristate → Tristate → Tristate
op conj a b = expr_and a b
op disj a b = expr_or a b

abbrev pub unit : Connective → Tristate
unit conj = tri_yes
unit disj = tri_no

pub expr_copy_lem : (e : Expr) → expr_copy e ≡ e
unfolding expr_copy
expr_copy_lem (e_not e) = ap e_not (expr_copy_lem e)
expr_copy_lem (e_and l r) = ap₂ e_and (expr_copy_lem l) (expr_copy_lem r)
expr_copy_lem (e_or l r) = ap₂ e_or (expr_copy_lem l) (expr_copy_lem r)
expr_copy_lem _ = refl

pub op-unit : (c : Connective) (a : Tristate) → op c a (unit c) ≡ a
op-unit conj a = ground arith
op-unit disj a = ground arith

pub unit-op : (c : Connective) (a : Tristate) → op c (unit c) a ≡ a
unit-op conj a = ground arith
unit-op disj a = ground arith

pub op_assoc : (c : Connective) (a b d : Tristate) → op c (op c a b) d ≡ op c a (op c b d)
op_assoc conj tri_no b d = ground arith
op_assoc disj tri_no b d = ground arith
op_assoc conj _ b d = ground arith
op_assoc disj _ b d = ground arith

op_rest : (c : Connective) (a b d : Tristate) → op c (op c a d) b ≡ op c a (op c b d)
op_rest conj tri_no b d = ground arith
op_rest disj tri_no b d = ground arith
op_rest conj _ b d = ground arith
op_rest disj _ b d = ground arith

op_interchange :
    (c : Connective) (a b d e : Tristate) → op c (op c a b) (op c d e) ≡ op c (op c a d) (op c b e)
op_interchange conj tri_no b d e = ground arith
op_interchange disj tri_no b d e = ground arith
op_interchange conj _ b d e = ground arith
op_interchange disj _ b d e = ground arith

unfoldable pub pair_size {ℓ} : {A : Type ℓ} → Pair A → ℕ
pair_size p = size p.left + size p.right

pub value-two :
    (t : Table) (c : Connective) (l r : Expr) → value t (two c l r) ≡ op c (value t l) (value t r)
unfolding value
value-two t conj l r = refl
value-two t disj l r = refl

pub size-two : (c : Connective) (l r : Expr) → size (two c l r) ≡ 1 + size l + size r
unfolding size
size-two conj l r = refl
size-two disj l r = refl

pub size-neutral : (c : Connective) → size (neutral c) ≡ 1
unfolding size
size-neutral conj = refl
size-neutral disj = refl

two-operands : (c : Connective) (e : Expr) {l r : Expr} → operands c e ≡ some (l, r) → e ≡ two c l r
two-operands conj (e_and l r) h = ground arith
two-operands disj (e_or l r) h = ground arith
two-operands conj _ h = cc
two-operands disj _ h = cc

-- The call took the same operands `rest` from both expressions, which did not grow, and changed
-- what else it carries as `Link` allows.
pub record Removes {ℓ} {A : Type ℓ} (Link : A → Tristate → A → Type 0) (t : Table) (c : Connective)
    (p q : Pair A) : Type 0 where
  pub rest : Tristate
  pub left_lem : value t p.left ≡ op c (value t q.left) rest
  pub right_lem : value t p.right ≡ op c (value t q.right) rest
  pub left_le : size q.left ≤ size p.left
  pub right_le : size q.right ≤ size p.right
  pub linked : Link p.extra rest q.extra

-- A positive answer means that the expressions have the same value.
abbrev pub EqSound : Table → Expr → Expr → Bool → Type 0
EqSound t e1 e2 b = b ≡ true → value t e1 ≡ value t e2

module _ {ℓ} {A : Type ℓ} (Link : A → Tristate → A → Type 0) (t : Table) (c : Connective)
    (link_trans : (x y z : A) (j k : Tristate) → Link x j y → Link y k z → Link x (op c j k) z)
    (again : Pair A → Option (Pair A)) (n : ℕ) where
  -- `again` is right on pairs of less than `n` nodes.
  abbrev IsRight : Type ℓ
  IsRight = (p : Pair A) → pair_size p < n → Returns (Removes Link t c p) (again p)

  module _ (ok : IsRight) (p : Pair A) (l r : Expr) (h : pair_size p ≤ n) where
    on_left-Removes : p.left ≡ two c l r → Returns (Removes Link t c p) (on_left again c p l r)
    unfolding pair_size
    on_left-Removes e =
        let grow : size p.left ≡ 1 + size l + size r = ap size e ∙ size-two c l r in
        Returns-bind (ok (record p { left = l }) (omega arith)) λ a ra.
          Returns-bind (ok (record a { left = r }) (omega (arith, ra.right_le))) λ b rb.
            returned (record {
              rest = op c ra.rest rb.rest;
              left_lem =
                  ap (value t) e
                  ∙ value-two t c l r
                  ∙ ap₂ (op c) ra.left_lem rb.left_lem
                  ∙ op_interchange c (value t a.left) ra.rest (value t b.left) rb.rest
                  ∙ ap (λ v. op c v (op c ra.rest rb.rest)) (sym (value-two t c a.left b.left));
              right_lem =
                  ra.right_lem
                  ∙ ap (λ v. op c v ra.rest) rb.right_lem
                  ∙ op_rest c (value t b.right) ra.rest rb.rest;
              left_le = omega (arith, size-two c a.left b.left, ra.left_le, rb.left_le);
              right_le = omega (arith, ra.right_le, rb.right_le);
              linked = link_trans p.extra a.extra b.extra ra.rest rb.rest ra.linked rb.linked;
            })

    on_right-Removes : p.right ≡ two c l r → Returns (Removes Link t c p) (on_right again c p l r)
    unfolding pair_size
    on_right-Removes e =
        let grow : size p.right ≡ 1 + size l + size r = ap size e ∙ size-two c l r in
        Returns-bind (ok (record p { right = l }) (omega arith)) λ a ra.
          Returns-bind (ok (record a { right = r }) (omega (arith, ra.left_le))) λ b rb.
            returned (record {
              rest = op c ra.rest rb.rest;
              right_lem =
                  ap (value t) e
                  ∙ value-two t c l r
                  ∙ ap₂ (op c) ra.right_lem rb.right_lem
                  ∙ op_interchange c (value t a.right) ra.rest (value t b.right) rb.rest
                  ∙ ap (λ v. op c v (op c ra.rest rb.rest)) (sym (value-two t c a.right b.right));
              left_lem =
                  ra.left_lem
                  ∙ ap (λ v. op c v ra.rest) rb.left_lem
                  ∙ op_rest c (value t b.left) ra.rest rb.rest;
              right_le = omega (arith, size-two c a.right b.right, ra.right_le, rb.right_le);
              left_le = omega (arith, ra.left_le, rb.left_le);
              linked = link_trans p.extra a.extra b.extra ra.rest rb.rest ra.linked rb.linked;
            })

  -- One step of either walk, where `leaf` is right on two expressions without operands.
  pub walk_step-Removes :
      (leaf : Pair A → Option (Pair A)) (p : Pair A)
      → ((q : Pair A) → pair_size q < n → Returns (Removes Link t c q) (again q))
      → pair_size p ≤ n
      → (operands c p.left ≡ none
          → operands c p.right ≡ none
          → Returns (Removes Link t c p) (leaf p))
      → Returns (Removes Link t c p) (walk_step again leaf c p)
  unfolding walk_step
  walk_step-Removes leaf p ok h leaf_ok = elim (Option-cases (operands c p.left)) [
    | inr ((l, r), e) ↦ rw (e, walk_step) (on_left-Removes ok p l r h (two-operands c p.left e))
    | inl none_left ↦
        rw (none_left, walk_step)
          (elim (Option-cases (operands c p.right)) [
            | inr ((l, r), e) ↦ rw e (on_right-Removes ok p l r h (two-operands c p.right e))
            | inl none_right ↦ rw none_right (leaf_ok none_left none_right)
          ])
  ]

-- The count only grows.
abbrev pub Counts : ℕ → Tristate → ℕ → Type 0
Counts m _ n = m ≤ n

pub Removes-refl : (t : Table) (c : Connective) (p : Pair ℕ) → Removes Counts t c p p
Removes-refl t c p = record {
  rest = unit c;
  left_lem = sym (op-unit c (value t p.left));
  right_lem = sym (op-unit c (value t p.right));
  left_le = omega arith;
  right_le = omega arith;
  linked = omega arith;
}

module _ (t : Table) (settled : IsSettled t) (c : Connective) where
  pub value-neutral : value t (neutral c) ≡ unit c
  value-neutral = go c
    where
      go : (d : Connective) → value t (neutral d) ≡ unit d
      go conj = value_yes t settled
      go disj = value_no t settled

  replace_equal-Removes :
      (p : Pair ℕ) (b : Bool)
      → EqSound t p.left p.right b
      → Removes Counts t c p (replace_equal c p b)
  replace_equal-Removes p false s = Removes-refl t c p
  replace_equal-Removes p true s = record {
    rest = value t p.left;
    left_lem = sym (ap (λ v. op c v (value t p.left)) value-neutral ∙ unit-op c (value t p.left));
    right_lem =
        sym (s refl)
        ∙ sym (ap (λ v. op c v (value t p.left)) value-neutral ∙ unit-op c (value t p.left));
    left_le = omega (arith, size-neutral c, size_pos p.left);
    right_le = omega (arith, size-neutral c, size_pos p.right);
    linked = omega arith;
  }

  eliminate_leaf-Removes :
      (eq : Expr → Expr → Option Bool) (p : Pair ℕ)
      → Returns (EqSound t p.left p.right) (eq p.left p.right)
      → Returns (Removes Counts t c p) (eliminate_leaf eq c p)
  unfolding eliminate_leaf
  eliminate_leaf-Removes eq p eq_ok = elim (Bool-cases (same_constant p.left p.right)) [
    | inl same ↦ rw (same, eliminate_leaf) (returned (Removes-refl t c p))
    | inr differ ↦
        rw (differ, eliminate_leaf)
          (Returns-bind eq_ok λ b s. returned (replace_equal-Removes p b s))
  ]

  -- One step of `__expr_eliminate_eq`, where `eq` is right on two expressions without operands.
  pub eliminate_step-Removes :
      (again : Pair ℕ → Option (Pair ℕ)) (eq : Expr → Expr → Option Bool) (p : Pair ℕ)
      → ((q : Pair ℕ) → pair_size q < pair_size p → Returns (Removes Counts t c q) (again q))
      → (operands c p.left ≡ none
          → operands c p.right ≡ none
          → Returns (EqSound t p.left p.right) (eq p.left p.right))
      → Returns (Removes Counts t c p) (eliminate_step again eq c p)
  unfolding eliminate_step
  eliminate_step-Removes again eq p ok eq_ok =
      walk_step-Removes Counts t c (λ x y z j k (g : x ≤ y) (h : y ≤ z). omega arith) again
        (pair_size p) (eliminate_leaf eq c) p ok (omega arith)
        (λ i j. eliminate_leaf-Removes eq p (eq_ok i j))
