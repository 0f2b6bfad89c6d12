-- ===== src/Expr/Eq/Sound.antt =====
-- build-tools/kconfig/expr.c: `expr_eliminate_eq` and `expr_eq` with enough fuel, against the value
-- of an expression.
use mkrootfs.Base.{
  ℕ, zero, suc, ◌+◌, ◌*◌, ◌≤◌, ◌<◌, ◌≡◌, ◌≢◌, refl, sym, ap, ◌∙◌, arith, Bool, true, false, Option,
  none, some, Returns, returned, Returns-bind, Returns-map, Option-cases, Bool-cases, inl, inr,
  ◌>>=◌,
}
use mkrootfs.Tristate.{Tristate, expr_not}
use mkrootfs.Expr.{
  Expr, e_symbol, e_not, e_and, e_or, e_equal, e_unequal, size, size_pos, expr_copy,
}
use mkrootfs.Symbol.{Table}
use mkrootfs.Expr.Value.{value, IsSettled}
use mkrootfs.Expr.YesNo.{expr_eliminate_yn, value-expr_eliminate_yn, size-expr_eliminate_yn-le}
use mkrootfs.Expr.Eq.{
  Connective, conj, disj, connective, operands, Pair, same_connective, same_symbol, eliminate_both,
  eq_step, eliminate_eq_type, eliminate_eq_fuel, expr_eq_fuel, expr_eliminate_eq, expr_eq,
}
use mkrootfs.Expr.Eq.Removes.{
  Counts, op, pair_size, expr_copy_lem, Removes, EqSound, eliminate_step-Removes,
}

-- One function `restore` gives back both values, and neither expression grew.
pub record Common (t : Table) (p q : Pair ℕ) : Type 0 where
  pub restore : Tristate → Tristate
  pub left_lem : value t p.left ≡ restore (value t q.left)
  pub right_lem : value t p.right ≡ restore (value t q.right)
  pub left_le : size q.left ≤ size p.left
  pub right_le : size q.right ≤ size p.right

Common-refl : (t : Table) (p : Pair ℕ) → Common t p p
Common-refl t p = record {
  restore = λ v. v;
  left_lem = refl;
  right_lem = refl;
  left_le = omega arith;
  right_le = omega arith;
}

Removes-Common : (t : Table) (c : Connective) {p q : Pair ℕ} → Removes Counts t c p q → Common t p q
Removes-Common t c m = record {
  restore = λ v. op c v m.rest;
  left_lem = m.left_lem;
  right_lem = m.right_lem;
  left_le = m.left_le;
  right_le = m.right_le;
}

Common-trans : (t : Table) {p q r : Pair ℕ} → Common t p q → Common t q r → Common t p r
Common-trans t a b = record {
  restore = λ v. a.restore (b.restore v);
  left_lem = a.left_lem ∙ ap a.restore b.left_lem;
  right_lem = a.right_lem ∙ ap a.restore b.right_lem;
  left_le = omega (arith, a.left_le, b.left_le);
  right_le = omega (arith, a.right_le, b.right_le);
}

-- There is an operand to go down to.
abbrev Descends : Connective → Pair ℕ → Type 0
Descends c p = operands c p.left ≡ none → operands c p.right ≡ none → ⊥

descends_left : (c : Connective) (e : Expr) → connective e ≡ some c → operands c e ≢ none
descends_left conj (e_and l r) h k = cc
descends_left disj (e_or l r) h k = cc
descends_left conj _ h k = cc
descends_left disj _ h k = cc

same_symbol-value : (t : Table) (e1 e2 : Expr) → same_symbol e1 e2 ≡ true → value t e1 ≡ value t e2
unfolding value
same_symbol-value t (e_symbol a) (e_symbol b) h = ground arith
same_symbol-value t _ _ h = cc

module _ (t : Table) (settled : IsSettled t) where
  eliminate_yn-Common :
      (p : Pair ℕ)
      → Common t p (record p { left = expr_eliminate_yn p.left; right = expr_eliminate_yn p.right })
  eliminate_yn-Common p = record {
    restore = λ v. v;
    left_lem = sym (value-expr_eliminate_yn t settled p.left);
    right_lem = sym (value-expr_eliminate_yn t settled p.right);
    left_le = size-expr_eliminate_yn-le p.left;
    right_le = size-expr_eliminate_yn-le p.right;
  }

  -- `expr_eliminate_eq`, where the calls are right on pairs that are no larger and that have an
  -- operand to go down to.
  eliminate_both-Common :
      (again : Connective → Pair ℕ → Option (Pair ℕ)) (p : Pair ℕ)
      → ((c : Connective) (q : Pair ℕ)
          → pair_size q ≤ pair_size p
          → Descends c q
          → Returns (Removes Counts t c q) (again c q))
      → Returns (Common t p) (eliminate_both again p)
  unfolding eliminate_both pair_size
  eliminate_both-Common again p ok = Returns-bind first λ a ca.
      Returns-bind (second a (omega (arith, ca.left_le, ca.right_le)))
        λ b cb. returned (Common-trans t ca (Common-trans t cb (eliminate_yn-Common b)))
    where
      first : Returns (Common t p) (elim (connective p.left) [ some c ↦ again c p | none ↦ some p ])
      first = elim (Option-cases (connective p.left)) [
        | inl e ↦ rw e (returned (Common-refl t p))
        | inr (c, e) ↦ rw e (
            Returns-map (ok c p (omega arith) (λ k _. descends_left c p.left e k))
              λ q m. Removes-Common t c m)
      ]

      second :
          (a : Pair ℕ)
          → pair_size a ≤ pair_size p
          → Returns (Common t a) (elim (same_connective (connective a.left) (connective a.right)) [
            | true ↦ some a
            | false ↦ elim (connective a.right) [ some c ↦ again c a | none ↦ some a ]
          ])
      second a h = elim (Bool-cases (same_connective (connective a.left) (connective a.right))) [
        | inl same ↦ rw same (returned (Common-refl t a))
        | inr differ ↦ rw differ (elim (Option-cases (connective a.right)) [
          | inl e ↦ rw e (returned (Common-refl t a))
          | inr (c, e) ↦ rw e (
              Returns-map (ok c a h (λ _ k. descends_left c a.right e k))
                λ q m. Removes-Common t c m)
        ])
      ]

  eq_eliminated :
      (e1 e2 : Expr) (m : Option (Pair ℕ))
      → Returns (Common t (record { left = expr_copy e1; right = expr_copy e2; extra = 0 })) m
      → Returns (EqSound t e1 e2) (m >>= λ p. some (same_symbol p.left p.right))
  eq_eliminated e1 e2 _ (returned {a = p} c) = returned λ h.
      ap (value t) (sym (expr_copy_lem e1))
      ∙ c.left_lem
      ∙ ap c.restore (same_symbol-value t p.left p.right h)
      ∙ sym c.right_lem
      ∙ ap (value t) (expr_copy_lem e2)

  -- `expr_eq`, given what the two calls in it promise.
  eq_step-Sound :
      (again : Expr → Expr → Option Bool) (eliminate : Pair ℕ → Option (Pair ℕ)) (e1 e2 : Expr)
      → ((x y : Expr) → size x + size y < size e1 + size e2 → Returns (EqSound t x y) (again x y))
      → ((p : Pair ℕ) → pair_size p ≤ size e1 + size e2 → Returns (Common t p) (eliminate p))
      → Returns (EqSound t e1 e2) (eq_step again eliminate e1 e2)
  unfolding eq_step value size pair_size
  eq_step-Sound again eliminate (e_equal a b) (e_equal c d) ok ok' = returned (ground arith)
  eq_step-Sound again eliminate (e_unequal a b) (e_unequal c d) ok ok' = returned (ground arith)
  eq_step-Sound again eliminate (e_symbol a) (e_symbol b) ok ok' = returned (ground arith)
  eq_step-Sound again eliminate (e_not a) (e_not b) ok ok' =
      Returns-map (ok a b (omega arith)) λ q s h. ap expr_not (s h)
  eq_step-Sound again eliminate (e_and a b) (e_and c d) ok ok' =
      eq_eliminated (e_and a b) (e_and c d) _ (
        ok' _
          (omega (arith, ap size (expr_copy_lem (e_and a b)), ap size (expr_copy_lem (e_and c d)))))
  eq_step-Sound again eliminate (e_or a b) (e_or c d) ok ok' =
      eq_eliminated (e_or a b) (e_or c d) _ (
        ok' _
          (omega (arith, ap size (expr_copy_lem (e_or a b)), ap size (expr_copy_lem (e_or c d)))))
  eq_step-Sound again eliminate _ _ ok ok' = returned λ h. cc

  mutual
    unfolding eliminate_eq_type pair_size

    eliminate_eq_type-Removes :
        (f : ℕ) (c : Connective) (p : Pair ℕ)
        → 4 * pair_size p ≤ f + 3
        → (operands c p.left ≡ none → operands c p.right ≡ none → 4 * pair_size p ≤ f)
        → Returns (Removes Counts t c p) (eliminate_eq_type f c p)
    eliminate_eq_type-Removes zero c p h k = absurd (omega (arith, size_pos p.left))
    eliminate_eq_type-Removes (suc f) c p h k =
        eliminate_step-Removes t settled c (eliminate_eq_type f c) (expr_eq_fuel f) p
          (λ q lt. eliminate_eq_type-Removes f c q (omega arith) (λ _ _. omega arith))
          (λ i j. expr_eq_fuel-Sound f p.left p.right (omega (arith, k i j)))

    eliminate_eq_fuel-Common :
        (f : ℕ) (p : Pair ℕ)
        → 4 * pair_size p ≤ f + 2
        → Returns (Common t p) (eliminate_eq_fuel f p)
    eliminate_eq_fuel-Common zero p h = absurd (omega (arith, size_pos p.left))
    eliminate_eq_fuel-Common (suc f) p h =
        eliminate_both-Common (eliminate_eq_type f) p
          λ c q le d. eliminate_eq_type-Removes f c q (omega arith) (λ i j. absurd (d i j))

    expr_eq_fuel-Sound :
        (f : ℕ) (e1 e2 : Expr)
        → 4 * (size e1 + size e2) ≤ f + 1
        → Returns (EqSound t e1 e2) (expr_eq_fuel f e1 e2)
    expr_eq_fuel-Sound zero e1 e2 h = absurd (omega (arith, size_pos e1))
    expr_eq_fuel-Sound (suc f) e1 e2 h =
        eq_step-Sound (expr_eq_fuel f) (eliminate_eq_fuel f) e1 e2
          (λ x y lt. expr_eq_fuel-Sound f x y (omega arith))
          (λ p le. eliminate_eq_fuel-Common f p (omega arith))

  -- In every settled table `expr_eliminate_eq` returns two expressions, neither of them larger,
  -- from whose values one function gives back the values of the two it was given.
  pub expr_eliminate_eq-Common : (p : Pair ℕ) → Returns (Common t p) (expr_eliminate_eq p)
  unfolding expr_eliminate_eq pair_size
  expr_eliminate_eq-Common p =
      eliminate_eq_fuel-Common (4 * (size p.left + size p.right)) p (omega arith)

  -- In every settled table `expr_eq` returns, and two expressions that it finds equal have the same
  -- value.
  pub expr_eq-Sound :
      (e1 e2 : Expr) → Returns (λ b. b ≡ true → value t e1 ≡ value t e2) (expr_eq e1 e2)
  unfolding expr_eq
  expr_eq-Sound e1 e2 = expr_eq_fuel-Sound (4 * (size e1 + size e2)) e1 e2 (omega arith)
