-- ===== src/Expr/Dups/Ends.antt =====
-- build-tools/kconfig/expr.c: the loop of `expr_eliminate_dups` ends.
use mkrootfs.Base.{
  ℕ, zero, suc, ◌+◌, ◌≤◌, ◌<◌, ◌≡◌, ◌⊎◌, refl, sym, ap, subst, arith, Bool, true, inl, inr,
  Bool-cases, or-left, or-right, ◌||◌, [], Option, none, some, Option-cases, Returns, returned,
  Returns-bind, Returns-map,
}
use mkrootfs.Expr.{Expr, e_symbol, e_and, e_or, size, size_pos, is_symbol, symbol_no, symbol_yes}
use mkrootfs.Symbol.{Table}
use mkrootfs.Expr.Value.{value, IsSettled}
use mkrootfs.Expr.YesNo.{
  has_constant, expr_eliminate_yn, size-expr_eliminate_yn-le, size-and_yn-le, size-or_yn-le, and_yn,
  or_yn,
}
use mkrootfs.Expr.Eq.{Connective, connective}
use mkrootfs.Expr.Dups.{enough, Walk, dups1, dups2, dups_round, eliminate_dups, expr_eliminate_dups}
use mkrootfs.Expr.Dups.First.{dups1_root-Keeps}
use mkrootfs.Expr.Dups.Second.{dups2_root-Keeps}

-- The constants `y` and `n`, which stay what they are.
abbrev constant : Expr → Bool
constant e = is_symbol symbol_no e || is_symbol symbol_yes e

constant-expr_eliminate_yn : (e : Expr) → constant e ≡ true → constant (expr_eliminate_yn e) ≡ true
unfolding expr_eliminate_yn
constant-expr_eliminate_yn (e_symbol s) h = h
constant-expr_eliminate_yn _ h = cc

-- Removing a constant operand makes the tree smaller.
size-and_yn-lt :
    (l r : Expr) → (constant l || constant r) ≡ true → size (and_yn l r) < 1 + size l + size r
unfolding size
size-and_yn-lt l r h = ground (arith, size_pos l, size_pos r)

size-or_yn-lt :
    (l r : Expr) → (constant l || constant r) ≡ true → size (or_yn l r) < 1 + size l + size r
unfolding size
size-or_yn-lt l r h = ground (arith, size_pos l, size_pos r)

-- Where the constant operand is.
data Has (l r : Expr) : Type 0 where
  constant_left : constant l ≡ true → Has l r
  constant_right : constant r ≡ true → Has l r
  has_left : has_constant l ≡ true → Has l r
  has_right : has_constant r ≡ true → Has l r

Has-cases :
    (l r : Expr) → (constant l || constant r || has_constant l || has_constant r) ≡ true → Has l r
Has-cases l r h = elim (Bool-cases (constant l)) [
  | inl a ↦ constant_left a
  | inr a ↦ elim (Bool-cases (constant r)) [
    | inl b ↦ constant_right b
    | inr b ↦ elim (Bool-cases (has_constant l)) [
      | inl d ↦ has_left d
      | inr d ↦ has_right (ground arith)
    ]
  ]
]

-- The sum of the operands' sizes, where one of them gets smaller or a constant goes.
below_sum :
    (l r n x y : Expr)
    → Has l r
    → size x ≤ size l
    → size y ≤ size r
    → (has_constant l ≡ true → size x < size l)
    → (has_constant r ≡ true → size y < size r)
    → size n ≤ 1 + size x + size y
    → (constant l ≡ true → size n < 1 + size x + size y)
    → (constant r ≡ true → size n < 1 + size x + size y)
    → size n < 1 + size l + size r
below_sum l r n x y (constant_left h) a b c d e f g = let i = f h in omega arith
below_sum l r n x y (constant_right h) a b c d e f g = let i = g h in omega arith
below_sum l r n x y (has_left h) a b c d e f g = let i = c h in omega arith
below_sum l r n x y (has_right h) a b c d e f g = let i = d h in omega arith

size-expr_eliminate_yn-lt : (e : Expr) → has_constant e ≡ true → size (expr_eliminate_yn e) < size e
unfolding expr_eliminate_yn size
size-expr_eliminate_yn-lt (e_and l r) h =
    below_sum l r (and_yn (expr_eliminate_yn l) (expr_eliminate_yn r)) (expr_eliminate_yn l)
      (expr_eliminate_yn r) (Has-cases l r h) (size-expr_eliminate_yn-le l)
      (size-expr_eliminate_yn-le r) (size-expr_eliminate_yn-lt l) (size-expr_eliminate_yn-lt r)
      (size-and_yn-le (expr_eliminate_yn l) (expr_eliminate_yn r))
      (λ k.
        size-and_yn-lt (expr_eliminate_yn l) (expr_eliminate_yn r)
          (or-left _ _ (constant-expr_eliminate_yn l k)))
      (λ k.
        size-and_yn-lt (expr_eliminate_yn l) (expr_eliminate_yn r)
          (or-right _ _ (constant-expr_eliminate_yn r k)))
size-expr_eliminate_yn-lt (e_or l r) h =
    below_sum l r (or_yn (expr_eliminate_yn l) (expr_eliminate_yn r)) (expr_eliminate_yn l)
      (expr_eliminate_yn r) (Has-cases l r h) (size-expr_eliminate_yn-le l)
      (size-expr_eliminate_yn-le r) (size-expr_eliminate_yn-lt l) (size-expr_eliminate_yn-lt r)
      (size-or_yn-le (expr_eliminate_yn l) (expr_eliminate_yn r))
      (λ k.
        size-or_yn-lt (expr_eliminate_yn l) (expr_eliminate_yn r)
          (or-left _ _ (constant-expr_eliminate_yn l k)))
      (λ k.
        size-or_yn-lt (expr_eliminate_yn l) (expr_eliminate_yn r)
          (or-right _ _ (constant-expr_eliminate_yn r k)))
size-expr_eliminate_yn-lt _ h = cc

-- What a round leaves: no larger tree, and a count of zero or a constant operand.
record Rounded (e : Expr) (w : Walk) : Type 0 where
  smaller : size w.tree ≤ size e
  counted : (w.count ≡ 0) ⊎ (has_constant w.tree ≡ true)

enough_mono : (a b : ℕ) → a ≤ b → enough a ≤ enough b
unfolding enough
enough_mono zero b h = omega arith
enough_mono (suc a) zero h = omega arith
enough_mono (suc a) (suc b) h = omega (arith, enough_mono a b)

-- What the loop does with the count.
next_round :
    {P : Type 0} (m : ℕ) (e r : Expr) (o : Option Expr)
    → (m ≡ 0) ⊎ P
    → size r ≤ size e
    → (P → Returns (λ x. size x ≤ size e) o)
    → Returns (λ x. size x ≤ size e) (elim m [ zero ↦ some r | suc _ ↦ o ])
next_round zero e r o c h again = returned h
next_round (suc m) e r o (inl z) h again = ground arith
next_round (suc m) e r o (inr z) h again = again z

module _ (t : Table) (settled : IsSettled t) where
  second-Rounded :
      (fuel : ℕ) (e : Expr) (w : Walk)
      → Rounded e w
      → enough (size e) ≤ fuel
      → Returns
          (Rounded e)
          (elim (connective w.tree) [ some d ↦ dups2 fuel t d w [] [] | none ↦ some w ])
  second-Rounded fuel e w k f = elim (Option-cases (connective w.tree)) [
    | inl n ↦ rw (n) (returned k)
    | inr (d, s) ↦ rw (s) (
        Returns-map (dups2_root-Keeps t settled (size e) fuel d w s (k.smaller) f) (λ v i. record {
          smaller = let a = i.keeps_size in let b = k.smaller in omega arith;
          counted = elim (i.changes) [
            | inl x ↦ subst (λ m. (m.count ≡ 0) ⊎ (has_constant m.tree ≡ true)) (sym x) (k.counted)
            | inr x ↦ inr x
          ];
        }))
  ]

  dups_round-Rounded :
      (fuel : ℕ) (e : Expr) → enough (size e) ≤ fuel → Returns (Rounded e) (dups_round fuel t e)
  unfolding dups_round
  dups_round-Rounded fuel e f = elim (Option-cases (connective e)) [
    | inl n ↦ rw (n, dups_round) (returned (record { smaller = omega arith; counted = inl refl }))
    | inr (c, s) ↦
        rw (s, dups_round)
          (Returns-bind
            (dups1_root-Keeps t settled (size e) fuel c (record { tree = e; count = 0 }) s
              (omega arith) f)
            (λ w i.
              second-Rounded fuel e w
                (record {
                  smaller = i.keeps_size;
                  counted = elim (i.changes) [ inl x ↦ inl (ap (λ m. m.count) x) | inr x ↦ inr x ];
                })
                f))
  ]

  eliminate_dups-Returns :
      (rounds fuel : ℕ) (e : Expr)
      → size e ≤ rounds
      → enough (size e) ≤ fuel
      → Returns (λ r. size r ≤ size e) (eliminate_dups rounds fuel t e)
  unfolding eliminate_dups
  eliminate_dups-Returns zero fuel e n f = ground (arith, size_pos e)
  eliminate_dups-Returns (suc rounds) fuel e n f =
      Returns-bind (dups_round-Rounded fuel e f) (λ w k.
        next_round w.count e w.tree (eliminate_dups rounds fuel t (expr_eliminate_yn w.tree))
          k.counted k.smaller
          (λ h.
            let less = size-expr_eliminate_yn-lt w.tree h in
            let bound = k.smaller in
            let mono = enough_mono (size (expr_eliminate_yn w.tree)) (size e) (omega arith) in
            Returns-map
              (eliminate_dups-Returns rounds fuel (expr_eliminate_yn w.tree) (omega arith)
                (omega arith))
              (λ r z. omega arith)))

  -- In every settled table `expr_eliminate_dups` returns: its loop ends for every expression that is not
  -- null. The result is not null and not larger than the expression.
  pub expr_eliminate_dups-Returns :
      (e : Expr)
      → Returns
          (λ o. (r : Expr) × (o ≡ some r) × (size r ≤ size e))
          (expr_eliminate_dups t (some e))
  unfolding expr_eliminate_dups
  expr_eliminate_dups-Returns e =
      Returns-bind (eliminate_dups-Returns (size e) (enough (size e)) e (omega arith) (omega arith))
        (λ r z. returned (r, refl, z))

  -- In every settled table the first pass of `expr_eliminate_dups` over a conjunction or disjunction ends
  -- and keeps its value.
  pub dups1-value :
      (c : Connective) (w : Walk)
      → connective w.tree ≡ some c
      → Returns (λ v. value t v.tree ≡ value t w.tree) (dups1 (enough (size w.tree)) t c w [] [])
  dups1-value c w k =
      Returns-map
        (dups1_root-Keeps t settled (size w.tree) (enough (size w.tree)) c w k (omega arith)
          (omega arith))
        (λ v i. i.keeps_value refl)
