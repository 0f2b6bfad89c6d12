-- ===== src/Expr/Dups/Joined.antt =====
-- build-tools/kconfig/expr.c: what `expr_join_or` and `expr_join_and` give for two operands.
use mkrootfs.Base.{
  ℕ, ◌≡◌, ◌⊎◌, sym, ◌∙◌, subst, arith, Bool, true, false, inl, inr, if◌then◌else◌, Option, none,
  some, ◌>>=◌, some_inj, Option-cases, Returns, returned, Returns-bind, Returns-map, Returns-elim,
}
use mkrootfs.Expr.{Expr, e_symbol, e_not, e_equal, e_unequal, size, expr_copy}
use mkrootfs.Symbol.{Table}
use mkrootfs.Expr.Value.{value, IsSettled}
use mkrootfs.Expr.Eq.{Connective, conj, disj, connective}
use mkrootfs.Expr.Eq.Removes.{op, expr_copy_lem}
use mkrootfs.Expr.Eq.Sound.{expr_eq-Sound}
use mkrootfs.Expr.Join.{or_rules, and_rules, common_symbol, join_by, expr_join_or, expr_join_and}
use mkrootfs.Expr.Join.Sound.{expr_join_or-JoinsTo, expr_join_and-JoinsTo}
use mkrootfs.Expr.Dups.{join}

-- A symbol or a comparison.
abbrev IsSmall : Expr → Type 0
IsSmall r = (connective r ≡ none) × (size r ≡ 1)

or_rules-IsSmall : (t : Table) (s : ℕ) (e1 e2 r : Expr) → or_rules t s e1 e2 ≡ some r → IsSmall r
unfolding or_rules size
or_rules-IsSmall t s (e_equal a b) (e_equal x c) r h = ground arith
or_rules-IsSmall t s (e_not (e_symbol a)) (e_symbol b) r h = ground arith
or_rules-IsSmall t s (e_symbol a) (e_not (e_symbol b)) r h = ground arith
or_rules-IsSmall t s _ _ r h = cc

and_rules-IsSmall : (t : Table) (s : ℕ) (e1 e2 r : Expr) → and_rules t s e1 e2 ≡ some r → IsSmall r
unfolding and_rules size
and_rules-IsSmall t s (e_symbol a) (e_equal x b) r h = ground arith
and_rules-IsSmall t s (e_equal x b) (e_symbol a) r h = ground arith
and_rules-IsSmall t s (e_symbol a) (e_unequal x b) r h = ground arith
and_rules-IsSmall t s (e_unequal x b) (e_symbol a) r h = ground arith
and_rules-IsSmall t s (e_equal x b) (e_unequal y c) r h = ground arith
and_rules-IsSmall t s (e_unequal y c) (e_equal x b) r h = ground arith
and_rules-IsSmall t s (e_unequal x b) (e_unequal y c) r h = ground arith
and_rules-IsSmall t s _ _ r h = cc

Returns-both :
    {A : Type 0} {P Q : A → Type 0} {m : Option A}
    → Returns P m
    → Returns Q m
    → Returns (λ a. P a × Q a) m
Returns-both {P = P} p (returned {a = b} q) =
    let (a, e, h) = Returns-elim p in returned (subst P (sym (some_inj e)) h, q)

none-ne : {A : Type 0} {r : Expr} → none ≡ some r → A
none-ne h = cc

module _ (t : Table) (settled : IsSettled t) where
  join_by-IsSmall :
      (rules : Table → ℕ → Expr → Expr → Option Expr) (e1 e2 : Expr)
      → ((s : ℕ) (r : Expr) → rules t s e1 e2 ≡ some r → IsSmall r)
      → Returns (λ o. (r : Expr) → o ≡ some r → (r ≡ e1) ⊎ IsSmall r) (join_by rules t e1 e2)
  join_by-IsSmall rules e1 e2 ok =
      Returns-bind (expr_eq-Sound t settled e1 e2) λ same s. returned (rest same)
    where
      rest :
          (same : Bool) (r : Expr)
          → (if same then some (expr_copy e1) else (common_symbol t e1 e2 >>= λ s. rules t s e1 e2))
            ≡ some r
          → (r ≡ e1) ⊎ IsSmall r
      rest true r h = inl (sym (some_inj h) ∙ expr_copy_lem e1)
      rest false r h = elim (Option-cases (common_symbol t e1 e2)) [
        | inl e ↦ none-ne (subst (λ o. (o >>= λ s. rules t s e1 e2) ≡ some r) e h)
        | inr (x, e) ↦ inr (ok x r (subst (λ o. (o >>= λ s. rules t s e1 e2) ≡ some r) e h))
      ]

  -- Two operands join to the first or to a symbol or comparison, of their joint value.
  pub join-Joined :
      (c : Connective) (e1 e2 : Expr)
      → Returns
          (λ o.
            (r : Expr)
            → o ≡ some r
            → ((r ≡ e1) ⊎ IsSmall r) × (value t r ≡ op c (value t e1) (value t e2)))
          (join c t e1 e2)
  unfolding expr_join_and expr_join_or
  join-Joined conj e1 e2 =
      Returns-map
        (Returns-both (join_by-IsSmall and_rules e1 e2 (λ s. and_rules-IsSmall t s e1 e2))
          (expr_join_and-JoinsTo t settled e1 e2))
        (λ o h r e. (h.0 r e, h.1 r e))
  join-Joined disj e1 e2 =
      Returns-map
        (Returns-both (join_by-IsSmall or_rules e1 e2 (λ s. or_rules-IsSmall t s e1 e2))
          (expr_join_or-JoinsTo t settled e1 e2))
        (λ o h r e. (h.0 r e, h.1 r e))
