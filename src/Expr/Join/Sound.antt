-- ===== src/Expr/Join/Sound.antt =====
-- build-tools/kconfig/expr.c: `expr_join_or` and `expr_join_and` against the value of an expression.
use mkrootfs.Base.{
  ℕ, ◌≡◌, refl, sym, ap, ◌∙◌, arith, Bool, true, false, if◌then◌else◌, Option, none, some, some_inj,
  Option-cases, inl, inr, ◌>>=◌, String, str_eq, eq_iff, Returns, returned, Returns-bind,
}
use mkrootfs.Tristate.{Tristate, tri_no, tri_mod, tri_yes, expr_and, expr_or, expr_not}
use mkrootfs.Tristate.Laws.{or_idem, and_idem, or_comm, and_comm}
use mkrootfs.Expr.{Expr, e_symbol, e_not, e_equal, e_unequal, expr_copy}
use mkrootfs.Symbol.{sym_get_string_value, Table}
use mkrootfs.Expr.Value.{value, IsSettled, value_yes}
use mkrootfs.Expr.Value.Constants.{compares_as_tri, value-equal, value-unequal}
use mkrootfs.Expr.Eq.Removes.{expr_copy_lem}
use mkrootfs.Expr.Eq.Sound.{expr_eq-Sound}
use mkrootfs.Expr.Join.{
  first_symbol, second_symbol, common_symbol, or_rules, and_rules, and_equal, and_unequal,
  and_constants, join_by, expr_join_or, expr_join_and,
}

-- What is about a symbol: the two expressions have it as first and second symbol.
record IsAbout (t : Table) (s : ℕ) (e1 e2 : Expr) : Type 0 where
  first : first_symbol e1 ≡ some s
  second : second_symbol e2 ≡ some s
  tri : compares_as_tri (t s).type ≡ true

common_symbol-IsAbout :
    (t : Table) (e1 e2 : Expr) {s : ℕ} → common_symbol t e1 e2 ≡ some s → IsAbout t s e1 e2
common_symbol-IsAbout t e1 e2 h = ground arith

-- The value of a result that is not null.
abbrev pub JoinsTo : Table → Tristate → Option Expr → Type 0
JoinsTo t v o = (r : Expr) → o ≡ some r → value t r ≡ v

text_differs : (x y z : String) → str_eq x y ≡ true → str_eq y z ≡ false → str_eq x z ≡ false
text_differs x y z h k = rw ((eq_iff x y).0 h) k

JoinsTo-none : (t : Table) (v : Tristate) → JoinsTo t v none
JoinsTo-none t v r h = cc

module _ (t : Table) (settled : IsSettled t) (s : ℕ) (tri : compares_as_tri (t s).type ≡ true) where
  or_equal-JoinsTo :
      (b c : ℕ)
      → JoinsTo t
          (expr_or (value t (e_equal s b)) (value t (e_equal s c)))
          (or_rules t s (e_equal s b) (e_equal s c))
  unfolding or_rules
  or_equal-JoinsTo b c r h = ground (
    arith,
    value-equal t settled s tri_no tri,
    value-equal t settled s tri_mod tri,
    value-equal t settled s tri_yes tri,
    value-unequal t settled s tri_no tri,
    value-unequal t settled s tri_mod tri,
    value-unequal t settled s tri_yes tri,
  )

  or_not-JoinsTo :
      JoinsTo t
        (expr_or (expr_not (t s).curr.tri) (t s).curr.tri)
        (or_rules t s (e_not (e_symbol s)) (e_symbol s))
  unfolding or_rules
  or_not-JoinsTo r h = ground (arith, settled.boolean_ne s, value_yes t settled)

  and_equal-JoinsTo :
      (b : ℕ) → JoinsTo t (expr_and (t s).curr.tri (value t (e_equal s b))) (and_equal s b)
  and_equal-JoinsTo b r h = ground (arith, value-equal t settled s tri_yes tri)

  and_unequal-JoinsTo :
      (b : ℕ) → JoinsTo t (expr_and (t s).curr.tri (value t (e_unequal s b))) (and_unequal s b)
  unfolding value
  and_unequal-JoinsTo b r h = ground (
    arith,
    value-equal t settled s tri_yes tri,
    value-unequal t settled s tri_no tri,
    value-unequal t settled s tri_mod tri,
  )

  and_constants-JoinsTo :
      (b c : ℕ)
      → JoinsTo t
          (expr_and (value t (e_equal s b)) (value t (e_unequal s c)))
          (and_constants t s b c)
  unfolding value
  and_constants-JoinsTo b c r h = ground (
    arith,
    settled.no_lem,
    settled.const_ne b c,
    text_differs (sym_get_string_value (t s)) (sym_get_string_value (t b))
        (sym_get_string_value (t c)),
  )

  and_unequals-JoinsTo :
      (b c : ℕ)
      → JoinsTo t
          (expr_and (value t (e_unequal s b)) (value t (e_unequal s c)))
          (and_rules t s (e_unequal s b) (e_unequal s c))
  unfolding and_rules
  and_unequals-JoinsTo b c r h = ground (
    arith,
    value-equal t settled s tri_no tri,
    value-equal t settled s tri_mod tri,
    value-equal t settled s tri_yes tri,
    value-unequal t settled s tri_no tri,
    value-unequal t settled s tri_mod tri,
    value-unequal t settled s tri_yes tri,
  )

module _ (t : Table) (settled : IsSettled t) (s : ℕ) where
  or_rules-JoinsTo :
      (e1 e2 : Expr)
      → IsAbout t s e1 e2
      → JoinsTo t (expr_or (value t e1) (value t e2)) (or_rules t s e1 e2)
  unfolding or_rules value
  or_rules-JoinsTo (e_equal a b) (e_equal a' c) h =
      rw (some_inj h.first, some_inj h.second) (or_equal-JoinsTo t settled s h.tri b c)
  or_rules-JoinsTo (e_not (e_symbol a)) (e_symbol a') h =
      rw (some_inj h.first, some_inj h.second) (or_not-JoinsTo t settled s h.tri)
  or_rules-JoinsTo (e_symbol a) (e_not (e_symbol a')) h =
      rw (some_inj h.first, some_inj h.second, or_comm (t s).curr.tri (expr_not (t s).curr.tri))
        (or_not-JoinsTo t settled s h.tri)
  or_rules-JoinsTo e1 e2 h = JoinsTo-none t (expr_or (value t e1) (value t e2))

  and_rules-JoinsTo :
      (e1 e2 : Expr)
      → IsAbout t s e1 e2
      → JoinsTo t (expr_and (value t e1) (value t e2)) (and_rules t s e1 e2)
  unfolding and_rules value
  and_rules-JoinsTo (e_symbol a) (e_equal a' b) h =
      rw (some_inj h.first, some_inj h.second) (and_equal-JoinsTo t settled s h.tri b)
  and_rules-JoinsTo (e_equal a b) (e_symbol a') h =
      rw (some_inj h.first, some_inj h.second, and_comm (value t (e_equal s b)) (t s).curr.tri)
        (and_equal-JoinsTo t settled s h.tri b)
  and_rules-JoinsTo (e_symbol a) (e_unequal a' b) h =
      rw (some_inj h.first, some_inj h.second) (and_unequal-JoinsTo t settled s h.tri b)
  and_rules-JoinsTo (e_unequal a b) (e_symbol a') h =
      rw (some_inj h.first, some_inj h.second, and_comm (value t (e_unequal s b)) (t s).curr.tri)
        (and_unequal-JoinsTo t settled s h.tri b)
  and_rules-JoinsTo (e_equal a b) (e_unequal a' c) h =
      rw (some_inj h.first, some_inj h.second) (and_constants-JoinsTo t settled s h.tri b c)
  and_rules-JoinsTo (e_unequal a c) (e_equal a' b) h =
      rw
        (
          some_inj h.first,
          some_inj h.second,
          and_comm (value t (e_unequal s c)) (value t (e_equal s b)),
        )
        (and_constants-JoinsTo t settled s h.tri b c)
  and_rules-JoinsTo (e_unequal a b) (e_unequal a' c) h =
      rw (some_inj h.first, some_inj h.second) (and_unequals-JoinsTo t settled s h.tri b c)
  and_rules-JoinsTo e1 e2 h = JoinsTo-none t (expr_and (value t e1) (value t e2))

module _ (t : Table) (settled : IsSettled t) where
  join_by-JoinsTo :
      (rules : Table → ℕ → Expr → Expr → Option Expr) (f : Tristate → Tristate → Tristate)
      → ((a : Tristate) → f a a ≡ a)
      → (e1 e2 : Expr)
      → ((s : ℕ) → IsAbout t s e1 e2 → JoinsTo t (f (value t e1) (value t e2)) (rules t s e1 e2))
      → Returns (JoinsTo t (f (value t e1) (value t e2))) (join_by rules t e1 e2)
  join_by-JoinsTo rules f idem e1 e2 ok =
      Returns-bind (expr_eq-Sound t settled e1 e2) λ same s. returned (rest same s)
    where
      rest :
          (same : Bool)
          → (same ≡ true → value t e1 ≡ value t e2)
          → JoinsTo t (f (value t e1) (value t e2)) (
              if same
              then some (expr_copy e1)
              else (common_symbol t e1 e2 >>= λ s. rules t s e1 e2))
      rest true s r = λ h.
          ap (value t) (sym (some_inj h) ∙ expr_copy_lem e1)
          ∙ sym (idem (value t e1))
          ∙ ap (f (value t e1)) (s refl)
      rest false s r = elim (Option-cases (common_symbol t e1 e2)) [
        | inl e ↦ rw e (JoinsTo-none t (f (value t e1) (value t e2)) r)
        | inr (x, e) ↦ rw e (ok x (common_symbol-IsAbout t e1 e2 e) r)
      ]

  -- In every settled table `expr_join_or` returns, and what it returns, if not null, has the value
  -- of the disjunction.
  pub expr_join_or-JoinsTo :
      (e1 e2 : Expr)
      → Returns
          (λ o. (r : Expr) → o ≡ some r → value t r ≡ expr_or (value t e1) (value t e2))
          (expr_join_or t e1 e2)
  unfolding expr_join_or
  expr_join_or-JoinsTo e1 e2 =
      join_by-JoinsTo or_rules expr_or or_idem e1 e2 (λ s. or_rules-JoinsTo t settled s e1 e2)

  -- In every settled table `expr_join_and` returns, and what it returns, if not null, has the value
  -- of the conjunction.
  pub expr_join_and-JoinsTo :
      (e1 e2 : Expr)
      → Returns
          (λ o. (r : Expr) → o ≡ some r → value t r ≡ expr_and (value t e1) (value t e2))
          (expr_join_and t e1 e2)
  unfolding expr_join_and
  expr_join_and-JoinsTo e1 e2 =
      join_by-JoinsTo and_rules expr_and and_idem e1 e2 (λ s. and_rules-JoinsTo t settled s e1 e2)
