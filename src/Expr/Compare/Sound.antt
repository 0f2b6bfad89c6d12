-- ===== src/Expr/Compare/Sound.antt =====
-- build-tools/kconfig/expr.c: `expr_trans_bool` and `expr_trans_compare` against the value of an
-- expression.
use mkrootfs.Base.{
  ◌≡◌, ◌≢◌, refl, ap₂, ◌∙◌, arith, true, Option, some, ◌>>=◌, if◌then◌else◌, Returns, returned,
  Returns-map,
}
use mkrootfs.Tristate.{Tristate, tri_no, tri_mod, tri_yes, expr_and, expr_or, expr_not, tri_eq}
use mkrootfs.Expr.{Expr, e_symbol, e_not, e_and, e_or, e_equal, e_unequal, expr_copy}
use mkrootfs.Symbol.{Table}
use mkrootfs.Expr.Value.{value, IsSettled}
use mkrootfs.Expr.Value.Constants.{value-equal, value-unequal, compares_as_tri, const_of}
use mkrootfs.Expr.Transform.Sound.{negates_symbols}
use mkrootfs.Expr.Compare.{
  trans_bool, Comparison, equal, unequal, flip, negate_unequal, compare_leaf, join_two,
  trans_compare,
}

-- The answer of a comparison of two values.
abbrev pub compare_tri : Comparison → Tristate → Tristate → Tristate
compare_tri equal a b = if tri_eq a b then tri_yes else tri_no
compare_tri unequal a b = if tri_eq a b then tri_no else tri_yes

-- The symbols that `e` reads as values are boolean or tristate, and what it negates is not `m`.
abbrev pub IsExact : Table → Expr → Type 0
IsExact t (e_symbol s) = compares_as_tri (t s).type ≡ true
IsExact t (e_and l r) = IsExact t l × IsExact t r
IsExact t (e_or l r) = IsExact t l × IsExact t r
IsExact t (e_not e) = (value t e ≢ tri_mod) × IsExact t e
IsExact t (e_equal _ _) = Unit
IsExact t (e_unequal _ _) = Unit

compare_flip :
    (type : Comparison) (a v : Tristate)
    → a ≢ tri_mod
    → v ≢ tri_mod
    → compare_tri (flip type) a v ≡ compare_tri type (expr_not a) v
compare_flip equal a v h k = ground arith
compare_flip unequal a v h k = ground arith

module _ (t : Table) (settled : IsSettled t) where
  -- The result `r` answers whether the value `a` compares with `v`.
  abbrev Answers : Comparison → Tristate → Tristate → Expr → Type 0
  Answers type a v r = value t r ≡ compare_tri type a v

  Answers-negate :
      (type : Comparison) (a v : Tristate) (r : Expr)
      → Answers equal a v r
      → Answers type a v (negate_unequal type r)
  unfolding value
  Answers-negate equal a v r h = h
  Answers-negate unequal a v r h = ground arith

  Answers-join :
      (two : Expr → Expr → Expr) (op : Tristate → Tristate → Tristate)
      → ((l r : Expr) → value t (two l r) ≡ op (value t l) (value t r))
      → (type : Comparison) (a b c v : Tristate) (m n : Option Expr)
      → op (compare_tri equal a v) (compare_tri equal b v) ≡ compare_tri equal c v
      → Returns (Answers equal a v) m
      → Returns (Answers equal b v) n
      → Returns (Answers type c v) (join_two two m n >>= λ e. some (negate_unequal type e))
  Answers-join two op law type a b c v _ _ same (returned {a = l} p) (returned {a = r} q) =
      returned (Answers-negate type c v (two l r) (law l r ∙ ap₂ op p q ∙ same))

  compare_leaf-Answers :
      (type : Comparison) (v : Tristate) (e : Expr)
      → v ≢ tri_mod
      → value t e ≢ tri_mod
      → expr_copy e ≡ e
      → Returns (Answers type (value t e) v) (compare_leaf type (const_of v) e)
  unfolding value
  compare_leaf-Answers equal tri_no e h k c = returned (rw c (ground arith))
  compare_leaf-Answers equal tri_yes e h k c = returned (rw c (ground arith))
  compare_leaf-Answers unequal tri_no e h k c = returned (rw c (ground arith))
  compare_leaf-Answers unequal tri_yes e h k c = returned (rw c (ground arith))
  compare_leaf-Answers _ tri_mod e h k c = absurd (h refl)

  -- In a settled table, comparing an exact expression with `y` or `n` returns an expression that
  -- is `y` where the comparison of the value holds and `n` where it does not.
  pub trans_compare-Answers :
      (e : Expr) (type : Comparison) (v : Tristate)
      → v ≢ tri_mod
      → IsExact t e
      → Returns
          (λ r. value t r ≡ compare_tri type (value t e) v)
          (trans_compare e type (const_of v))
  unfolding trans_compare value expr_copy
  trans_compare-Answers (e_and l r) type tri_no h x =
      Answers-join e_or expr_or (λ _ _. refl) type (value t l) (value t r) _ tri_no _ _
        (ground arith) (trans_compare-Answers l equal tri_no h x.0)
        (trans_compare-Answers r equal tri_no h x.1)
  trans_compare-Answers (e_and l r) type tri_yes h x =
      Answers-join e_and expr_and (λ _ _. refl) type (value t l) (value t r) _ tri_yes _ _
        (ground arith) (trans_compare-Answers l equal tri_yes h x.0)
        (trans_compare-Answers r equal tri_yes h x.1)
  trans_compare-Answers (e_or l r) type tri_no h x =
      Answers-join e_and expr_and (λ _ _. refl) type (value t l) (value t r) _ tri_no _ _
        (ground arith) (trans_compare-Answers l equal tri_no h x.0)
        (trans_compare-Answers r equal tri_no h x.1)
  trans_compare-Answers (e_or l r) type tri_yes h x =
      Answers-join e_or expr_or (λ _ _. refl) type (value t l) (value t r) _ tri_yes _ _
        (ground arith) (trans_compare-Answers l equal tri_yes h x.0)
        (trans_compare-Answers r equal tri_yes h x.1)
  trans_compare-Answers (e_not e) type v h x =
      Returns-map (trans_compare-Answers e (flip type) v h x.1)
        λ r p. p ∙ compare_flip type (value t e) v x.0 h
  trans_compare-Answers (e_symbol s) equal v h x = returned (value-equal t settled s v x)
  trans_compare-Answers (e_symbol s) unequal v h x = returned (value-unequal t settled s v x)
  trans_compare-Answers (e_equal a b) type v h x =
      compare_leaf-Answers type v (e_equal a b) h (ground arith) refl
  trans_compare-Answers (e_unequal a b) type v h x =
      compare_leaf-Answers type v (e_unequal a b) h (ground arith) refl
  trans_compare-Answers _ type tri_mod h x = absurd (h refl)

  -- Where negation stands at symbols only, `expr_trans_bool` keeps which expressions are `no`.
  pub trans_bool-eq_no :
      (e : Expr)
      → negates_symbols e ≡ true
      → tri_eq (value t (trans_bool t e)) tri_no ≡ tri_eq (value t e) tri_no
  unfolding trans_bool value
  trans_bool-eq_no (e_and l r) h = ground (arith, trans_bool-eq_no l, trans_bool-eq_no r)
  trans_bool-eq_no (e_or l r) h = ground (arith, trans_bool-eq_no l, trans_bool-eq_no r)
  trans_bool-eq_no (e_unequal a b) h = ground (arith, value-unequal t settled a tri_no)
  trans_bool-eq_no (e_not (e_symbol s)) h = refl
  trans_bool-eq_no (e_symbol s) h = refl
  trans_bool-eq_no (e_equal a b) h = refl
  trans_bool-eq_no _ h = cc
