-- ===== src/Calc/Total.antt =====
-- build-tools/kconfig/symbol.c and expr.c: `expr_calc_value` and the search for properties in states
-- with the invariant of the calculation. The recursive calls of `sym_calc_value` are a parameter.
pub mod Steps
pub mod Range
pub mod Values
pub mod Marks
pub mod Main
use mkrootfs.Base.{
  ℕ, zero, suc, ◌<◌, ◌≡◌, ◌≢◌, refl, arith, Bool, true, false, List, [], ◌∷◌, Option, none, some,
  Returns, returned,
}
use mkrootfs.Tristate.{Tristate, tri_no, tri_mod, tri_eq}
use mkrootfs.Expr.{Expr, e_symbol, e_not, e_and, e_or, e_equal, e_unequal}
use mkrootfs.Symbol.{
  is_boolean, Payload, p_null, p_expr, p_list, p_bounds, Property, PropType, Val, null, text,
  symbol, Now,
}
use mkrootfs.Config.{
  Decls, State, M, ◌>>=◌, return, gets, modify, change, with_prop_tri, prop_get_symbol,
}
use mkrootfs.Config.Keeps.{
  Gives, Keeps, Gives-bind, Keeps-bind, Gives-return, Keeps-return, Keeps-gets, Gives-elim, Holds,
}
use mkrootfs.Calc.Expression.{Calc, calc_expr, calc_optional, calc_prop, first_visible}
use mkrootfs.Calc.Visibility.{
  is_default, prompts_visibility, set_visible, set_rev_dep, rev_dep_value, sym_calc_visibility,
  if_visible, first_value, default_value, user_choice, any_value, sym_calc_choice, choice_values,
}
use mkrootfs.Calc.Invariant.{
  Past, kept-none, Inv, Quiet, Quiet-refl, Quiet-trans, Quiet-change, Quiet-set_changed, Inv-Quiet,
}

-- All symbols of an expression lie below `k`.
abbrev pub Below : ℕ → Expr → Type 0
Below k (e_symbol s) = s < k
Below k (e_not e) = Below k e
Below k (e_and l r) = Below k l × Below k r
Below k (e_or l r) = Below k l × Below k r
Below k (e_equal a b) = (a < k) × (b < k)
Below k (e_unequal a b) = (a < k) × (b < k)

abbrev pub OptionBelow : ℕ → Option Expr → Type 0
OptionBelow k none = Unit
OptionBelow k (some e) = Below k e

abbrev pub PayloadBelow : ℕ → Payload → Type 0
PayloadBelow k p_null = Unit
PayloadBelow k (p_expr e) = Below k e
PayloadBelow k (p_list _) = Unit
PayloadBelow k (p_bounds a b) = (a < k) × (b < k)

abbrev pub PropsBelow : ℕ → List Property → Type 0
PropsBelow k [] = Unit
PropsBelow k (p ∷ ps) = (OptionBelow k p.visible_expr × PayloadBelow k p.expr) × PropsBelow k ps

-- The declarations name no symbol from `bound` on.
pub record IsClosed (d : Decls) : Type 0 where
  pub props_lem : (s : ℕ) → PropsBelow d.bound (d.decl_of s).prop
  pub rev_dep_lem : (s : ℕ) → OptionBelow d.bound (d.decl_of s).rev_dep_expr

-- The property that a search found names no symbol from `k` on.
abbrev pub FoundBelow : ℕ → Option (Property × Tristate) → Type 0
FoundBelow k none = Unit
FoundBelow k (some (p, _)) = PayloadBelow k p.expr

module _ (d : Decls) (past : Past) (n : ℕ) (calc : Calc)
    (ok : (s : ℕ) → s < d.bound → Keeps (Inv d past n) (calc s)) where
  pub calc_expr-Keeps : (e : Expr) → Below d.bound e → Keeps (Inv d past n) (calc_expr d calc e)
  unfolding calc_expr
  calc_expr-Keeps (e_symbol s) h =
      Keeps-bind (Inv d past n) _ _ (ok s h) λ _. Keeps-gets (Inv d past n) _
  calc_expr-Keeps (e_not e) h =
      Keeps-bind (Inv d past n) _ _ (calc_expr-Keeps e h) λ _. Keeps-return (Inv d past n) _
  calc_expr-Keeps (e_and l r) h =
      Keeps-bind (Inv d past n) _ _ (calc_expr-Keeps l h.0) λ _.
        Keeps-bind (Inv d past n) _ _ (calc_expr-Keeps r h.1) λ _. Keeps-return (Inv d past n) _
  calc_expr-Keeps (e_or l r) h =
      Keeps-bind (Inv d past n) _ _ (calc_expr-Keeps l h.0) λ _.
        Keeps-bind (Inv d past n) _ _ (calc_expr-Keeps r h.1) λ _. Keeps-return (Inv d past n) _
  calc_expr-Keeps (e_equal a b) h =
      Keeps-bind (Inv d past n) _ _ (ok a h.0)
        λ _. Keeps-bind (Inv d past n) _ _ (ok b h.1) λ _. Keeps-gets (Inv d past n) _
  calc_expr-Keeps (e_unequal a b) h =
      Keeps-bind (Inv d past n) _ _ (ok a h.0)
        λ _. Keeps-bind (Inv d past n) _ _ (ok b h.1) λ _. Keeps-gets (Inv d past n) _

  pub calc_optional-Keeps :
      (o : Option Expr) → OptionBelow d.bound o → Keeps (Inv d past n) (calc_optional d calc o)
  calc_optional-Keeps none h = Keeps-return (Inv d past n) _
  calc_optional-Keeps (some e) h = calc_expr-Keeps e h

  pub calc_prop-Keeps :
      (s i : ℕ) (p : Property)
      → OptionBelow d.bound p.visible_expr
      → Keeps (Inv d past n) (calc_prop d calc s i p)
  calc_prop-Keeps s i p h =
      Keeps-bind (Inv d past n) _ _ (calc_optional-Keeps p.visible_expr h) λ tri st inv.
        returned (record {
          value_lem = tt;
          state_lem = Inv-Quiet (Quiet-change s (with_prop_tri i tri) st refl refl refl refl) inv;
        })

  pub first_visible-Gives :
      (wanted : PropType → Bool) (s i : ℕ) (ps : List Property)
      → PropsBelow d.bound ps
      → Gives (Inv d past n) (FoundBelow d.bound) (first_visible d wanted calc s i ps)
  unfolding first_visible
  first_visible-Gives wanted s i [] h = Gives-return (Inv d past n) (FoundBelow d.bound) none tt
  first_visible-Gives wanted s i (p ∷ ps) h =
      let ih = first_visible-Gives wanted s (suc i) ps h.1 in
      Gives-elim (Inv d past n) (FoundBelow d.bound) (wanted p.type) _ _
        (Gives-bind (Inv d past n) (λ _. Unit) (FoundBelow d.bound) _ _
          (calc_prop-Keeps s i p h.0.0)
          λ tri _.
            Gives-elim (Inv d past n) (FoundBelow d.bound) (tri_eq tri tri_no) _ _ ih
              (Gives-return (Inv d past n) (FoundBelow d.bound) (some (p, tri)) h.0.1))
        ih
