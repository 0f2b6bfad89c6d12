-- ===== src/Expr/Transform/Sound.antt =====
-- build-tools/kconfig/expr.c: `expr_transform` with enough fuel, against the value of an expression.
use mkrootfs.Base.{
  ℕ, zero, suc, ◌≤◌, ◌≡◌, refl, sym, ap, ap₂, ◌∙◌, arith, Bool, true, false, Option, Returns,
  returned, Returns-bind, Returns-map, ◌&&◌,
}
use mkrootfs.Tristate.{tri_no, tri_mod, tri_yes, expr_and, expr_or, expr_not}
use mkrootfs.Tristate.Laws.{not-not, not-or, not-and}
use mkrootfs.Expr.{Expr, e_symbol, e_not, e_and, e_or, e_equal, e_unequal}
use mkrootfs.Symbol.{Table}
use mkrootfs.Expr.Value.Constants.{value-equal, value-unequal, not-equal, not-unequal}
use mkrootfs.Expr.Value.{value, IsSettled}
use mkrootfs.Expr.Transform.{
  transform, transform_not, transform_equal, transform_unequal, transform_not_symbol, weight,
  expr_transform,
}

pub weight_pos : (e : Expr) → 1 ≤ weight e
unfolding weight
weight_pos (e_not e) = omega (arith, weight_pos e)
weight_pos (e_and l r) = omega arith
weight_pos _ = omega arith

-- Negation stands at symbols only.
abbrev pub negates_symbols : Expr → Bool
negates_symbols (e_not (e_symbol _)) = true
negates_symbols (e_not _) = false
negates_symbols (e_and l r) = negates_symbols l && negates_symbols r
negates_symbols (e_or l r) = negates_symbols l && negates_symbols r
negates_symbols _ = true

-- What a call on `e` that gives `r` promises.
pub record Transforms (t : Table) (e r : Expr) : Type 0 where
  pub keeps : value t r ≡ value t e
  pub negated : negates_symbols r ≡ true
  pub lighter : weight r ≤ weight e

module _ (t : Table) (settled : IsSettled t) where
  value-transform_equal : (a b : ℕ) → value t (transform_equal t a b) ≡ value t (e_equal a b)
  unfolding value
  value-transform_equal a b = ground (
    arith,
    value-equal t settled a tri_no,
    value-equal t settled a tri_mod,
    value-equal t settled a tri_yes,
    settled.no_lem,
    settled.boolean_ne a,
  )

  value-transform_unequal : (a b : ℕ) → value t (transform_unequal t a b) ≡ value t (e_unequal a b)
  unfolding value
  value-transform_unequal a b = ground (
    arith,
    value-unequal t settled a tri_no,
    value-unequal t settled a tri_mod,
    value-unequal t settled a tri_yes,
    settled.yes_lem,
    settled.boolean_ne a,
  )

  value-transform_not_symbol :
      (s : ℕ) → value t (transform_not_symbol s) ≡ expr_not (value t (e_symbol s))
  unfolding value
  value-transform_not_symbol s = ground (arith, settled.no_lem, settled.mod_lem, settled.yes_lem)

  -- `again` is a call with fuel for the weight `n`.
  transform_not-Transforms :
      (n : ℕ) (again : Expr → Option Expr)
      → ((x : Expr) → weight x ≤ n → Returns (Transforms t x) (again x))
      → (e : Expr) → weight (e_not e) ≤ suc n
      → negates_symbols e ≡ true
      → Returns (Transforms t (e_not e)) (transform_not again e)
  unfolding transform_not weight value
  transform_not-Transforms n again ih (e_symbol s) h g = returned (record {
    keeps = value-transform_not_symbol s;
    negated = ground arith;
    lighter = ground arith;
  })
  transform_not-Transforms n again ih (e_equal a b) h g =
      returned (record { keeps = sym (not-unequal t a b); negated = refl; lighter = omega arith })
  transform_not-Transforms n again ih (e_unequal a b) h g =
      returned (record { keeps = sym (not-equal t a b); negated = refl; lighter = omega arith })
  transform_not-Transforms n again ih (e_not e) h g = Returns-map (ih e (omega arith)) λ r ok.
      record {
        keeps = ok.keeps ∙ sym (not-not (value t e));
        negated = ok.negated;
        lighter = omega (arith, ok.lighter);
      }
  transform_not-Transforms n again ih (e_and a b) h g =
      Returns-map (ih (e_or (e_not a) (e_not b)) (omega arith)) λ r ok. record {
        keeps = ok.keeps ∙ sym (not-and (value t a) (value t b));
        negated = ok.negated;
        lighter = omega (arith, ok.lighter);
      }
  transform_not-Transforms n again ih (e_or a b) h g =
      Returns-map (ih (e_and (e_not a) (e_not b)) (omega arith)) λ r ok. record {
        keeps = ok.keeps ∙ sym (not-or (value t a) (value t b));
        negated = ok.negated;
        lighter = omega (arith, ok.lighter);
      }

  transform-Transforms :
      (f : ℕ) (e : Expr) → weight e ≤ f → Returns (Transforms t e) (transform t f e)
  unfolding transform weight value
  transform-Transforms zero e h = absurd (omega (arith, weight_pos e))
  transform-Transforms (suc f) (e_symbol s) h =
      returned (record { keeps = refl; negated = refl; lighter = omega arith })
  transform-Transforms (suc f) (e_equal a b) h =
      returned (record {
        keeps = value-transform_equal a b;
        negated = ground arith;
        lighter = ground arith;
      })
  transform-Transforms (suc f) (e_unequal a b) h = returned (record {
    keeps = value-transform_unequal a b;
    negated = ground arith;
    lighter = ground arith;
  })
  transform-Transforms (suc f) (e_and l r) h =
      Returns-bind (transform-Transforms f l (omega arith)) λ l' ok_l.
        Returns-bind (transform-Transforms f r (omega arith)) λ r' ok_r. returned (record {
          keeps = ap₂ expr_and ok_l.keeps ok_r.keeps;
          negated = rw (ok_l.negated, ok_r.negated);
          lighter = omega (arith, ok_l.lighter, ok_r.lighter);
        })
  transform-Transforms (suc f) (e_or l r) h =
      Returns-bind (transform-Transforms f l (omega arith)) λ l' ok_l.
        Returns-bind (transform-Transforms f r (omega arith)) λ r' ok_r. returned (record {
          keeps = ap₂ expr_or ok_l.keeps ok_r.keeps;
          negated = rw (ok_l.negated, ok_r.negated);
          lighter = omega (arith, ok_l.lighter, ok_r.lighter);
        })
  transform-Transforms (suc f) (e_not e) h =
      Returns-bind (transform-Transforms f e (omega (arith, weight_pos e))) λ e' ok_e.
        Returns-map
          (transform_not-Transforms f (transform t f) (transform-Transforms f) e'
            (omega (arith, ok_e.lighter)) ok_e.negated)
          λ r ok. record {
            keeps = ok.keeps ∙ ap expr_not ok_e.keeps;
            negated = ok.negated;
            lighter = omega (arith, ok.lighter, ok_e.lighter);
          }

  -- In every settled table `expr_transform` returns an expression of the same value in which
  -- negation stands at symbols only.
  pub expr_transform-Transforms : (e : Expr) → Returns (Transforms t e) (expr_transform t e)
  unfolding expr_transform
  expr_transform-Transforms e = transform-Transforms (weight e) e (omega arith)
