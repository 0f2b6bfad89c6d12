-- ===== src/Calc/Set/Calculated.antt =====
-- build-tools/kconfig/symbol.c: what the step of `sym_calc_value` for the value of a boolean or tristate
-- symbol makes of a value that a user set, against `sym_tristate_within_range`. The calculation of the
-- visibility before it, and what `sym_calc_value` does behind it, are not part of this.
use mkrootfs.Base.{
  ℕ, ◌≡◌, refl, ap, ◌∙◌, arith, true, false, ◌&&◌, if◌then◌else◌, Option, none, some, ==-refl,
}
use mkrootfs.Tristate.{Tristate, tri_no, tri_mod, tri_yes, tri_eq, expr_or, expr_and}
use mkrootfs.Symbol.{is_boolean}
use mkrootfs.Config.{Decls, State, sym_get_type}
use mkrootfs.Calc.Expression.{Calc}
use mkrootfs.Calc.Value.{tristate_value, plain_tri, set_write}
use mkrootfs.Calc.Set.{sym_tristate_within_range}

module _ (d : Decls) (calc : Calc) (s : ℕ) (st : State) (v : Tristate) where
  -- A value in the range survives the visibility, the reverse dependency and the promotion.
  within-clamped :
      ((d.decl_of s).choiceval && tri_eq (st.now_of s).visible tri_yes) ≡ false
      → sym_tristate_within_range d st s v ≡ true
      → (expr_or (expr_and v (st.now_of s).visible) (st.now_of s).rev_dep_tri ≡ v)
        × ((tri_eq v tri_mod && is_boolean (sym_get_type d st s)) ≡ false)
        × (tri_eq (st.now_of s).visible tri_no ≡ false)
  unfolding sym_tristate_within_range
  within-clamped h k = ground arith

  -- A visible symbol that the user set has the user's value, cut by the visibility and raised by the
  -- reverse dependency.
  plain_tri-set :
      tri_eq (st.now_of s).visible tri_no ≡ false
      → (st.now_of s).def_user ≡ true
      → plain_tri d calc s st
        ≡ some (
          expr_or (expr_and (st.now_of s).user.tri (st.now_of s).visible) (st.now_of s).rev_dep_tri,
          set_write d s true st,
        )
  plain_tri-set h u = grind (arith, ==-refl s)

  sym_get_type-set_write : sym_get_type d (set_write d s true st) s ≡ sym_get_type d st s
  unfolding sym_get_type
  sym_get_type-set_write = rw (==-refl s) refl

  -- If the user set a symbol to a value that `sym_tristate_within_range` allows, and the symbol is not a
  -- visible value of a choice set to `y`, `tristate_value`, the step of `sym_calc_value` that, once the
  -- visibility and the reverse dependency of a boolean or tristate symbol have been calculated, gives
  -- its value, gives this value and marks the symbol as one to write.
  pub tristate_value-of_within :
      ((d.decl_of s).choiceval && tri_eq (st.now_of s).visible tri_yes) ≡ false
      → sym_tristate_within_range d st s v ≡ true
      → (st.now_of s).def_user ≡ true
      → (st.now_of s).user.tri ≡ v
      → tristate_value d calc s st ≡ some (v, set_write d s true st)
  unfolding tristate_value
  tristate_value-of_within h k u e =
      let c = within-clamped h k in
      rw h (
        ap
          (λ o. elim o as (λ _. Option (Tristate × State)) [
            | none ↦ none
            | some (tri, st') ↦ some (
              if tri_eq tri tri_mod && is_boolean (sym_get_type d st' s) then tri_yes else tri,
              st',
            )
          ])
          (plain_tri-set c.2 u)
        ∙ ap (λ t. some (t, set_write d s true st)) (unpromoted c.0 c.1))
    where
      unpromoted :
          expr_or (expr_and v (st.now_of s).visible) (st.now_of s).rev_dep_tri ≡ v
          → (tri_eq v tri_mod && is_boolean (sym_get_type d st s)) ≡ false
          → (let x =
                expr_or
                  (expr_and (st.now_of s).user.tri (st.now_of s).visible)
                  (st.now_of s).rev_dep_tri in
              if tri_eq x tri_mod && is_boolean (sym_get_type d (set_write d s true st) s)
              then tri_yes
              else x)
            ≡ v
      unpromoted p q = rw sym_get_type-set_write (ground (arith, e, p, q))
