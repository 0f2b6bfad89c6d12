-- ===== src/Samples/Runs.antt =====
-- Small runs of the calculation on the tree.
use mkrootfs.Base.{ℕ, ◌≡◌, refl, Option, none, some}
use mkrootfs.Tristate.{tri_no, tri_mod, tri_yes}
use mkrootfs.Symbol.{SymbolValue, text}
use mkrootfs.Config.{sym_get_type, sym_set_changed}
use mkrootfs.Calc.Expression.{calc_expr, first_visible}
use mkrootfs.Calc.Visibility.{
  sym_calc_visibility, prompts_visibility, sym_get_default_prop, sym_get_range_prop,
}
use mkrootfs.Calc.Range.{sym_validate_range}
use mkrootfs.Calc.Value.{tristate_value, text_value}
use mkrootfs.Calc.Run.{sym_calc_value, calc_fuel, calc_step, calc_from}
use mkrootfs.Samples.Tree.{tree, first_state, small_libc}

-- The value of a symbol after `sym_calc_value` from the first state.
abbrev value_from : ℕ → Option SymbolValue
value_from s = elim (sym_calc_value small_libc tree s first_state) [
  | none ↦ none
  | some (_, st) ↦ some ((st.now_of s).curr)
]

-- NET is set to `m`; the boolean USB, visible with NET, becomes `y`; LOOP and BACK, each of which is
-- the other's default, are `n`; and the 30 that the user gave SPEED is cut to the upper bound.
tree_values :
    (value_from 3 ≡ some (record { val = text "n"; tri = tri_mod }))
    × (value_from 4 ≡ some (record { val = text "n"; tri = tri_yes }))
    × (value_from 5 ≡ some (record { val = text "n"; tri = tri_no }))
    × (value_from 7 ≡ some (record { val = text "20"; tri = tri_no }))
unfolding sym_get_type sym_set_changed calc_expr first_visible sym_calc_visibility
    prompts_visibility sym_get_default_prop sym_get_range_prop sym_validate_range tristate_value
    text_value sym_calc_value calc_fuel calc_step calc_from
tree_values = (refl, refl, refl, refl)
