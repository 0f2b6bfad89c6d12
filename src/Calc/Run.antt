-- ===== src/Calc/Run.antt =====
-- build-tools/kconfig/symbol.c: `sym_calc_value` as a whole.
use mkrootfs.Base.{ℕ, zero, suc, true, false, if◌then◌else◌, none, some}
use mkrootfs.Tristate.{tri_no}
use mkrootfs.Symbol.{SymbolValue}
use mkrootfs.Config.{with_valid, Decls, M, ◌>>=◌, ◌>>◌, return, gets, modify, change}
use mkrootfs.Calc.Expression.{Libc, Calc}
use mkrootfs.Calc.Visibility.{sym_calc_visibility}
use mkrootfs.Calc.Range.{set_curr, initial_value, name_val, sym_validate_range}
use mkrootfs.Calc.Value.{set_write, new_value, choose, note_change, finish}

module _ (libc : Libc) (d : Decls) where
  -- `sym_calc_value` for a symbol whose type is calculated, from the value `v`.
  unfoldable pub calc_from : Calc → ℕ → SymbolValue → SymbolValue → M (Unit {0})
  calc_from calc s oldval v = do
    modify (λ st. if (d.decl_of s).choiceval then st else set_write d s false st)
    sym_calc_visibility d calc s
    modify (set_curr s v)
    newval ← new_value d calc s v
    modify (set_curr s newval)
    choose d calc s newval.tri
    sym_validate_range libc d calc s
    same ← gets (λ st. libc.same_bytes oldval (st.now_of s).curr)
    modify (note_change d s same)
    modify (finish d s)

  -- `sym_calc_value`, given its recursive call.
  unfoldable pub calc_step : Calc → Calc
  calc_step calc s = do
    valid ← gets (λ st. (st.now_of s).valid)
    elim valid [
      | true ↦ return tt
      | false ↦ do
        modify (change s (with_valid true))
        oldval ← gets (λ st. (st.now_of s).curr)
        elim (initial_value (d.decl_of s).type) [
          | none ↦ modify (set_curr s (record { val = name_val (d.decl_of s).name; tri = tri_no }))
          | some v ↦ calc_from calc s oldval v
        ]
    ]

  unfoldable pub calc_fuel : ℕ → Calc
  calc_fuel zero s st = none
  calc_fuel (suc f) s st = calc_step (calc_fuel f) s st

  -- `sym_calc_value`
  unfoldable pub sym_calc_value : Calc
  sym_calc_value s st = calc_fuel (suc d.bound) s st
