-- ===== src/Calc/Set.antt =====
-- build-tools/kconfig/symbol.c: `sym_clear_all_valid`, `sym_tristate_within_range`,
-- `sym_set_tristate_value` and `sym_toggle_tristate_value`. `calc` is the call of `sym_calc_value`.
pub mod Strings
pub mod Within
pub mod Safe
pub mod Calculated
pub mod StringValue
use mkrootfs.Base.{
  ℕ, zero, suc, ◌+◌, Bool, true, false, not, ◌&&◌, ◌||◌, if◌then◌else◌, leb, Option, none, some,
  List, [], ◌∷◌,
}
use mkrootfs.Tristate.{Tristate, tri_no, tri_mod, tri_yes, tri_eq, ord}
use mkrootfs.Symbol.{is_boolean, is_tristate, Val, symbol, SymbolValue, Now}
use mkrootfs.Config.{
  Decls, State, M, ◌>>=◌, ◌>>◌, return, gets, modify, change, with_valid, sym_get_type,
  sym_set_changed,
}
use mkrootfs.Calc.Expression.{Calc}
use mkrootfs.Calc.Visibility.{choice_values}
use mkrootfs.Calc.Value.{choice_of}

-- The order of the values as numbers.
abbrev pub tri_le : Tristate → Tristate → Bool
tri_le a b = leb (ord a) (ord b)

-- `sym_get_tristate_value`
abbrev pub sym_get_tristate_value : State → ℕ → Tristate
sym_get_tristate_value st s = (st.now_of s).curr.tri

-- `sym->flags &= ~SYMBOL_VALID` for each symbol of the list.
unfoldable pub clear_valid : List ℕ → State → State
clear_valid [] st = st
clear_valid (s ∷ l) st = clear_valid l (change s (with_valid false) st)

abbrev pub with_def_user : Now → Now
with_def_user n = record n { def_user = true }

abbrev pub with_user : SymbolValue → Now → Now
with_user v n = record n { user = v }

-- `if (!(sym->flags & SYMBOL_DEF_USER)) …`
abbrev pub set_def_user : Decls → ℕ → State → State
set_def_user d s st =
    if (st.now_of s).def_user then st else sym_set_changed d s (change s with_def_user st)

-- SYMBOL_DEF_USER for each visible symbol of the list.
unfoldable pub set_values_user : List ℕ → State → State
set_values_user [] st = st
set_values_user (s ∷ l) st =
    set_values_user l
      (if tri_eq (st.now_of s).visible tri_no then st else change s with_def_user st)

-- The assignments to the symbol of the choice.
abbrev pub set_choice : Decls → ℕ → ℕ → State → State
set_choice d s cs st = set_values_user (choice_values (d.decl_of cs).prop) (
    change cs with_def_user
      (change cs (with_user (record (st.now_of cs).user { val = symbol s })) st))

-- `sym_add_change_count`, without the call back to a front end.
abbrev pub sym_add_change_count : ℕ → State → State
sym_add_change_count n st = record st { change_count = n + st.change_count }

-- The switch of `sym_toggle_tristate_value`.
abbrev pub next_value : Tristate → Tristate
next_value tri_no = tri_mod
next_value tri_mod = tri_yes
next_value tri_yes = tri_no

module _ (d : Decls) where
  unfoldable pub sym_clear_all_valid : Calc → M (Unit {0})
  sym_clear_all_valid calc = do
    modify (clear_valid d.symbols)
    modify (sym_add_change_count 1)
    elim (d.modules_sym) [ none ↦ return tt | some m ↦ calc m ]

  unfoldable pub sym_tristate_within_range : State → ℕ → Tristate → Bool
  sym_tristate_within_range st s val =
      let type = sym_get_type d st s in
      let visible = (st.now_of s).visible in
      let rev_dep = (st.now_of s).rev_dep_tri in
      if tri_eq visible tri_no
      then false
      else if not (is_boolean type) && not (is_tristate type)
      then false
      else if is_boolean type && tri_eq val tri_mod
      then false
      else if tri_le visible rev_dep
      then false
      else if (d.decl_of s).choiceval && tri_eq visible tri_yes
      then tri_eq val tri_yes
      else tri_le rev_dep val && tri_le val visible

  -- What `sym_set_tristate_value` writes before it clears the flags. A choice value without its
  -- choice, at which the source reads a null pointer, is left alone.
  unfoldable pub write_tristate : ℕ → Tristate → State → State
  write_tristate s val st =
      let st1 = set_def_user d s st in
      let st2 =
        if (d.decl_of s).choiceval && tri_eq val tri_yes
        then elim (choice_of d s) [ some cs ↦ set_choice d s cs st1 | none ↦ st1 ]
        else st1 in
      change s (with_user (record (st2.now_of s).user { tri = val })) st2

  -- `sym_set_tristate_value`, given whether the value stays the same and whether it is within the
  -- range.
  abbrev pub set_if : Bool → Bool → Calc → ℕ → Tristate → M Bool
  set_if true _ calc s val st = some (true, write_tristate s val st)
  set_if false true calc s val st =
      (sym_clear_all_valid calc >>= λ _. return true) (write_tristate s val st)
  set_if false false calc s val st = some (false, st)

  unfoldable pub sym_set_tristate_value : Calc → ℕ → Tristate → M Bool
  sym_set_tristate_value calc s val st =
      set_if (tri_eq (sym_get_tristate_value st s) val) (sym_tristate_within_range st s val) calc s
        val st

  -- The end of the loop's body, with the rest of the loop.
  abbrev pub loop_end : Tristate → Tristate → M Tristate → Bool → M Tristate
  loop_end oldval newval again ok = elim (ok || tri_eq oldval newval) [
    | true ↦ return newval
    | false ↦ again
  ]

  -- The loop, which ends at `oldval` at the latest.
  unfoldable pub toggle_loop : ℕ → Calc → ℕ → Tristate → Tristate → M Tristate
  toggle_loop zero calc s oldval newval st = none
  toggle_loop (suc f) calc s oldval newval st =
      let again = toggle_loop f calc s oldval (next_value newval) in
      (sym_set_tristate_value calc s (next_value newval)
          >>= loop_end oldval (next_value newval) again)
        st

  unfoldable pub sym_toggle_tristate_value : Calc → ℕ → M Tristate
  sym_toggle_tristate_value calc s st =
      let oldval = sym_get_tristate_value st s in toggle_loop 3 calc s oldval oldval st
