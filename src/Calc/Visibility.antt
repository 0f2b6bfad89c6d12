-- ===== src/Calc/Visibility.antt =====
-- build-tools/kconfig/symbol.c: `sym_get_default_prop`, `sym_get_range_prop`, `sym_calc_visibility`
-- and `sym_calc_choice`.
use mkrootfs.Base.{
  ℕ, suc, Bool, true, false, not, ◌&&◌, ◌||◌, if◌then◌else◌, Option, none, some, List, [], ◌∷◌,
}
use mkrootfs.Tristate.{Tristate, tri_no, tri_mod, tri_yes, tri_eq, expr_or}
use mkrootfs.Expr.{Expr}
use mkrootfs.Symbol.{
  is_boolean, is_tristate, Val, symbol, PropType, p_default, p_range, p_choice, p_list, Property,
}
use mkrootfs.Config.{
  Decls, State, M, ◌>>=◌, ◌>>◌, return, gets, modify, change, with_visible, with_rev_dep, with_curr,
  sym_get_type, sym_set_changed, prop_get_symbol,
}
use mkrootfs.Calc.Expression.{Calc, calc_expr, calc_prop, first_visible}

abbrev pub is_default : PropType → Bool
is_default p_default = true
is_default _ = false

abbrev pub is_range : PropType → Bool
is_range p_range = true
is_range _ = false

abbrev pub is_choice_prop : PropType → Bool
is_choice_prop p_choice = true
is_choice_prop _ = false

-- `sym_get_choice_prop`
unfoldable pub sym_get_choice_prop : List Property → Option Property
sym_get_choice_prop [] = none
sym_get_choice_prop (p ∷ ps) = if is_choice_prop p.type then some p else sym_get_choice_prop ps

-- The symbols of the E_LIST of a choice.
abbrev pub choice_values : List Property → List ℕ
choice_values ps = elim (sym_get_choice_prop ps) [
  | none ↦ []
  | some p ↦ elim (p.expr) [ p_list l ↦ l | _ ↦ [] ]
]

module _ (d : Decls) where
  unfoldable pub sym_get_default_prop : Calc → ℕ → M (Option (Property × Tristate))
  sym_get_default_prop calc s = first_visible d is_default calc s 0 (d.decl_of s).prop

  unfoldable pub sym_get_range_prop : Calc → ℕ → M (Option (Property × Tristate))
  sym_get_range_prop calc s = first_visible d is_range calc s 0 (d.decl_of s).prop

  -- The loop over the prompts: the greatest visibility.
  unfoldable pub prompts_visibility : Calc → ℕ → ℕ → List Property → Tristate → M Tristate
  prompts_visibility calc s i [] tri = return tri
  prompts_visibility calc s i (p ∷ ps) tri = elim (p.prompt) [
    | none ↦ prompts_visibility calc s (suc i) ps tri
    | some _ ↦ calc_prop d calc s i p >>= λ v. prompts_visibility calc s (suc i) ps (expr_or tri v)
  ]

  -- `if (sym->visible != tri) …`, for a visibility that is `m` only for a tristate symbol with
  -- modules.
  abbrev pub set_visible : ℕ → Tristate → State → State
  set_visible s tri st =
      let tri' =
        if tri_eq tri tri_mod
          && (not (is_tristate (d.decl_of s).type) || tri_eq st.modules_val tri_no)
        then tri_yes
        else tri in
      if tri_eq (st.now_of s).visible tri'
      then st
      else sym_set_changed d s (change s (with_visible tri') st)

  -- `if (sym->rev_dep.tri != tri) …`
  abbrev pub set_rev_dep : ℕ → Tristate → State → State
  set_rev_dep s tri st =
      let tri' = if tri_eq tri tri_mod && is_boolean (sym_get_type d st s) then tri_yes else tri in
      if tri_eq (st.now_of s).rev_dep_tri tri'
      then st
      else sym_set_changed d s (change s (with_rev_dep tri') st)

  -- A null reverse dependency is `no`.
  abbrev pub rev_dep_value : Calc → Option Expr → M Tristate
  rev_dep_value calc none = return tri_no
  rev_dep_value calc (some e) = calc_expr d calc e

  unfoldable pub sym_calc_visibility : Calc → ℕ → M (Unit {0})
  sym_calc_visibility calc s = do
    tri ← prompts_visibility calc s 0 (d.decl_of s).prop tri_no
    modify (set_visible s tri)
    elim ((d.decl_of s).choiceval) [
      | true ↦ return tt
      | false ↦ rev_dep_value calc (d.decl_of s).rev_dep_expr >>= λ v. modify (set_rev_dep s v)
    ]

  -- `sym_calc_visibility(def_sym); if (def_sym->visible != no) return def_sym;`
  abbrev pub if_visible : Calc → ℕ → M (Option ℕ) → M (Option ℕ)
  if_visible calc s rest = do
    sym_calc_visibility calc s
    tri ← gets (λ st. (st.now_of s).visible)
    elim (tri_eq tri tri_no) [ true ↦ rest | false ↦ return (some s) ]

  -- The first visible value of a choice.
  unfoldable pub first_value : Calc → List ℕ → M (Option ℕ)
  first_value calc [] = return none
  first_value calc (s ∷ l) = if_visible calc s (first_value calc l)

  -- The first visible default of a choice that names a visible value, or `rest`.
  unfoldable pub default_value : Calc → ℕ → ℕ → List Property → M (Option ℕ) → M (Option ℕ)
  default_value calc s i [] rest = rest
  default_value calc s i (p ∷ ps) rest = elim (is_default p.type) [
    | false ↦ default_value calc s (suc i) ps rest
    | true ↦ calc_prop d calc s i p >>= λ tri. elim (tri_eq tri tri_no) [
      | true ↦ default_value calc s (suc i) ps rest
      | false ↦ elim (prop_get_symbol p) [
        | some x ↦ if_visible calc x (default_value calc s (suc i) ps rest)
        | none ↦ default_value calc s (suc i) ps rest
      ]
    ]
  ]

  -- The user's choice, if it is set.
  abbrev pub user_choice : Calc → Val → M (Option ℕ) → M (Option ℕ)
  user_choice calc (symbol x) rest = if_visible calc x rest
  user_choice calc _ rest = rest

  -- `sym->curr.tri = no;`
  abbrev pub reset_tri : ℕ → State → State
  reset_tri s st = change s (with_curr (record (st.now_of s).curr { tri = tri_no })) st

  -- The last part: the first visible value, or none at all, which resets the value of the choice.
  abbrev pub any_value : Calc → ℕ → M (Option ℕ)
  any_value calc s = first_value calc (choice_values (d.decl_of s).prop) >>= λ r. elim r [
    | some x ↦ return (some x)
    | none ↦ do modify (reset_tri s); return none
  ]

  unfoldable pub sym_calc_choice : Calc → ℕ → M (Option ℕ)
  sym_calc_choice calc s = do
    v ← gets (λ st. (st.now_of s).user.val)
    user_choice calc v (default_value calc s 0 (d.decl_of s).prop (any_value calc s))
