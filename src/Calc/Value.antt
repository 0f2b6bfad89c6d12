-- ===== src/Calc/Value.antt =====
-- build-tools/kconfig/symbol.c: the two switches of `sym_calc_value` and what follows them.
use mkrootfs.Base.{
  ℕ, Bool, true, false, not, ◌&&◌, ◌||◌, ◌==◌, if◌then◌else◌, Option, none, some, List, [], ◌∷◌,
}
use mkrootfs.Tristate.{Tristate, tri_no, tri_mod, tri_yes, tri_eq, expr_or, expr_and}
use mkrootfs.Symbol.{is_boolean, is_tristate, Val, SymbolValue, Payload, p_null, p_expr, Property}
use mkrootfs.Config.{
  with_write, Decls, State, M, ◌>>=◌, ◌>>◌, return, gets, modify, change, sym_get_type,
  sym_set_changed, sym_set_all_changed, prop_get_symbol,
}
use mkrootfs.Calc.Expression.{Calc, calc_expr}
use mkrootfs.Calc.Visibility.{
  sym_get_choice_prop, choice_values, sym_get_default_prop, sym_calc_choice,
}
use mkrootfs.Calc.Range.{set_curr, is_address, address_or_null}

module _ (d : Decls) where
  abbrev pub set_write : ℕ → Bool → State → State
  set_write s b st = change s (with_write b) st

  -- `expr_calc_value(prop->expr)` for a default.
  abbrev pub calc_payload : Calc → Payload → M Tristate
  calc_payload calc p_null = return tri_yes
  calc_payload calc (p_expr e) = calc_expr d calc e
  calc_payload calc _ = return tri_no

  -- The value of a visible default, cut by its visibility; `no` if there is none.
  abbrev pub default_tri : Calc → ℕ → Option (Property × Tristate) → M Tristate
  default_tri calc s none = return tri_no
  default_tri calc s (some (p, v)) = do
    modify (set_write s true)
    w ← calc_payload calc p.expr
    return (expr_and w v)

  -- The value without the user's, before `calc_newval`.
  abbrev pub without_user : Calc → ℕ → M Tristate
  without_user calc s = do
    modify λ st. if tri_eq (st.now_of s).rev_dep_tri tri_no then st else set_write s true st
    elim ((d.decl_of s).choice) [
      | true ↦ return tri_no
      | false ↦ sym_get_default_prop d calc s >>= λ r. default_tri calc s r
    ]

  -- `prop_get_symbol(sym_get_choice_prop(sym))`: the choice of a choice value.
  abbrev pub choice_of : ℕ → Option ℕ
  choice_of s = elim (sym_get_choice_prop (d.decl_of s).prop) [
    | some p ↦ prop_get_symbol p
    | none ↦ none
  ]

  -- Whether the choice of `s` has chosen it.
  abbrev pub chosen : ℕ → State → Tristate
  chosen s st = elim (choice_of s) [
    | some c ↦ if is_address s (st.now_of c).curr.val then tri_yes else tri_no
    | none ↦ tri_no
  ]

  -- `calc_newval`
  abbrev pub or_rev_dep : ℕ → Tristate → M Tristate
  or_rev_dep s tri = gets (λ st. expr_or tri (st.now_of s).rev_dep_tri)

  -- The value of a symbol that is visible or not, outside a choice that is set to `y`.
  abbrev pub plain_tri : Calc → ℕ → M Tristate
  plain_tri calc s = do
    visible ← gets (λ st. (st.now_of s).visible)
    elim (tri_eq visible tri_no) [
      | true ↦ without_user calc s >>= or_rev_dep s
      | false ↦ do
        modify (set_write s true)
        has_value ← gets (λ st. (st.now_of s).def_user)
        elim has_value [
          | true ↦
              gets (λ st. expr_and (st.now_of s).user.tri (st.now_of s).visible) >>= or_rev_dep s
          | false ↦ without_user calc s >>= or_rev_dep s
        ]
    ]

  -- `case S_BOOLEAN` and `case S_TRISTATE`
  unfoldable pub tristate_value : Calc → ℕ → M Tristate
  tristate_value calc s = do
    set ← gets (λ st. (d.decl_of s).choiceval && tri_eq (st.now_of s).visible tri_yes)
    tri ← elim set [ true ↦ gets (chosen s) | false ↦ plain_tri calc s ]
    gets λ st. if tri_eq tri tri_mod && is_boolean (sym_get_type d st s) then tri_yes else tri

  -- The text of the symbol that a visible default names, or `old`.
  abbrev pub default_text : Calc → ℕ → Val → Option (Property × Tristate) → M Val
  default_text calc s old none = return old
  default_text calc s old (some (p, _)) = elim (prop_get_symbol p) [
    | none ↦ return old
    | some ds ↦ do modify (set_write s true); calc ds; gets (λ st. (st.now_of ds).curr.val)
  ]

  -- `case S_STRING`, `case S_HEX` and `case S_INT`
  unfoldable pub text_value : Calc → ℕ → Val → M Val
  text_value calc s old = do
    visible ← gets (λ st. not (tri_eq (st.now_of s).visible tri_no))
    modify (λ st. if visible then set_write s true st else st)
    use_user ← gets (λ st. visible && (st.now_of s).def_user)
    elim use_user [
      | true ↦ gets (λ st. (st.now_of s).user.val)
      | false ↦ sym_get_default_prop d calc s >>= λ r. default_text calc s old r
    ]

  -- The second switch of `sym_calc_value`.
  abbrev pub new_value : Calc → ℕ → SymbolValue → M SymbolValue
  new_value calc s v = elim (is_boolean (d.decl_of s).type || is_tristate (d.decl_of s).type) [
    | true ↦ tristate_value calc s >>= λ tri. return (record v { tri = tri })
    | false ↦ text_value calc s v.val >>= λ val. return (record v { val = val })
  ]

  -- `if (sym_is_choice(sym) && newval.tri == yes) sym->curr.val = sym_calc_choice(sym);`
  abbrev pub choose : Calc → ℕ → Tristate → M (Unit {0})
  choose calc s tri = elim ((d.decl_of s).choice && tri_eq tri tri_yes) [
    | false ↦ return tt
    | true ↦ sym_calc_choice d calc s >>= λ r.
        modify (λ st. set_curr s (record (st.now_of s).curr { val = address_or_null r }) st)
  ]

  -- Whether `s` is the symbol MODULES.
  abbrev pub is_modules : ℕ → Bool
  is_modules s = elim (d.modules_sym) [ none ↦ false | some x ↦ x == s ]

  -- What follows if the value differs from the old one.
  abbrev pub note_change : ℕ → Bool → State → State
  note_change s same st =
      if same
      then st
      else let st' = sym_set_changed d s st in
        if is_modules s
        then (let st2 = sym_set_all_changed d d.symbols st' in
            record st2 { modules_val = (st2.now_of s).curr.tri })
        else st'

  -- The flags SYMBOL_CHANGED and SYMBOL_WRITE of a choice are passed on to its values.
  unfoldable pub pass_flags : Bool → Bool → List ℕ → State → State
  pass_flags changed write [] st = st
  pass_flags changed write (s ∷ l) st =
      let st1 =
        change s (λ n. record n { changed = n.changed || changed; write = n.write || write }) st in
      pass_flags changed write l (if changed then sym_set_changed d s st1 else st1)

  -- The last two blocks of `sym_calc_value`.
  abbrev pub finish : ℕ → State → State
  finish s st =
      let st1 =
        if (d.decl_of s).choice
        then pass_flags (st.now_of s).changed (st.now_of s).write (choice_values (d.decl_of s).prop)
            st
        else st in
      if (d.decl_of s).auto then set_write s false st1 else st1
