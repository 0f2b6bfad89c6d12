-- ===== src/Menu/Visible.antt =====
-- build-tools/kconfig/menu.c: `menu_is_visible`, with its calls of `sym_calc_value` and
-- `expr_calc_value`. It calls itself on the menus below a menu and runs on fuel.
pub mod Relation
pub mod Sees
pub mod Calculated
use mkrootfs.Base.{
  ap, update, ℕ, zero, suc, ◌+◌, ◌≤◌, ◌≡◌, ◌↔◌, ◌⊎◌, refl, sym as path_sym, ◌∙◌, subst, arith, Bool,
  true, false, inl, inr, Bool-cases, Option, none, some, ◌>>=◌, Returns, returned, Returns-bind,
  Returns-map,
}
use mkrootfs.Tristate.{Tristate, tri_no, tri_eq}
use mkrootfs.Symbol.{Table}
use mkrootfs.Config.{Decls, State, table}
use mkrootfs.Expr.Value.{expr_calc_value}
use mkrootfs.Calc.Expression.{Libc, calc_optional}
use mkrootfs.Calc.Run.{sym_calc_value}
use mkrootfs.Calc.Settled.{AreValid, sym_calc_value-valid, calc_expr-value}
use mkrootfs.Menu.{Expr, Prompt, no_prompt, of_symbol, own, Nodes}
use mkrootfs.Menu.Entry.{has_prompt}
use mkrootfs.Menu.Build.{Forest, nil, entry, menu, Leads}
use mkrootfs.Menu.Walk.{size}

-- What `menu_is_visible` changes: the symbols, and `menu->prompt->visible.tri` of each menu without a
-- symbol.
pub record Screen : Type 0 where
  pub symbols : State
  pub own_tri : ℕ → Tristate

-- `menu->prompt->visible.tri`, for the prompt of the menu `a`.
abbrev pub prompt_tri : ℕ → ℕ → Prompt → Screen → Tristate
prompt_tri a s (of_symbol i) sc = (sc.symbols.now_of s).prop_tri i
prompt_tri a s _ sc = sc.own_tri a

-- `!sym || sym_get_tristate_value(menu->sym) == no`
abbrev pub hides_below : State → Option ℕ → Bool
hides_below st none = true
hides_below st (some s) = tri_eq (st.now_of s).curr.tri tri_no

-- `for (child = menu->list; child; child = child->next) if (menu_is_visible(child)) return true;`
unfoldable pub any_visible :
    (ℕ → Screen → Option (Bool × Screen)) → ℕ → Nodes → Option ℕ → Screen → Option (Bool × Screen)
any_visible again zero nodes p sc = none
any_visible again (suc k) nodes none sc = some (false, sc)
any_visible again (suc k) nodes (some a) sc = do
  (v, sc1) ← again a sc
  elim v [ true ↦ some (true, sc1) | false ↦ any_visible again k nodes (nodes a).next sc1 ]

module _ (libc : Libc) (d : Decls) where
  -- The assignment to `visible`, with the calculation in front of it.
  unfoldable pub prompt_visible : ℕ → Option ℕ → Prompt → Screen → Option (Tristate × Screen)
  prompt_visible a (some s) p sc = do
    (_, st) ← sym_calc_value libc d s sc.symbols
    some (prompt_tri a s p (record sc { symbols = st }), record sc { symbols = st })
  prompt_visible a none (own q) sc = do
    (v, st) ← calc_optional d (sym_calc_value libc d) q.visible_expr sc.symbols
    some (v, record { symbols = st; own_tri = update sc.own_tri a v })
  prompt_visible a none _ sc = some (sc.own_tri a, sc)

  unfoldable pub menu_is_visible : ℕ → Nodes → ℕ → Screen → Option (Bool × Screen)
  menu_is_visible zero nodes a sc = none
  menu_is_visible (suc k) nodes a sc = elim (has_prompt (nodes a).prompt) [
    | false ↦ some (false, sc)
    | true ↦ do
      (visible, sc1) ← prompt_visible a (nodes a).sym (nodes a).prompt sc
      elim (tri_eq visible tri_no) [
        | false ↦ some (true, sc1)
        | true ↦ elim (hides_below sc1.symbols (nodes a).sym) [
          | true ↦ some (false, sc1)
          | false ↦ any_visible (menu_is_visible k nodes) k nodes (nodes a).list sc1
        ]
      ]
  ]
