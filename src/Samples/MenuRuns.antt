-- ===== src/Samples/MenuRuns.antt =====
-- A file of a few entries: MODULES, a menu with an entry that has entries below it, and one more.
use mkrootfs.Base.{
  inr, inl, Bool-cases, true, ◌↔◌, ◌+◌, ◌≤◌, ◌==◌, if◌then◌else◌, ◌≤◌, ℕ, ◌+◌, ◌*◌, ◌≡◌, ◌≢◌, refl,
  arith, false, none, some, List, [], ◌∷◌, Returns, map,
}
use mkrootfs.Expr.{Expr, e_symbol, e_and, e_not, symbol_mod}
use mkrootfs.Symbol.{
  Property, s_tristate, s_boolean, s_unknown, s_package, p_prompt, p_null, zero_decl,
}
use mkrootfs.Expr.Value.{expr_calc_value}
use mkrootfs.Menu.{of_symbol, Nodes, empty_node, rootmenu, menu_init, calls, walk_menus}
use mkrootfs.Menu.Build.{Forest, nil, entry, menu, script, IsTree, calls-IsTree}
use mkrootfs.Menu.Walk.{entered, size, walk_menus-entered}
use mkrootfs.Menu.Entry.{
  Parse, entry_of, menu_add_prop, menu_check_dep, skip_spaces, starts_with_space, kind_type,
}
use mkrootfs.Menu.Added.{gated, add_deps, least, prompt_in, add_deps-least, menu_add_prop-prompt}
use mkrootfs.Menu.Types.{set_types, first_known, set_types-first}
use mkrootfs.Config.{State}
use mkrootfs.Samples.Tree.{tree, first_state, small_libc}
use mkrootfs.Menu.Visible.{Screen, menu_is_visible}
use mkrootfs.Menu.Visible.Relation.{Seen}
use mkrootfs.Menu.Visible.Sees.{IsCalculated, menu_is_visible-Seen}
use mkrootfs.Samples.{tri_no, tri_yes, sample, sample-IsSettled, usb, net}

abbrev sample_file : Forest
sample_file =
    entry (some 3)
      (menu none (entry (some 4) (menu (some 5) (entry (some 6) nil) nil)) (entry (some 7) nil))

calls-IsTree_example : Returns (IsTree sample_file) (calls (script sample_file) menu_init)
calls-IsTree_example = calls-IsTree sample_file

six_menus : 2 * size sample_file + 2 ≤ 14
unfolding size
six_menus = omega arith

walk_menus-entered_example :
    Returns
      (λ b.
        (b.current_menu ≡ some rootmenu)
        × (walk_menus 14 b.nodes ≡ some (entered (script sample_file))))
      (calls (script sample_file) menu_init)
walk_menus-entered_example = walk_menus-entered sample_file 14 six_menus

-- The parser behind `config NET`, whose symbol is at 3.
abbrev behind_config : Parse
behind_config = record {
  menus = record menu_init {
    nodes = λ a. if a == 1 then record empty_node { sym = some 3; parent = some 0 } else empty_node;
    fresh = 2;
    current_entry = 1;
  };
  decls = λ _. zero_decl;
  warnings = [];
}

abbrev depends_lines : List Expr
depends_lines = e_and (e_symbol usb) (e_symbol symbol_mod) ∷ (e_not (e_symbol net) ∷ [])

add_deps-least_example :
    expr_calc_value sample (entry_of (add_deps usb depends_lines behind_config)).dep
    ≡ least (gated usb sample) tri_yes depends_lines
add_deps-least_example = add_deps-least sample sample-IsSettled usb depends_lines behind_config

menu_add_prop-prompt_example :
    (prompt_in
        (menu_add_prop usb p_prompt
          (some "  Network")
          p_null
          (some (e_symbol symbol_mod))
          behind_config)
        1
      ≡ some (record {
        type = p_prompt;
        prompt = some (skip_spaces "  Network");
        visible_expr = menu_check_dep usb (some (e_symbol symbol_mod));
        expr = p_null;
        menu = some 1;
      }))
    × (starts_with_space (skip_spaces "  Network") ≡ false)
    × ((a : ℕ) (r : Property)
        → a ≢ 1
        → prompt_in behind_config a ≡ some r
        → prompt_in
            (menu_add_prop usb p_prompt
              (some "  Network")
              p_null
              (some (e_symbol symbol_mod))
              behind_config)
            a
          ≡ some r)
menu_add_prop-prompt_example =
    menu_add_prop-prompt usb p_prompt "  Network" p_null (some (e_symbol symbol_mod)) behind_config

set_types-first_example :
    Returns
      (λ q.
        (q.decls 3).type ≡ first_known (s_unknown ∷ map kind_type (s_package ∷ (s_tristate ∷ []))))
      (set_types (s_package ∷ (s_tristate ∷ [])) behind_config)
set_types-first_example = set_types-first (s_package ∷ (s_tristate ∷ [])) 3 behind_config refl

-- The type is that of the first line.
package_first : first_known (s_unknown ∷ map kind_type (s_package ∷ (s_tristate ∷ []))) ≡ s_boolean
unfolding first_known
package_first = refl

-- NET at address 1 with an entry of USB below it.
abbrev two_menus : Nodes
two_menus a =
    if a == 1
    then record empty_node { sym = some net; prompt = of_symbol 0; parent = some 0; list = some 2 }
    else if a == 2
    then record empty_node { sym = some usb; prompt = of_symbol 0; parent = some 1 }
    else empty_node

one_below : size (entry (some usb) nil) + 2 ≤ 3
unfolding size
one_below = omega arith

-- Nothing has been calculated.
abbrev first_screen : Screen
first_screen = record { symbols = first_state; own_tri = λ a. tri_no }

-- A state in which every symbol has been calculated, and NET is visible.
abbrev all_calculated : State
all_calculated = record first_state {
  now_of = λ s. record (first_state.now_of s) { valid = true; prop_tri = λ i. tri_yes };
}

abbrev calculated_screen : Screen
calculated_screen = record { symbols = all_calculated; own_tri = λ a. tri_no }

two_menus-IsCalculated :
    (a : ℕ) → IsCalculated all_calculated (two_menus a).sym (two_menus a).prompt
two_menus-IsCalculated a = elim (Bool-cases (a == 1)) [
  | inl e ↦ rw e refl
  | inr e ↦ elim (Bool-cases (a == 2)) [ inl h ↦ rw (e, h) refl | inr h ↦ rw (e, h) tt ]
]

menu_is_visible-Seen_example :
    Returns
      (λ r. (r.1.symbols ≡ all_calculated) × ((r.0 ≡ true) ↔ Seen tree all_calculated two_menus 1))
      (menu_is_visible small_libc tree 3 two_menus 1 calculated_screen)
menu_is_visible-Seen_example =
    menu_is_visible-Seen small_libc tree all_calculated two_menus two_menus-IsCalculated 3
      (entry (some usb) nil) 1 3 1 calculated_screen
      (2, refl, omega arith, omega arith, refl, refl, refl, refl) one_below refl
