-- ===== src/Depcheck.antt =====
-- build-tools/kconfig/symbol.c: `sym_check_deps` and what it calls, which look for a symbol that
-- depends on itself. What is printed on the way is left out. `again` is the call of `sym_check_deps`.
pub mod Lists
pub mod Orders
pub mod Search
pub mod Acyclic
use mkrootfs.Base.{
  ◌+◌, ℕ, zero, suc, Bool, true, false, ◌&&◌, ◌||◌, not, ◌==◌, if◌then◌else◌, Option, none, some,
  List, [], ◌∷◌, update, ◌>>=◌,
}
use mkrootfs.Expr.{Expr, e_symbol, e_not, e_and, e_or, e_equal, e_unequal}
use mkrootfs.Symbol.{
  PropType, p_choice, p_select, p_build_select, p_build_depends, Payload, p_expr, Property, Decl,
}
use mkrootfs.Config.{Decls}
use mkrootfs.Calc.Visibility.{is_default, choice_values}
use mkrootfs.Calc.Value.{choice_of}

-- The flags SYMBOL_CHECK and SYMBOL_CHECKED, and `zconfnerrs`.
pub record Marks : Type 0 where
  pub check : ℕ → Bool
  pub checked : ℕ → Bool
  pub nerrs : ℕ

-- A symbol in a circle, or null, and the flags; none if the fuel runs out.
abbrev pub Found : Type 0
Found = Option (Option ℕ × Marks)

abbrev pub Check : Type 0
Check = ℕ → Marks → Found

-- `if (sym) return sym;`, and else goes on.
abbrev pub or_else : Found → (Marks → Found) → Found
or_else none k = none
or_else (some (some s, m)) k = some (some s, m)
or_else (some (none, m)) k = k m

-- `sym->flags |= (SYMBOL_CHECK | SYMBOL_CHECKED)`
abbrev pub mark : ℕ → Marks → Marks
mark s m = record m { check = update m.check s true; checked = update m.checked s true }

-- `sym->flags &= ~SYMBOL_CHECK`
abbrev pub unmark : ℕ → Marks → Marks
unmark s m = record m { check = update m.check s false }

unfoldable pub mark_all : List ℕ → Marks → Marks
mark_all [] m = m
mark_all (s ∷ l) m = mark_all l (mark s m)

unfoldable pub unmark_all : List ℕ → Marks → Marks
unmark_all [] m = m
unmark_all (s ∷ l) m = unmark_all l (unmark s m)

unfoldable pub check_expr : Check → Expr → Marks → Found
check_expr again (e_symbol s) m = again s m
check_expr again (e_not e) m = check_expr again e m
check_expr again (e_and a b) m = or_else (check_expr again a m) (check_expr again b)
check_expr again (e_or a b) m = or_else (check_expr again a m) (check_expr again b)
check_expr again (e_equal a b) m = or_else (again a m) (again b)
check_expr again (e_unequal a b) m = or_else (again a m) (again b)

-- `sym_check_expr_deps`
abbrev pub sym_check_expr_deps : Check → Option Expr → Marks → Found
sym_check_expr_deps again none m = some (none, m)
sym_check_expr_deps again (some e) m = check_expr again e m

-- The expression of a property; of another payload the source only says that it cannot check it.
abbrev pub payload_expr : Payload → Option Expr
payload_expr (p_expr e) = some e
payload_expr _ = none

abbrev pub is_skipped : PropType → Bool
is_skipped p_choice = true
is_skipped p_select = true
is_skipped p_build_select = true
is_skipped p_build_depends = true
is_skipped _ = false

-- The expression of a default, which a choice does not check.
abbrev pub default_expr : Bool → Property → Option Expr
default_expr choice p = if is_default p.type && not choice then payload_expr p.expr else none

-- The loop over the properties.
unfoldable pub check_props : Check → Bool → List Property → Marks → Found
check_props again choice [] m = some (none, m)
check_props again choice (p ∷ ps) m =
    if is_skipped p.type
    then check_props again choice ps m
    else or_else (sym_check_expr_deps again p.visible_expr m) λ m1.
      or_else (sym_check_expr_deps again (default_expr choice p) m1) (check_props again choice ps)

module _ (d : Decls) where
  abbrev pub sym_check_sym_deps : Check → ℕ → Marks → Found
  sym_check_sym_deps again s m =
      or_else (sym_check_expr_deps again (d.decl_of s).rev_dep_expr m)
        (check_props again (d.decl_of s).choice (d.decl_of s).prop)

  -- The loop over a choice's values.
  unfoldable pub check_values : Check → List ℕ → Marks → Found
  check_values again [] m = some (none, m)
  check_values again (s ∷ l) m = or_else (sym_check_sym_deps again s m) (check_values again l)

  -- A value of the choice stands for the choice itself.
  abbrev pub as_choice : ℕ → Option ℕ → Option ℕ
  as_choice choice none = none
  as_choice choice (some s) =
      if (d.decl_of s).choiceval
      then elim (choice_of d s) [
        | none ↦ some s
        | some cs ↦ some (if cs == choice then choice else s)
      ]
      else some s

  -- From `choice->flags &= ~SYMBOL_CHECK` on.
  abbrev pub check_rest : Check → ℕ → List ℕ → Option ℕ → Marks → Found
  check_rest again choice values (some s) m = some (some s, unmark choice m)
  check_rest again choice values none m = check_values again values (unmark choice m)

  abbrev pub sym_check_choice_deps : Check → ℕ → Marks → Found
  sym_check_choice_deps again choice m = do
    r ←
        sym_check_sym_deps again choice
          (mark choice (mark_all (choice_values (d.decl_of choice).prop) m))
    q ← check_rest again choice (choice_values (d.decl_of choice).prop) r.0 r.1
    some (as_choice choice q.0, unmark_all (choice_values (d.decl_of choice).prop) q.1)

  abbrev pub check_own : Check → ℕ → Marks → Found
  check_own again s m = do r ← sym_check_sym_deps again s (mark s m); some (r.0, unmark s r.1)

  -- By whether the symbol is a value of a choice, and whether it is a choice. A choice value without
  -- its choice, at which the source reads a null pointer, is left alone.
  abbrev pub check_choiceval : Option ℕ → Check → Marks → Found
  check_choiceval none again m = some (none, m)
  check_choiceval (some cs) again m = again cs m

  abbrev pub check_as : Bool → Bool → Check → ℕ → Marks → Found
  check_as true _ again s m = check_choiceval (choice_of d s) again m
  check_as false true again s m = sym_check_choice_deps again s m
  check_as false false again s m = check_own again s m

  -- The end of `sym_check_deps`: the circle is complete at the symbol where it began.
  abbrev pub close : ℕ → Option ℕ × Marks → Option ℕ × Marks
  close s (none, m) = (none, m)
  close s (some t, m) = if t == s then (none, record m { nerrs = suc m.nerrs }) else (some t, m)

  -- By the flags SYMBOL_CHECK and SYMBOL_CHECKED of the symbol.
  abbrev pub check_by : Bool → Bool → Check → ℕ → Marks → Found
  check_by true _ again s m = some (some s, m)
  check_by false true again s m = some (none, m)
  check_by false false again s m = do
    r ← check_as (d.decl_of s).choiceval (d.decl_of s).choice again s m
    some (close s r)

  unfoldable pub check_fuel : ℕ → ℕ → Marks → Found
  check_fuel zero s m = none
  check_fuel (suc f) s m = check_by (m.check s) (m.checked s) (check_fuel f) s m

  -- `sym_check_deps`. Each call but those from a choice value to its choice marks a symbol first.
  unfoldable pub sym_check_deps : ℕ → Marks → Found
  sym_check_deps s m = check_fuel (suc (suc (d.bound + d.bound))) s m
