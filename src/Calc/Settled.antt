-- ===== src/Calc/Settled.antt =====
-- build-tools/kconfig/expr.c: `expr_calc_value` in a state where its symbols have been calculated.
use mkrootfs.Base.{ℕ, ◌≡◌, refl, ap, ◌∙◌, true, none, some}
use mkrootfs.Expr.{Expr, e_symbol, e_not, e_and, e_or, e_equal, e_unequal}
use mkrootfs.Expr.Value.{value}
use mkrootfs.Config.{Decls, State, M, ◌>>=◌, table}
use mkrootfs.Calc.Expression.{Libc, Calc, calc_expr}
use mkrootfs.Calc.Run.{calc_step, calc_fuel, sym_calc_value}

-- All symbols of an expression have the flag SYMBOL_VALID.
abbrev pub AreValid : State → Expr → Type 0
AreValid st (e_symbol s) = (st.now_of s).valid ≡ true
AreValid st (e_not e) = AreValid st e
AreValid st (e_and l r) = AreValid st l × AreValid st r
AreValid st (e_or l r) = AreValid st l × AreValid st r
AreValid st (e_equal a b) = ((st.now_of a).valid ≡ true) × ((st.now_of b).valid ≡ true)
AreValid st (e_unequal a b) = ((st.now_of a).valid ≡ true) × ((st.now_of b).valid ≡ true)

bind-some :
    {A B : Type 0} (m : M A) (f : A → M B) (a : A) (st : State)
    → m st ≡ some (a, st)
    → (m >>= f) st ≡ f a st
bind-some m f a st h = ap (λ o. elim o [ none ↦ none | some (x, st') ↦ f x st' ]) h

module _ (d : Decls) (st : State) (calc : Calc)
    (ok : (s : ℕ) → (st.now_of s).valid ≡ true → calc s st ≡ some (tt, st)) where
  calc_by-value :
      (e : Expr) → AreValid st e → calc_expr d calc e st ≡ some (value (table d st) e, st)
  unfolding calc_expr value
  calc_by-value (e_symbol s) h = bind-some (calc s) _ tt st (ok s h)
  calc_by-value (e_not e) h =
      bind-some (calc_expr d calc e) _ (value (table d st) e) st (calc_by-value e h)
  calc_by-value (e_and l r) h =
      bind-some (calc_expr d calc l) _ (value (table d st) l) st (calc_by-value l h.0)
      ∙ bind-some (calc_expr d calc r) _ (value (table d st) r) st (calc_by-value r h.1)
  calc_by-value (e_or l r) h =
      bind-some (calc_expr d calc l) _ (value (table d st) l) st (calc_by-value l h.0)
      ∙ bind-some (calc_expr d calc r) _ (value (table d st) r) st (calc_by-value r h.1)
  calc_by-value (e_equal a b) h =
      bind-some (calc a) _ tt st (ok a h.0) ∙ bind-some (calc b) _ tt st (ok b h.1)
  calc_by-value (e_unequal a b) h =
      bind-some (calc a) _ tt st (ok a h.0) ∙ bind-some (calc b) _ tt st (ok b h.1)

module _ (libc : Libc) (d : Decls) (st : State) where
  pub sym_calc_value-valid :
      (s : ℕ) → (st.now_of s).valid ≡ true → sym_calc_value libc d s st ≡ some (tt, st)
  unfolding sym_calc_value calc_fuel calc_step
  sym_calc_value-valid s h = rw h refl

  -- In a state in which all symbols of the expression have been calculated, `expr_calc_value`, with
  -- its calls of `sym_calc_value`, returns the value that the expression has over the table of the
  -- symbols' values, and changes nothing.
  pub calc_expr-value :
      (e : Expr)
      → AreValid st e
      → calc_expr d (sym_calc_value libc d) e st ≡ some (value (table d st) e, st)
  calc_expr-value = calc_by-value d st (sym_calc_value libc d) sym_calc_value-valid
