-- ===== src/Calc/Set/StringValue/Range.antt =====
-- build-tools/kconfig/symbol.c: `sym_string_within_range` for symbols with a text.
use mkrootfs.Base.{ℤ, ℕ, ◌≡◌, String, true, false, none, some, leb_ℤ}
use mkrootfs.Symbol.{
  is_text, SymbolType, s_int, s_hex, s_string, Payload, p_null, p_expr, p_list, p_bounds,
}
use mkrootfs.Config.{Decls, State, M}
use mkrootfs.Config.Keeps.{Keeps, Keeps-bind, Keeps-return, Keeps-elim, Gives-bind}
use mkrootfs.Calc.Expression.{Libc}
use mkrootfs.Calc.Visibility.{is_range, sym_get_range_prop}
use mkrootfs.Calc.Run.{sym_calc_value}
use mkrootfs.Calc.Invariant.{Past, Inv}
use mkrootfs.Calc.Total.{IsClosed, PayloadBelow, FoundBelow, first_visible-Gives}
use mkrootfs.Calc.Total.Range.{range_val-Keeps}
use mkrootfs.Calc.Total.Main.{sym_calc_value-Keeps}
use mkrootfs.Calc.Set.Strings.{between, number_within, within_as, sym_string_valid}

module _ (libc : Libc) (d : Decls) (closed : IsClosed d) (past : Past) where
  abbrev calc : ℕ → M (Unit {0})
  calc = sym_calc_value libc d

  abbrev I : State → Type 0
  I = Inv d past d.bound

  between-Keeps :
      (val : ℤ) (base : ℕ) (e : Payload)
      → PayloadBelow d.bound e
      → Keeps I (between libc d calc val base e)
  between-Keeps val base p_null h = Keeps-return I true
  between-Keeps val base (p_expr _) h = Keeps-return I true
  between-Keeps val base (p_list _) h = Keeps-return I true
  between-Keeps val base (p_bounds lo hi) h =
      Keeps-bind I _ _
        (range_val-Keeps libc d closed past d.bound calc (sym_calc_value-Keeps libc d closed past)
          lo base h.0)
        λ low.
          Keeps-elim I (leb_ℤ low val) _ _
            (Keeps-bind I _ _
              (range_val-Keeps libc d closed past d.bound calc
                (sym_calc_value-Keeps libc d closed past) hi base h.1)
              λ high. Keeps-return I (leb_ℤ val high))
            (Keeps-return I false)

  number_within-Keeps : (s base : ℕ) (str : String) → Keeps I (number_within libc d calc s base str)
  unfolding sym_get_range_prop
  number_within-Keeps s base str =
      Keeps-elim I (sym_string_valid (d.decl_of s).type str) _ _
        (Gives-bind I (FoundBelow d.bound) (λ _. Unit) _ _
          (first_visible-Gives d past d.bound calc (sym_calc_value-Keeps libc d closed past)
            is_range s 0 (d.decl_of s).prop (closed.props_lem s))
          (elim [
            | none ↦ λ _. Keeps-return I true
            | some (p, v) ↦ λ h. between-Keeps (libc.strtol str base) base p.expr h
          ]))
        (Keeps-return I false)

  -- For a type with a text.
  pub within_as-Keeps :
      (ty : SymbolType) (s : ℕ) (str : String)
      → is_text ty ≡ true
      → Keeps I (within_as libc d ty calc s str)
  within_as-Keeps s_string s str h = Keeps-return I _
  within_as-Keeps s_int s str h = number_within-Keeps s 10 str
  within_as-Keeps s_hex s str h = number_within-Keeps s 16 str
  within_as-Keeps _ s str h = cc
