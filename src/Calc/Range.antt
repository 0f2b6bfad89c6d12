-- ===== src/Calc/Range.antt =====
-- build-tools/kconfig/symbol.c: `sym_get_range_val` and `sym_validate_range`, and the initial
-- values of `sym_calc_value`.
use mkrootfs.Base.{ℕ, String, Bool, true, false, ◌==◌, ℤ, leb_ℤ, Option, none, some}
use mkrootfs.Tristate.{tri_no}
use mkrootfs.Symbol.{
  SymbolType, s_boolean, s_tristate, s_int, s_hex, s_string, Val, null, text, symbol, SymbolValue,
  p_bounds, val_text,
}
use mkrootfs.Config.{with_curr, Decls, State, M, ◌>>=◌, ◌>>◌, return, gets, modify, change}
use mkrootfs.Calc.Expression.{Libc, Calc}
use mkrootfs.Calc.Visibility.{sym_get_range_prop}

-- The base in which a number is read, and `base` for the other types.
abbrev pub base_or : SymbolType → ℕ → ℕ
base_or s_int base = 10
base_or s_hex base = 16
base_or _ base = base

abbrev pub is_number : SymbolType → Bool
is_number s_int = true
is_number s_hex = true
is_number _ = false

abbrev pub set_curr : ℕ → SymbolValue → State → State
set_curr s v st = change s (with_curr v) st

-- The value with which the calculation starts; none for the types that it does not calculate.
abbrev pub initial_value : SymbolType → Option SymbolValue
initial_value s_int = some (record { val = text ""; tri = tri_no })
initial_value s_hex = some (record { val = text ""; tri = tri_no })
initial_value s_string = some (record { val = text ""; tri = tri_no })
initial_value s_boolean = some (record { val = text "n"; tri = tri_no })
initial_value s_tristate = some (record { val = text "n"; tri = tri_no })
initial_value _ = none

abbrev pub name_val : Option String → Val
name_val none = null
name_val (some s) = text s

abbrev pub is_address : ℕ → Val → Bool
is_address s (symbol x) = x == s
is_address s _ = false

abbrev pub address_or_null : Option ℕ → Val
address_or_null none = null
address_or_null (some s) = symbol s

module _ (libc : Libc) (d : Decls) where
  -- `sym_get_range_val`
  abbrev pub sym_get_range_val : Calc → ℕ → ℕ → M ℤ
  sym_get_range_val calc s base = do
    calc s
    gets λ st. libc.strtol (val_text (st.now_of s).curr.val) (base_or (d.decl_of s).type base)

  abbrev pub print_number : SymbolType → ℤ → String
  print_number s_int v = libc.print_int v
  print_number _ v = libc.print_hex v

  abbrev pub set_number : ℕ → ℤ → State → State
  set_number s v st =
      set_curr s (record (st.now_of s).curr { val = text (print_number (d.decl_of s).type v) }) st

  -- The two comparisons with the bounds `lo` and `hi`.
  abbrev pub validate_bounds : Calc → ℕ → ℕ → ℕ → ℕ → M (Unit {0})
  validate_bounds calc s base lo hi = do
    val ← gets (λ st. libc.strtol (val_text (st.now_of s).curr.val) base)
    val2 ← sym_get_range_val calc lo base
    elim (leb_ℤ val2 val) [
      | true ↦ sym_get_range_val calc hi base >>= λ val3. elim (leb_ℤ val val3) [
        | true ↦ return tt
        | false ↦ modify (set_number s val3)
      ]
      | false ↦ modify (set_number s val2)
    ]

  unfoldable pub sym_validate_range : Calc → ℕ → M (Unit {0})
  sym_validate_range calc s = elim (is_number (d.decl_of s).type) [
    | false ↦ return tt
    | true ↦ sym_get_range_prop d calc s >>= λ r. elim r [
      | none ↦ return tt
      | some (p, _) ↦ elim (p.expr) [
        | p_bounds lo hi ↦ validate_bounds calc s (base_or (d.decl_of s).type 10) lo hi
        | _ ↦ return tt
      ]
    ]
  ]
