-- ===== src/Calc/Set/Strings.antt =====
-- build-tools/kconfig/symbol.c: `sym_string_valid` and `sym_string_within_range`. A text is a list of
-- characters without the final NUL, which none of them is.
use mkrootfs.Base.{
  ℕ, ◌≡◌, refl, subst, Bool, true, false, not, ◌&&◌, ◌||◌, if◌then◌else◌, leb, ◌==◌, ℤ, leb_ℤ,
  Option, none, some,
}
use Prim.Native.String.{String, [], ◌∷◌}
use Prim.Native.Char.{Char, code}
use mkrootfs.Tristate.{Tristate, tri_no, tri_mod, tri_yes}
use mkrootfs.Symbol.{SymbolType, s_boolean, s_tristate, s_int, s_hex, s_string, Payload, p_bounds}
use mkrootfs.Config.{Decls, State, M, ◌>>=◌, return, gets}
use mkrootfs.Calc.Expression.{Libc, Calc}
use mkrootfs.Calc.Visibility.{sym_get_range_prop}
use mkrootfs.Calc.Range.{sym_get_range_val}
use mkrootfs.Calc.Set.{sym_tristate_within_range}

abbrev pub is_char : ℕ → Char → Bool
is_char n c = code c == n

-- `isdigit`
abbrev pub is_digit : Char → Bool
is_digit c = leb 48 (code c) && leb (code c) 57

-- `isxdigit`
abbrev pub is_xdigit : Char → Bool
is_xdigit c =
    is_digit c || ((leb 65 (code c) && leb (code c) 70) || (leb 97 (code c) && leb (code c) 102))

unfoldable pub all_chars : (Char → Bool) → String → Bool
all_chars f [] = true
all_chars f (c ∷ s) = f c && all_chars f s

abbrev pub is_empty : String → Bool
is_empty [] = true
is_empty _ = false

-- `if (ch == '-') ch = *str++;`
abbrev pub skip_minus : String → String
skip_minus [] = []
skip_minus (c ∷ s) = if is_char 45 c then s else c ∷ s

-- `case S_INT`: digits, of which the first is not a zero before others.
abbrev pub int_digits : String → Bool
int_digits [] = false
int_digits (c ∷ s) =
    if not (is_digit c)
    then false
    else if is_char 48 c && not (is_empty s)
    then false
    else all_chars is_digit s

-- `if (str[0] == '0' && (str[1] == 'x' || str[1] == 'X')) str += 2;`
abbrev pub skip_prefix : String → String
skip_prefix (c ∷ (x ∷ s)) =
    if is_char 48 c && (is_char 120 x || is_char 88 x) then s else c ∷ (x ∷ s)
skip_prefix s = s

-- `case S_HEX`: at least one hexadecimal digit.
abbrev pub hex_digits : String → Bool
hex_digits [] = false
hex_digits (c ∷ s) = is_xdigit c && all_chars is_xdigit s

-- The value that the first character names: `y`, `m` or `n`, in either case.
abbrev pub named_char : Char → Option Tristate
named_char c =
    if is_char 121 c || is_char 89 c
    then some tri_yes
    else if is_char 109 c || is_char 77 c
    then some tri_mod
    else if is_char 110 c || is_char 78 c
    then some tri_no
    else none

abbrev pub named_tristate : String → Option Tristate
named_tristate [] = none
named_tristate (c ∷ _) = named_char c

abbrev pub is_some : Option Tristate → Bool
is_some none = false
is_some (some _) = true

unfoldable pub sym_string_valid : SymbolType → String → Bool
sym_string_valid s_string str = true
sym_string_valid s_int str = int_digits (skip_minus str)
sym_string_valid s_hex str = hex_digits (skip_prefix str)
sym_string_valid s_boolean str = is_some (named_tristate str)
sym_string_valid s_tristate str = is_some (named_tristate str)
sym_string_valid _ str = false

module _ (libc : Libc) (d : Decls) where
  -- `val >= sym_get_range_val(…) && val <= sym_get_range_val(…)`
  abbrev pub between : Calc → ℤ → ℕ → Payload → M Bool
  between calc val base (p_bounds lo hi) = do
    low ← sym_get_range_val libc d calc lo base
    elim (leb_ℤ low val) [
      | true ↦ sym_get_range_val libc d calc hi base >>= λ high. return (leb_ℤ val high)
      | false ↦ return false
    ]
  between calc val base _ = return true

  -- `case S_INT` and `case S_HEX`
  abbrev pub number_within : Calc → ℕ → ℕ → String → M Bool
  number_within calc s base str = elim (sym_string_valid (d.decl_of s).type str) [
    | false ↦ return false
    | true ↦ sym_get_range_prop d calc s >>= λ r. elim r [
      | none ↦ return true
      | some (p, _) ↦ between calc (libc.strtol str base) base p.expr
    ]
  ]

  -- `case S_BOOLEAN` and `case S_TRISTATE`
  abbrev pub named_within : ℕ → Option Tristate → M Bool
  named_within s none = return false
  named_within s (some v) = gets (λ st. sym_tristate_within_range d st s v)

  abbrev pub within_as : SymbolType → Calc → ℕ → String → M Bool
  within_as s_string calc s str = return (sym_string_valid (d.decl_of s).type str)
  within_as s_int calc s str = number_within calc s 10 str
  within_as s_hex calc s str = number_within calc s 16 str
  within_as s_boolean calc s str = named_within s (named_tristate str)
  within_as s_tristate calc s str = named_within s (named_tristate str)
  within_as _ calc s str = return false

  unfoldable pub sym_string_within_range : Calc → ℕ → String → M Bool
  sym_string_within_range calc s str = within_as (d.decl_of s).type calc s str

  guard-true :
      (b : Bool) (m : M Bool) (st st' : State)
      → elim b as (λ _. State → Option (Bool × State)) [ false ↦ return false | true ↦ m ] st
        ≡ some (true, st')
      → b ≡ true
  guard-true true m st st' h = refl
  guard-true false m st st' h = cc

  named_within-some :
      (s : ℕ) (o : Option Tristate) (st st' : State)
      → named_within s o st ≡ some (true, st')
      → is_some o ≡ true
  named_within-some s none st st' h = cc
  named_within-some s (some v) st st' h = refl

  valid-of_within :
      (ty : SymbolType) (calc : Calc) (s : ℕ) (str : String) (st st' : State)
      → (d.decl_of s).type ≡ ty
      → within_as ty calc s str st ≡ some (true, st')
      → sym_string_valid ty str ≡ true
  unfolding sym_string_valid
  valid-of_within s_string calc s str st st' e h = refl
  valid-of_within s_int calc s str st st' e h =
      subst (λ ty. sym_string_valid ty str ≡ true) e (guard-true _ _ st st' h)
  valid-of_within s_hex calc s str st st' e h =
      subst (λ ty. sym_string_valid ty str ≡ true) e (guard-true _ _ st st' h)
  valid-of_within s_boolean calc s str st st' e h =
      named_within-some s (named_tristate str) st st' h
  valid-of_within s_tristate calc s str st st' e h =
      named_within-some s (named_tristate str) st st' h
  valid-of_within _ calc s str st st' e h = cc

  -- A text that `sym_string_within_range` accepts for a symbol is one that `sym_string_valid` accepts for
  -- the symbol's type, whatever the range of the symbol.
  pub sym_string_valid-of_within :
      (calc : Calc) (s : ℕ) (str : String) (st st' : State)
      → sym_string_within_range calc s str st ≡ some (true, st')
      → sym_string_valid (d.decl_of s).type str ≡ true
  unfolding sym_string_within_range
  sym_string_valid-of_within calc s str st st' h =
      valid-of_within (d.decl_of s).type calc s str st st' refl h
