-- ===== src/Calc/Set/StringValue.antt =====
-- build-tools/kconfig/symbol.c: `sym_set_string_value`. The call that frees the old text is left out.
pub mod Range
pub mod Cleared
pub mod Stored
use mkrootfs.Base.{
  ℕ, String, Bool, true, false, not, ◌&&◌, ◌||◌, ◌==◌, str_eq, if◌then◌else◌, Option, none, some,
}
use Prim.Native.String.{[], ◌∷◌}
use mkrootfs.Tristate.{Tristate}
use mkrootfs.Symbol.{SymbolType, s_boolean, s_tristate, s_hex, Val, null, text, symbol}
use mkrootfs.Config.{Decls, State, M, ◌>>=◌, ◌>>◌, return, gets, modify, change}
use mkrootfs.Calc.Expression.{Libc, Calc}
use mkrootfs.Calc.Set.{with_user, set_def_user, sym_clear_all_valid, sym_set_tristate_value}
use mkrootfs.Calc.Set.Strings.{is_char, named_tristate, sym_string_within_range}

-- `newval[0] == '0' && (newval[1] == 'x' || newval[1] == 'X')`
abbrev pub has_prefix : String → Bool
has_prefix (c ∷ (x ∷ s)) = is_char 48 c && (is_char 120 x || is_char 88 x)
has_prefix _ = false

abbrev pub is_hex : SymbolType → Bool
is_hex s_hex = true
is_hex _ = false

-- Whether `0x` is put in front of the text.
abbrev pub lacks_prefix : SymbolType → String → Bool
lacks_prefix type newval = is_hex type && not (has_prefix newval)

abbrev pub stored_text : SymbolType → String → String
stored_text type newval = if lacks_prefix type newval then "0" ∷ ("x" ∷ newval) else newval

-- `!oldval || strcmp(oldval, newval)`, negated.
abbrev pub is_text_of : Val → String → Bool
is_text_of (text s) newval = str_eq s newval
is_text_of _ newval = false

module _ (d : Decls) where
  abbrev pub set_user_val : ℕ → String → State → State
  set_user_val s v st = change s (with_user (record (st.now_of s).user { val = text v })) st

  -- The assignment, unless the text is the same.
  abbrev pub store_unless : Bool → Calc → ℕ → String → M Bool
  store_unless true calc s v = return true
  store_unless false calc s v = do
    modify (set_user_val s v)
    sym_clear_all_valid d calc
    return true

  abbrev pub keeps_old : ℕ → String → State → Bool
  keeps_old s newval st =
      not (lacks_prefix (d.decl_of s).type newval) && is_text_of (st.now_of s).user.val newval

  -- What follows the test of the range.
  abbrev pub store_if : Bool → Calc → ℕ → String → M Bool
  store_if false calc s newval = return false
  store_if true calc s newval = do
    modify (set_def_user d s)
    same ← gets (keeps_old s newval)
    store_unless same calc s (stored_text (d.decl_of s).type newval)

  abbrev pub set_named : Option Tristate → Calc → ℕ → M Bool
  set_named none calc s = return false
  set_named (some v) calc s = sym_set_tristate_value d calc s v

module _ (libc : Libc) (d : Decls) where
  abbrev pub set_text_value : Calc → ℕ → String → M Bool
  set_text_value calc s newval = do
    ok ← sym_string_within_range libc d calc s newval
    store_if d ok calc s newval

  -- By the type of the symbol.
  abbrev pub set_string_as : SymbolType → Calc → ℕ → String → M Bool
  set_string_as s_boolean calc s newval = set_named d (named_tristate newval) calc s
  set_string_as s_tristate calc s newval = set_named d (named_tristate newval) calc s
  set_string_as _ calc s newval = set_text_value calc s newval

  unfoldable pub sym_set_string_value : Calc → ℕ → String → M Bool
  sym_set_string_value calc s newval = set_string_as (d.decl_of s).type calc s newval
