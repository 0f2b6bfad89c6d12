-- ===== src/Confdata/AllNew.antt =====
-- build-tools/kconfig/confdata.c: `conf_set_all_new_symbols`. The numbers that `rand` gives are a
-- parameter, and the count of its calls is part of the state.
pub mod Picked
use mkrootfs.Base.{
  ℕ, zero, suc, ◌+◌, ◌%◌, Bool, true, false, not, ◌&&◌, ◌||◌, ◌==◌, if◌then◌else◌, Option, none,
  some, List, [], ◌∷◌, length,
}
use mkrootfs.Tristate.{Tristate, tri_no, tri_mod, tri_yes, tri_eq}
use mkrootfs.Symbol.{Val, symbol, SymbolValue, Now}
use mkrootfs.Config.{Decls, State, M, change, with_valid, sym_get_type}
use mkrootfs.Calc.Expression.{Calc}
use mkrootfs.Calc.Visibility.{choice_values}
use mkrootfs.Calc.Set.{sym_clear_all_valid}
use mkrootfs.Confdata.Read.{is_switch, with_user_tri, with_user_val, set_def_flag}

pub data DefMode : Type 0 where
  def_default def_yes def_mod def_no def_random : DefMode

abbrev pub is_random : DefMode → Bool
is_random def_random = true
is_random _ = false

-- `(tristate)(n % 3)`
abbrev pub tri_of : ℕ → Tristate
tri_of n = if n % 3 == 0 then tri_no else if n % 3 == 1 then tri_mod else tri_yes

-- The switch over the mode; none stands for `continue`.
abbrev pub mode_value : DefMode → ℕ → Option Tristate
mode_value def_yes n = some tri_yes
mode_value def_mod n = some tri_mod
mode_value def_no n = some tri_no
mode_value def_random n = some (tri_of n)
mode_value def_default n = none

-- The state and the number of calls of `rand`.
abbrev pub Rolled : Type 0
Rolled = State × ℕ

-- `if (def == cnt++)` over the values that are left.
abbrev pub pick_value : ℕ → ℕ → Bool → State → State
pick_value csym s true st =
    change csym (with_user_val (symbol s)) (change s (with_user_tri tri_yes) st)
pick_value csym s false st = change s (with_user_tri tri_no) st

unfoldable pub pick : ℕ → ℕ → ℕ → List ℕ → State → State
pick csym def cnt [] st = st
pick csym def cnt (s ∷ l) st = pick csym def (suc cnt) l (pick_value csym s (def == cnt) st)

module _ (rand : ℕ → ℕ) (d : Decls) where
  abbrev pub set_value : DefMode → ℕ → Tristate → State → State
  set_value mode s v st =
      change s
        (λ n.
          if (d.decl_of s).choice && is_random mode
          then with_user_tri v n
          else set_def_flag true (with_user_tri v n))
        st

  abbrev pub set_mode : DefMode → ℕ → Option Tristate → Rolled → Rolled
  set_mode mode s none (st, k) = (st, k)
  set_mode mode s (some v) (st, k) = (set_value mode s v st, if is_random mode then suc k else k)

  abbrev pub is_new_switch : ℕ → State → Bool
  is_new_switch s st = not (st.now_of s).def_user && is_switch (sym_get_type d st s)

  -- The body of the first loop.
  unfoldable pub set_new : DefMode → ℕ → Rolled → Rolled
  set_new mode s (st, k) =
      if is_new_switch s st then set_mode mode s (mode_value mode (rand k)) (st, k) else (st, k)

  unfoldable pub set_all_new : DefMode → List ℕ → Rolled → Rolled
  set_all_new mode [] r = r
  set_all_new mode (s ∷ l) r = set_all_new mode l (set_new mode s r)

  -- For a choice that is y. If the choice had no value, the source would divide by zero.
  abbrev pub pick_one : ℕ → Rolled → Rolled
  pick_one csym (st, k) =
      let values = choice_values (d.decl_of csym).prop in
      (
        change csym (λ n. with_valid false (set_def_flag true n))
            (pick csym (rand k % length values) 0 values st),
        suc k,
      )

  abbrev pub pick_if : Bool → ℕ → Rolled → Rolled
  pick_if false csym r = r
  pick_if true csym r = pick_one csym r

  -- Behind the calculation of the choice.
  abbrev pub after_calc : ℕ → ℕ → Option (Unit {0} × State) → Option Rolled
  after_calc csym k none = none
  after_calc csym k (some (_, st)) =
      some (pick_if (tri_eq (st.now_of csym).curr.tri tri_yes) csym (st, k))

  abbrev pub is_new_choice : ℕ → State → Bool
  is_new_choice csym st = not (st.now_of csym).def_user && (d.decl_of csym).choice

  -- The body of the second loop.
  abbrev pub choose_if : Bool → Calc → ℕ → Rolled → Option Rolled
  choose_if false calc csym r = some r
  choose_if true calc csym (st, k) = after_calc csym k (calc csym st)

  abbrev pub on_rolled : Option Rolled → (Rolled → Option Rolled) → Option Rolled
  on_rolled none f = none
  on_rolled (some r) f = f r

  unfoldable pub choose_all : Calc → List ℕ → Rolled → Option Rolled
  choose_all calc [] r = some r
  choose_all calc (csym ∷ l) r =
      on_rolled (choose_if (is_new_choice csym r.0) calc csym r) (choose_all calc l)

  abbrev pub after_clear_all : Calc → Bool → ℕ → Option (Unit {0} × State) → Option Rolled
  after_clear_all calc random k none = none
  after_clear_all calc false k (some (_, st)) = some (st, k)
  after_clear_all calc true k (some (_, st)) = choose_all calc d.symbols (st, k)

  unfoldable pub conf_set_all_new_symbols : Calc → DefMode → State → Option Rolled
  conf_set_all_new_symbols calc mode st =
      let r = set_all_new mode d.symbols (st, 0) in
      after_clear_all calc (is_random mode) r.1 (sym_clear_all_valid d calc r.0)
