-- ===== src/Tristate.antt =====
-- build-tools/kconfig/expr.h: the three values of a symbol, `no < mod < yes`, and the macros that
-- combine them.
pub mod Laws
use mkrootfs.Base.{ℕ, ◌-◌, Bool, ltb, ◌==◌, if◌then◌else◌, String}

pub data Tristate : Type 0 where
  tri_no tri_mod tri_yes : Tristate

-- The number that C gives each enumerator.
abbrev pub ord : Tristate → ℕ
ord tri_no = 0
ord tri_mod = 1
ord tri_yes = 2

abbrev pub of_ord : ℕ → Tristate
of_ord k = if k == 0 then tri_no else if k == 1 then tri_mod else tri_yes

-- `EXPR_OR`
abbrev pub expr_or : Tristate → Tristate → Tristate
expr_or dep1 dep2 = if ltb (ord dep2) (ord dep1) then dep1 else dep2

-- `EXPR_AND`
abbrev pub expr_and : Tristate → Tristate → Tristate
expr_and dep1 dep2 = if ltb (ord dep1) (ord dep2) then dep1 else dep2

-- `EXPR_NOT`, whose result the callers store in a `tristate`.
abbrev pub expr_not : Tristate → Tristate
expr_not dep = of_ord (2 - ord dep)

abbrev pub tri_eq : Tristate → Tristate → Bool
tri_eq a b = ord a == ord b

-- The text of each value, as `sym_get_string_value` gives it.
abbrev pub tri_text : Tristate → String
tri_text tri_no = "n"
tri_text tri_mod = "m"
tri_text tri_yes = "y"
