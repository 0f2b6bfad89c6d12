-- ===== src/Confdata/Checks.antt =====
-- build-tools/kconfig/confdata.c: what `conf_read` does after it has read the lines: it calculates every
-- symbol and counts those whose values are not the ones of the file in `conf_unsaved`.
use mkrootfs.Base.{
  ℕ, ◌+◌, ◌≡◌, ◌≤◌, str_eq, Bool, true, false, not, ◌&&◌, ◌||◌, if◌then◌else◌, In, Option, none,
  some, List, [], ◌∷◌,
}
use mkrootfs.Tristate.{tri_no, tri_eq}
use mkrootfs.Symbol.{Decl, Now, val_text}
use mkrootfs.Config.{Decls, State, change}
use mkrootfs.Calc.Expression.{Libc, Calc}
use mkrootfs.Calc.Visibility.{choice_values}
use mkrootfs.Calc.Total.{IsClosed}
use mkrootfs.Calc.Total.Main.{BooleanSafe}
use mkrootfs.Confdata.Read.{is_switch}

-- The switch that compares the calculated value with the saved one.
abbrev pub agrees : Decl → Now → Bool
agrees decl n =
    if is_switch decl.type
    then tri_eq n.user.tri n.curr.tri
    else str_eq (val_text n.curr.val) (val_text n.user.val)

-- What the first loop adds to `conf_unsaved` for a symbol: by SYMBOL_CHOICE, SYMBOL_AUTO,
-- SYMBOL_DEF_USER, SYMBOL_WRITE, and whether the values agree.
abbrev pub count_of : Bool → Bool → Bool → Bool → Bool → ℕ
count_of choice auto def_user write same =
    if choice || auto
    then 0
    else if def_user && write
    then (if same then 0 else 1)
    else if not def_user && not write
    then 0
    else 1

abbrev pub unsaved : Decl → Now → ℕ
unsaved decl n = count_of decl.choice decl.auto n.def_user n.write (agrees decl n)

-- `flags`, of which only SYMBOL_DEF_USER is used: all visible values have it.
abbrev pub values_set : State → List ℕ → Bool
values_set st [] = true
values_set st (s ∷ l) =
    (tri_eq (st.now_of s).visible tri_no || (st.now_of s).def_user) && values_set st l

abbrev pub with_def_user : Bool → Now → Now
with_def_user b n = record n { def_user = b }

-- `sym->flags &= flags | ~SYMBOL_DEF_USER`, for a choice.
abbrev pub check_choice : Decls → ℕ → State → State
check_choice d s st =
    if (d.decl_of s).choice
    then change s
        (with_def_user ((st.now_of s).def_user && values_set st (choice_values (d.decl_of s).prop)))
        st
    else st

abbrev pub count_calc :
    Decls
    → ℕ
    → ℕ
    → (ℕ → State → Option (ℕ × State))
    → Option (Unit {0} × State)
    → Option (ℕ × State)
count_calc d s k next none = none
count_calc d s k next (some (_, st)) =
    next (k + unsaved (d.decl_of s) (st.now_of s)) (check_choice d s st)

-- The first loop, with `conf_unsaved`.
unfoldable pub check_all : Decls → Calc → List ℕ → ℕ → State → Option (ℕ × State)
check_all d calc [] k st = some (k, st)
check_all d calc (s ∷ l) k st = count_calc d s k (λ k' st'. check_all d calc l k' st') (calc s st)

-- Between two states of the loop.
pub record Kept (d : Decls) (st st' : State) : Type 0 where
  stays_valid : (x : ℕ) → (st.now_of x).valid ≡ true → (st'.now_of x).valid ≡ true
  same_value : (x : ℕ) → (st.now_of x).valid ≡ true → (st'.now_of x).curr ≡ (st.now_of x).curr
  same_user : (x : ℕ) → (st'.now_of x).user ≡ (st.now_of x).user
  same_def_user :
      (x : ℕ) → (d.decl_of x).choice ≡ false → (st'.now_of x).def_user ≡ (st.now_of x).def_user
  safe : BooleanSafe d st'

-- A symbol that the user has set has the value that the user set.
abbrev pub IsSaved : Decls → State → ℕ → Type 0
IsSaved d st s =
    (d.decl_of s).choice ≡ false
    → (d.decl_of s).auto ≡ false
    → (st.now_of s).def_user ≡ true
    → agrees (d.decl_of s) (st.now_of s) ≡ true

module _ (libc : Libc) (d : Decls) (closed : IsClosed d) where
  -- What the loop leaves, by the count before and after.
  pub record Checked (l : List ℕ) (k : ℕ) (st : State) (r : ℕ × State) : Type 0 where
    counts : k ≤ r.0
    kept : Kept d st r.1
    saved : r.0 ≡ k → (s : ℕ) → In s l → IsSaved d r.1 s
