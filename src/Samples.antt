-- ===== src/Samples.antt =====
-- A table of calculated symbols: the three constants, the tristate NET at address 3 with the value
-- `m`, and the boolean USB at address 4 with the value `y`. The theorems are applied to it, and
-- small runs of the code are tested.
mod Witnesses
mod Tree
mod Runs
mod FixdepRuns
mod GstrRuns
mod SetRuns
mod DepcheckRuns
mod ConfdataRuns
mod MenuRuns
mod DupsRuns
mod CheckRuns
use mkrootfs.Base.{
  ℕ, zero, suc, ◌<◌, ◌≡◌, ◌≢◌, refl, arith, Bool, true, false, some, ◌==◌, if◌then◌else◌,
}
use mkrootfs.Tristate.{Tristate, tri_no, tri_mod, tri_yes}
use mkrootfs.Expr.{symbol_no, symbol_mod, symbol_yes}
use mkrootfs.Symbol.{
  s_tristate, s_boolean, is_boolean, zero_decl, zero_now, const_symbol, Symbol, Table,
  sym_get_string_value, text,
}
use mkrootfs.Expr.Value.{IsSettled, same_text}

abbrev pub net_symbol : Symbol
net_symbol = record {
  decl = record zero_decl { name = some "NET"; type = s_tristate };
  now = record zero_now { curr = record { val = text "n"; tri = tri_mod }; valid = true };
}

abbrev pub usb_at : Tristate → Symbol
usb_at v = record {
  decl = record zero_decl { name = some "USB"; type = s_boolean };
  now = record zero_now { curr = record { val = text "n"; tri = v }; valid = true };
}

abbrev pub usb_symbol : Symbol
usb_symbol = usb_at tri_yes

abbrev table_at : Tristate → Table
table_at v s =
    if s == 0
    then const_symbol tri_no
    else if s == 1
    then const_symbol tri_mod
    else if s == 2
    then const_symbol tri_yes
    else if s == 3
    then net_symbol
    else usb_at v

abbrev pub sample : Table
sample = table_at tri_yes

-- The table with USB set to `n`.
abbrev pub usb_off : Table
usb_off = table_at tri_no

abbrev pub net : ℕ
net = 3

abbrev pub usb : ℕ
usb = 4

module _ (v : Tristate) where
  table-boolean_ne :
      v ≢ tri_mod
      → (s : ℕ) → is_boolean (table_at v s).type ≡ true
      → (table_at v s).curr.tri ≢ tri_mod
  table-boolean_ne ne s h = ground arith

  const-lt : (a : ℕ) → (table_at v a).const ≡ true → a < 3
  const-lt a h = ground arith

  small_ne : (a b : ℕ) → a < 3 → b < 3 → a ≢ b → same_text (table_at v) a b ≡ false
  unfolding sym_get_string_value
  small_ne zero zero h k e = absurd (e refl)
  small_ne zero (suc zero) h k e = refl
  small_ne zero (suc (suc zero)) h k e = refl
  small_ne (suc zero) zero h k e = refl
  small_ne (suc zero) (suc zero) h k e = absurd (e refl)
  small_ne (suc zero) (suc (suc zero)) h k e = refl
  small_ne (suc (suc zero)) zero h k e = refl
  small_ne (suc (suc zero)) (suc zero) h k e = refl
  small_ne (suc (suc zero)) (suc (suc zero)) h k e = absurd (e refl)
  small_ne _ _ h k e = absurd (omega arith)

  table-IsSettled : v ≢ tri_mod → IsSettled (table_at v)
  table-IsSettled ne = record {
    no_lem = refl;
    mod_lem = refl;
    yes_lem = refl;
    boolean_ne = table-boolean_ne ne;
    const_ne = λ a b h k e. small_ne a b (const-lt a h) (const-lt b k) e;
  }

pub sample-IsSettled : IsSettled sample
sample-IsSettled = table-IsSettled tri_yes (λ h. cc)

pub usb_off-IsSettled : IsSettled usb_off
usb_off-IsSettled = table-IsSettled tri_no (λ h. cc)
