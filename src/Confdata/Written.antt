-- ===== src/Confdata/Written.antt =====
-- build-tools/kconfig/confdata.c: what `conf_write` writes for the symbols of the menu, with the
-- calculations between the lines.
use mkrootfs.Base.{ℕ, ◌<◌, ◌≡◌, true, false, Option, none, some, List, [], ◌∷◌}
use mkrootfs.Symbol.{is_tristate, SymbolType, SymbolValue}
use mkrootfs.Config.{Decls, State, M, ◌>>=◌ as ◌>>=M◌}
use mkrootfs.Calc.Expression.{Libc, Calc}
use mkrootfs.Calc.Value.{set_write}
use mkrootfs.Calc.Run.{sym_calc_value}
use mkrootfs.Calc.Total.{IsClosed}
use mkrootfs.Calc.Total.Main.{BooleanSafe}
use mkrootfs.Confdata.{Line}
use mkrootfs.Confdata.Write.{symbol_line, name_of, written_type}
use mkrootfs.Confdata.RoundTrip.File.{concat}
use mkrootfs.Confdata.RoundTrip.Effect.{symbol_lines}

-- Valid symbols stay valid and keep their values, and no boolean symbol is m.
pub record Steady (d : Decls) (st st' : State) : Type 0 where
  pub stays_valid : (x : ℕ) → (st.now_of x).valid ≡ true → (st'.now_of x).valid ≡ true
  pub same_value : (x : ℕ) → (st.now_of x).valid ≡ true → (st'.now_of x).curr ≡ (st.now_of x).curr
  pub safe : BooleanSafe d st'

-- The run over the symbols of a list: its states, and the symbols of which it writes a line. It leaves
-- out the choices, and the symbols whose flag SYMBOL_WRITE is clear in the state that their own
-- calculation in this run has left.
pub data Chosen (d : Decls) (calc : Calc) : List ℕ → State → List ℕ → State → Type 0 where
  none_left : {st : State} → Chosen d calc [] st [] st
  writes :
      {s : ℕ} {l m : List ℕ} {st st1 st2 st3 : State} (type : SymbolType)
      → (d.decl_of s).choice ≡ false
      → calc s st ≡ some (tt, st1)
      → (st1.now_of s).write ≡ true
      → written_type d calc s (is_tristate (d.decl_of s).type) (set_write d s false st1)
        ≡ some (type, st2)
      → Chosen d calc l st2 m st3
      → Chosen d calc (s ∷ l) st (s ∷ m) st3
  is_choice :
      {s : ℕ} {l m : List ℕ} {st st3 : State}
      → (d.decl_of s).choice ≡ true
      → Chosen d calc l st m st3
      → Chosen d calc (s ∷ l) st m st3
  not_marked :
      {s : ℕ} {l m : List ℕ} {st st1 st3 : State}
      → (d.decl_of s).choice ≡ false
      → calc s st ≡ some (tt, st1)
      → (st1.now_of s).write ≡ false
      → Chosen d calc l st1 m st3
      → Chosen d calc (s ∷ l) st m st3

-- The values that symbols have in a state.
abbrev pub values_in : State → ℕ → SymbolValue
values_in st s = (st.now_of s).curr

abbrev pub AllValid : State → List ℕ → Type 0
AllValid st [] = Unit
AllValid st (s ∷ l) = ((st.now_of s).valid ≡ true) × AllValid st l

pub record Written (d : Decls) (calc : Calc) (l : List ℕ) (st : State) (r : Line × State)
    : Type 0 where
  pub saved : List ℕ
  pub chosen : Chosen d calc l st saved r.1
  pub output : r.0 ≡ concat (symbol_lines (values_in r.1) d saved)
  pub valid : AllValid r.1 saved
  pub steady : Steady d st r.1

-- The line of one symbol, or nothing, with the reason.
data OneWritten (d : Decls) (calc : Calc) (s : ℕ) (st : State) : Line × State → Type 0 where
  line :
      {r : Line × State} {st1 : State} (type : SymbolType)
      → (d.decl_of s).choice ≡ false
      → calc s st ≡ some (tt, st1)
      → (st1.now_of s).write ≡ true
      → written_type d calc s (is_tristate (d.decl_of s).type) (set_write d s false st1)
        ≡ some (type, r.1)
      → r.0 ≡ symbol_line (d.decl_of s).type (name_of d s) (r.1.now_of s).curr
      → (r.1.now_of s).valid ≡ true
      → Steady d st r.1
      → OneWritten d calc s st r
  choice : (d.decl_of s).choice ≡ true → Steady d st st → OneWritten d calc s st ([], st)
  unmarked :
      {st1 : State}
      → (d.decl_of s).choice ≡ false
      → calc s st ≡ some (tt, st1)
      → (st1.now_of s).write ≡ false
      → Steady d st st1
      → OneWritten d calc s st ([], st1)

-- The type only says how the value is printed, which is alike for both types.
abbrev Alike : SymbolType → SymbolType → Type 0
Alike t u = (name : Line) (v : SymbolValue) → symbol_line u name v ≡ symbol_line t name v

abbrev AreBelow : ℕ → Option ℕ → Type 0
AreBelow k none = Unit
AreBelow k (some s) = s < k

module _ (libc : Libc) (d : Decls) (closed : IsClosed d)
    (modules : AreBelow d.bound d.modules_sym) where
  abbrev calc : ℕ → M (Unit {0})
  calc = sym_calc_value libc d

  -- A type that prints as `type` does, and a steady state.
  abbrev TypeOf : SymbolType → State → SymbolType × State → Type 0
  TypeOf type st r = Alike type r.0 × Steady d st r.1
