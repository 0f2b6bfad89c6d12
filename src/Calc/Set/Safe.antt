-- ===== src/Calc/Set/Safe.antt =====
-- build-tools/kconfig/symbol.c: `sym_set_tristate_value` with the calculation of MODULES that it starts.
use mkrootfs.Base.{ℕ, ◌≡◌}
use mkrootfs.Tristate.{Tristate}
use mkrootfs.Config.{State}

-- No symbol's value changes.
record KeepsTri (st st' : State) : Type 0 where
  same_tri : (x : ℕ) → (st'.now_of x).curr.tri ≡ (st.now_of x).curr.tri
