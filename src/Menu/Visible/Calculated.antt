-- ===== src/Menu/Visible/Calculated.antt =====
-- build-tools/kconfig/menu.c: that `menu_is_visible` ends, from any state, and what it does to the
-- symbols.
use mkrootfs.Base.{ℕ, ◌<◌, ◌≡◌, sym as path_sym, Bool, true, Option, none, some, Returns}
use mkrootfs.Tristate.{Tristate}
use mkrootfs.Expr.{Expr}
use mkrootfs.Config.{Decls, State}
use mkrootfs.Config.Keeps.{Keeps}
use mkrootfs.Calc.Expression.{Libc}
use mkrootfs.Calc.Total.{OptionBelow, IsClosed}
use mkrootfs.Calc.Total.Main.{BooleanSafe}
use mkrootfs.Menu.{Prompt, own, Nodes}
use mkrootfs.Menu.Entry.{has_prompt}
use mkrootfs.Menu.Visible.{Screen}

-- Calculations lead from one state to the other.
pub record Kept (d : Decls) (st st' : State) : Type 0 where
  pub stays_valid : (x : ℕ) → (st.now_of x).valid ≡ true → (st'.now_of x).valid ≡ true
  pub same_value : (x : ℕ) → (st.now_of x).valid ≡ true → (st'.now_of x).curr ≡ (st.now_of x).curr
  pub same_user : (x : ℕ) → (st'.now_of x).user ≡ (st.now_of x).user
  pub safe : BooleanSafe d st'

-- The symbols that a menu and the condition of its prompt name are symbols of the tree.
abbrev pub MenuBelow : ℕ → Option ℕ → Prompt → Type 0
MenuBelow k (some s) _ = s < k
MenuBelow k none (own q) = OptionBelow k q.visible_expr
MenuBelow k none _ = Unit

-- The symbol of the menu, if it has one and a prompt, is valid.
abbrev pub NowValid : State → Option ℕ → Prompt → Type 0
NowValid st (some s) p = has_prompt p ≡ true → (st.now_of s).valid ≡ true
NowValid st none p = Unit

module _ (libc : Libc) (d : Decls) (closed : IsClosed d) (nodes : Nodes)
    (named : (a : ℕ) → MenuBelow d.bound (nodes a).sym (nodes a).prompt) where
  abbrev Goes : State → Option (Bool × Screen) → Type 0
  Goes st m = Returns (λ r. Kept d st r.1.symbols) m
