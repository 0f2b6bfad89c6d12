-- ===== src/Calc/Set/StringValue/Stored.antt =====
-- build-tools/kconfig/symbol.c: what `sym_set_string_value` stores for a symbol with a text.
use mkrootfs.Base.{ℕ, ◌<◌, ◌≡◌, ◌≢◌, String, Bool, true, false, some}
use mkrootfs.Symbol.{text}
use mkrootfs.Config.{Decls, State}
use mkrootfs.Calc.Expression.{Libc}
use mkrootfs.Calc.Total.{IsClosed}
use mkrootfs.Calc.Total.Main.{BooleanSafe}
use mkrootfs.Calc.Set.StringValue.{stored_text}
use mkrootfs.Calc.Set.StringValue.Cleared.{Cleared}

-- The result of setting the text of `s`: accepted, with the text stored as the only change of what the
-- user has set, or refused, with no such change. In either case no boolean symbol is m.
pub data StringSet (d : Decls) (s : ℕ) (newval : String) (st : State) : Bool × State → Type 0 where
  accepted :
      {st' : State}
      → (st'.now_of s).user.val ≡ text (stored_text (d.decl_of s).type newval)
      → (st'.now_of s).def_user ≡ true
      → ((x : ℕ) → x ≢ s → (st'.now_of x).user ≡ (st.now_of x).user)
      → ((x : ℕ) → x ≢ s → (st'.now_of x).def_user ≡ (st.now_of x).def_user)
      → BooleanSafe d st'
      → StringSet d s newval st (true, st')
  refused :
      {st' : State}
      → ((x : ℕ) → (st'.now_of x).user ≡ (st.now_of x).user)
      → ((x : ℕ) → (st'.now_of x).def_user ≡ (st.now_of x).def_user)
      → BooleanSafe d st'
      → StringSet d s newval st (false, st')

module _ (libc : Libc) (d : Decls) (closed : IsClosed d)
    (modules_lem : (m : ℕ) → d.modules_sym ≡ some m → m < d.bound) where
  -- The state before the assignment, against the first one.
  record Ready (s : ℕ) (st st2 : State) : Type 0 where
    user_lem : (x : ℕ) → (st2.now_of x).user ≡ (st.now_of x).user
    other_lem : (x : ℕ) → x ≢ s → (st2.now_of x).def_user ≡ (st.now_of x).def_user
    flag_lem : (st2.now_of s).def_user ≡ true
    safe : BooleanSafe d st2

  -- The assignment of a text.
  record Assigned (s : ℕ) (v : String) (st st' : State) : Type 0 where
    val_lem : (st'.now_of s).user.val ≡ text v
    other_lem : (x : ℕ) → x ≢ s → (st'.now_of x).user ≡ (st.now_of x).user
    def_user_lem : (x : ℕ) → (st'.now_of x).def_user ≡ (st.now_of x).def_user
    curr_lem : (x : ℕ) → (st'.now_of x).curr ≡ (st.now_of x).curr
