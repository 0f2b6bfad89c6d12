-- ===== src/Calc/Set/StringValue/Cleared.antt =====
-- build-tools/kconfig/symbol.c: the steps of `sym_set_string_value` that set and clear flags.
use mkrootfs.Base.{
  ℕ, ◌<◌, ◌≡◌, ◌≢◌, refl, sym, ap, ◌∙◌, arith, Bool, true, false, if◌then◌else◌, Option, none, some,
  List, [], ◌∷◌, Returns, returned, Returns-map,
}
use mkrootfs.Symbol.{SymbolValue}
use mkrootfs.Config.{Decls, State, return, change, with_valid}
use mkrootfs.Calc.Expression.{Libc}
use mkrootfs.Calc.Run.{sym_calc_value}
use mkrootfs.Calc.Invariant.{Quiet, Quiet-set_changed}
use mkrootfs.Calc.Total.{IsClosed}
use mkrootfs.Calc.Total.Main.{BooleanSafe, sym_calc_value-Calculates}
use mkrootfs.Calc.Set.{
  sym_set_changed, clear_valid, with_def_user, set_def_user, sym_add_change_count,
  sym_clear_all_valid,
}

-- What the user has set is as before.
pub record SameUser (st st' : State) : Type 0 where
  pub user_lem : (x : ℕ) → (st'.now_of x).user ≡ (st.now_of x).user
  pub def_user_lem : (x : ℕ) → (st'.now_of x).def_user ≡ (st.now_of x).def_user

SameUser-trans : (a b c : State) → SameUser a b → SameUser b c → SameUser a c
SameUser-trans a b c h k = record {
  user_lem = λ x. k.user_lem x ∙ h.user_lem x;
  def_user_lem = λ x. k.def_user_lem x ∙ h.def_user_lem x;
}

-- The step from one state to another, for the symbols' values and what the user has set, where only
-- the flag SYMBOL_DEF_USER of `s` may change.
pub record Flagged (s : ℕ) (st st' : State) : Type 0 where
  pub user_lem : (x : ℕ) → (st'.now_of x).user ≡ (st.now_of x).user
  pub other_lem : (x : ℕ) → x ≢ s → (st'.now_of x).def_user ≡ (st.now_of x).def_user
  pub flag_lem : (st'.now_of s).def_user ≡ true
  pub curr_lem : (x : ℕ) → (st'.now_of x).curr ≡ (st.now_of x).curr

pub set_def_user-Flagged : (d : Decls) (s : ℕ) (st : State) → Flagged s st (set_def_user d s st)
set_def_user-Flagged d s st = go ((st.now_of s).def_user) refl
  where
    quiet : Quiet (change s with_def_user st) (sym_set_changed d s (change s with_def_user st))
    quiet = Quiet-set_changed d s (change s with_def_user st)

    go :
        (b : Bool)
        → (st.now_of s).def_user ≡ b
        → Flagged s st (if b then st else sym_set_changed d s (change s with_def_user st))
    go true e = record {
      user_lem = λ x. refl;
      other_lem = λ x _. refl;
      flag_lem = e;
      curr_lem = λ x. refl;
    }
    go false e = record {
      user_lem = λ x. quiet.user_lem x ∙ ground arith;
      other_lem = λ x ne. quiet.def_user_lem x ∙ ground arith;
      flag_lem = quiet.def_user_lem s ∙ ground arith;
      curr_lem = λ x. quiet.curr_lem x ∙ ground arith;
    }

pub BooleanSafe-curr :
    (d : Decls) (st st' : State)
    → ((x : ℕ) → (st'.now_of x).curr ≡ (st.now_of x).curr)
    → BooleanSafe d st
    → BooleanSafe d st'
unfolding BooleanSafe
BooleanSafe-curr d st st' h safe s b e = safe s b (sym (ap (λ (v : SymbolValue). v.tri) (h s)) ∙ e)

pub record Cleared (d : Decls) (st st' : State) : Type 0 where
  pub same_user : SameUser st st'
  pub safe : BooleanSafe d st'

clear_valid-SameUser : (l : List ℕ) (st : State) → SameUser st (clear_valid l st)
unfolding clear_valid
clear_valid-SameUser [] st = record { user_lem = λ x. refl; def_user_lem = λ x. refl }
clear_valid-SameUser (s ∷ l) st =
    SameUser-trans st (change s (with_valid false) st) _
      (record { user_lem = λ x. ground arith; def_user_lem = λ x. ground arith })
      (clear_valid-SameUser l (change s (with_valid false) st))

clear_valid-curr :
    (l : List ℕ) (st : State) (x : ℕ) → ((clear_valid l st).now_of x).curr ≡ (st.now_of x).curr
unfolding clear_valid
clear_valid-curr [] st x = refl
clear_valid-curr (s ∷ l) st x = clear_valid-curr l (change s (with_valid false) st) x ∙ ground arith

module _ (libc : Libc) (d : Decls) (closed : IsClosed d)
    (modules_lem : (m : ℕ) → d.modules_sym ≡ some m → m < d.bound) where
  pub clear-Cleared :
      (st : State)
      → BooleanSafe d st
      → Returns (λ r. Cleared d st r.1) (sym_clear_all_valid d (sym_calc_value libc d) st)
  unfolding sym_clear_all_valid
  clear-Cleared st safe = modules d.modules_sym refl
    where
      same : SameUser st (sym_add_change_count 1 (clear_valid d.symbols st))
      same = record {
        user_lem = (clear_valid-SameUser d.symbols st).user_lem;
        def_user_lem = (clear_valid-SameUser d.symbols st).def_user_lem;
      }

      still : BooleanSafe d (sym_add_change_count 1 (clear_valid d.symbols st))
      still = BooleanSafe-curr d st _ (clear_valid-curr d.symbols st) safe

      modules :
          (o : Option ℕ)
          → d.modules_sym ≡ o
          → Returns
              (λ r. Cleared d st r.1)
              ((elim o as (λ _. State → Option (Unit {0} × State)) [
                | none ↦ return tt
                | some m ↦ sym_calc_value libc d m
              ])
                (sym_add_change_count 1 (clear_valid d.symbols st)))
      modules none e = returned (record { same_user = same; safe = still })
      modules (some m) e =
          Returns-map (sym_calc_value-Calculates libc d closed m (modules_lem m e) _ still) λ r k.
            record {
              same_user =
                  SameUser-trans st _ r.1 same
                    (record { user_lem = k.same_user; def_user_lem = k.same_def_user });
              safe = k.safe;
            }
