-- ===== src/Calc/Total/Marks.antt =====
-- The invariant of the calculation when a symbol becomes valid, and how many symbols are not.
use mkrootfs.Base.{◌||◌, ◌==◌, ==_iff, or-right, ℕ, zero, suc, ◌≤◌, ◌<◌, ◌≡◌, arith, true, false}
use mkrootfs.Config.{Decls, State}
use mkrootfs.Calc.Invariant.{Past, invalid, Inv}

pub invalid-le_bound : (k : ℕ) (st : State) → invalid k st ≤ k
unfolding invalid
invalid-le_bound zero st = omega arith
invalid-le_bound (suc k) st = ground (arith, invalid-le_bound k st)

-- A symbol that is not valid is one of the invalid ones.
pub invalid-pos : (k s : ℕ) (st : State) → s < k → (st.now_of s).valid ≡ false → 0 < invalid k st
unfolding invalid
invalid-pos zero s st lt e = absurd (omega arith)
invalid-pos (suc k) s st lt e = ground (arith, λ (l : s < k). invalid-pos k s st l e)

-- What held before, and that `s` is valid.
abbrev pub and_valid : ℕ → Past → Past
and_valid s past = record {
  kept = past.kept;
  known = λ x. (x == s) || past.known x;
  kept_lem = λ x v h. or-right (x == s) _ (past.kept_lem x v h);
  user_of = past.user_of;
  def_user_of = past.def_user_of;
}

pub Inv-forget :
    {d : Decls} {past : Past} {n : ℕ} {st : State} (s : ℕ)
    → Inv d (and_valid s past) n st
    → Inv d past n st
Inv-forget s i = record {
  few = i.few;
  keeps_valid = λ x h. i.keeps_valid x (or-right (x == s) _ h);
  keeps_value = i.keeps_value;
  keeps_user = i.keeps_user;
  keeps_def_user = i.keeps_def_user;
  boolean_ne = i.boolean_ne;
}

pub Inv-and_valid :
    {d : Decls} {past : Past} {n : ℕ} {st : State} (s : ℕ)
    → (st.now_of s).valid ≡ true
    → Inv d past n st
    → Inv d (and_valid s past) n st
Inv-and_valid {past} s e i = record {
  few = i.few;
  keeps_valid = λ x h. ground (arith, i.keeps_valid x, ==_iff x s, e);
  keeps_value = i.keeps_value;
  keeps_user = i.keeps_user;
  keeps_def_user = i.keeps_def_user;
  boolean_ne = i.boolean_ne;
}

pub Inv-weaken :
    {d : Decls} {past : Past} {n : ℕ} {st : State} → Inv d past n st → Inv d past (suc n) st
Inv-weaken i = record {
  few = omega (arith, i.few);
  keeps_valid = i.keeps_valid;
  keeps_value = i.keeps_value;
  keeps_user = i.keeps_user;
  keeps_def_user = i.keeps_def_user;
  boolean_ne = i.boolean_ne;
}
