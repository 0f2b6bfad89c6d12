-- ===== src/Calc/Total/Main.antt =====
-- build-tools/kconfig/symbol.c: `sym_calc_value` in states with the invariant of the calculation.
use mkrootfs.Base.{
  refl, if◌then◌else◌, ◌==◌, or-right, Option, ==-refl, none, ℕ, zero, suc, ◌<◌, ◌≡◌, ◌≢◌, arith,
  true, false, some, Returns, Returns-map, returned, Bool-cases, Option-cases, inl, inr,
}
use mkrootfs.Tristate.{tri_mod}
use mkrootfs.Symbol.{SymbolType, is_boolean, SymbolValue}
use mkrootfs.Config.{Decls, State, change, with_valid}
use mkrootfs.Config.Keeps.{Keeps, Gives-bind, Keeps-bind, Holds}
use mkrootfs.Calc.Expression.{Libc, Calc}
use mkrootfs.Calc.Range.{set_curr, initial_value}
use mkrootfs.Calc.Run.{calc_from, calc_step, calc_fuel, sym_calc_value}
use mkrootfs.Calc.Invariant.{
  Past, kept-none, Inv, Quiet-refl, Quiet-trans, Inv-Quiet, Inv-set_curr, Inv-set_valid,
}
use mkrootfs.Calc.Total.{IsClosed}
use mkrootfs.Calc.Total.Steps.{sym_calc_visibility-Keeps}
use mkrootfs.Calc.Total.Range.{
  Quiet-set_write, Quiet-either, Quiet-note_change, Quiet-finish, sym_validate_range-Keeps,
}
use mkrootfs.Calc.Total.Marks.{
  and_valid, invalid-le_bound, invalid-pos, Inv-forget, Inv-and_valid, Inv-weaken,
}
use mkrootfs.Calc.Total.Values.{Suits, new_value-Gives, choose-Keeps}

initial_value-ne : (ty : SymbolType) (v : SymbolValue) → initial_value ty ≡ some v → v.tri ≢ tri_mod
initial_value-ne ty v h e = ground arith

module _ (libc : Libc) (d : Decls) (closed : IsClosed d) (past : Past) (n : ℕ) (calc : Calc)
    (ok : (s : ℕ) → s < d.bound → Keeps (Inv d past n) (calc s)) where
  calc_from-Keeps :
      (s : ℕ) (oldval v : SymbolValue)
      → past.kept s ≡ none
      → v.tri ≢ tri_mod
      → Keeps (Inv d past n) (calc_from libc d calc s oldval v)
  unfolding calc_from
  calc_from-Keeps s oldval v fresh h st inv =
      Keeps-bind (Inv d past n) _ _ (sym_calc_visibility-Keeps d closed past n calc ok s)
        (λ _ st1 inv1.
          Gives-bind (Inv d past n) (λ (w : SymbolValue). Suits d s w.tri) (λ _. Unit) _ _
            (new_value-Gives d closed past n calc ok s v h)
            (λ w suits st2 inv2.
              Keeps-bind (Inv d past n) _ _ (choose-Keeps d closed past n calc ok s w.tri fresh)
                (λ _.
                  Keeps-bind (Inv d past n) _ _
                    (sym_validate_range-Keeps libc d closed past n calc ok s fresh)
                    λ _ st3 inv3. returned (record {
                      value_lem = tt;
                      state_lem =
                          Inv-Quiet (Quiet-trans (Quiet-note_change d s _ st3) (Quiet-finish d s _))
                            inv3;
                    }))
                (set_curr s w st2) (Inv-set_curr s w fresh suits inv2))
            (set_curr s v st1) (Inv-set_curr s v fresh (λ _. h) inv1))
        _
        (Inv-Quiet
          (Quiet-either (d.decl_of s).choiceval (Quiet-refl st) (Quiet-set_write s false st)) inv)

  -- One call on a symbol that is not valid, after the symbol is marked.
  calc_step-Keeps :
      (s : ℕ) (st : State)
      → past.kept s ≡ none
      → (st.now_of s).valid ≡ false
      → Inv d past n (change s (with_valid true) st)
      → Returns (Holds (Inv d past n) (λ (_ : Unit {0}). Unit {0})) (calc_step libc d calc s st)
  unfolding calc_step
  calc_step-Keeps s st fresh e inv =
      rw (e, calc_step)
        (elim (Option-cases (initial_value (d.decl_of s).type)) [
          | inl none_lem ↦ rw none_lem (
              returned
                (record { value_lem = tt; state_lem = Inv-set_curr s _ fresh (λ _ h. cc) inv }))
          | inr (v, some_lem) ↦ rw some_lem (
              calc_from-Keeps s _ v fresh (initial_value-ne _ v some_lem)
                (change s (with_valid true) st) inv)
        ])

module _ (libc : Libc) (d : Decls) (closed : IsClosed d) (calc : Calc) (f : ℕ)
    (ok : (past : Past) (n : ℕ)
      → n < f
      → (s : ℕ) → s < d.bound
      → Keeps (Inv d past n) (calc s)) where
  spend-Keeps :
      (past : Past) (s n : ℕ)
      → s < d.bound
      → n < suc f
      → (st : State) → (st.now_of s).valid ≡ false
      → Inv d past n st
      → Returns
          (Holds (Inv d (and_valid s past) n) (λ (_ : Unit {0}). Unit {0}))
          (calc_step libc d calc s st)
  spend-Keeps past s zero lt h st e inv =
      absurd (omega (arith, invalid-pos d.bound s st lt e, inv.few))
  spend-Keeps past s (suc m) lt h st e inv =
      Returns-map
        (calc_step-Keeps libc d closed (and_valid s past) m calc
          (ok (and_valid s past) m (omega arith)) s st (kept-none s e inv) e
          (Inv-and_valid s (ground (arith, ==-refl s)) (Inv-set_valid s lt e inv)))
        λ r k. record { value_lem = tt; state_lem = Inv-weaken k.state_lem }

calc_fuel-Marks :
    (libc : Libc) (d : Decls)
    → IsClosed d
    → (f : ℕ) (past : Past) (n : ℕ) → n < f
    → (s : ℕ) → s < d.bound
    → (st : State) → Inv d past n st
    → Returns
        (Holds (Inv d (and_valid s past) n) (λ (_ : Unit {0}). Unit {0}))
        (calc_fuel libc d f s st)
unfolding calc_fuel calc_step
calc_fuel-Marks libc d closed zero past n h s lt st inv = absurd (omega arith)
calc_fuel-Marks libc d closed (suc f) past n h s lt st inv =
    let ok =
      λ (past' : Past) (m : ℕ) (k : m < f) (x : ℕ) (l : x < d.bound) (st' : State)
          (i : Inv d past' m st').
        Returns-map (calc_fuel-Marks libc d closed f past' m k x l st' i)
          λ r h'. record { value_lem = tt; state_lem = Inv-forget x h'.state_lem } in
    elim (Bool-cases (st.now_of s).valid) [
      | inl e ↦ rw e (returned (record { value_lem = tt; state_lem = Inv-and_valid s e inv }))
      | inr e ↦ spend-Keeps libc d closed (calc_fuel libc d f) f ok past s n lt h st e inv
    ]

-- No boolean symbol has the value `m`.
unfoldable pub BooleanSafe : Decls → State → Type 0
BooleanSafe d st = (s : ℕ) → is_boolean (d.decl_of s).type ≡ true → (st.now_of s).curr.tri ≢ tri_mod

-- What a calculation of `s` does to the symbols' values.
pub record Calculates (d : Decls) (s : ℕ) (st st' : State) : Type 0 where
  pub now_valid : (st'.now_of s).valid ≡ true
  pub stays_valid : (x : ℕ) → (st.now_of x).valid ≡ true → (st'.now_of x).valid ≡ true
  pub same_value : (x : ℕ) → (st.now_of x).valid ≡ true → (st'.now_of x).curr ≡ (st.now_of x).curr
  pub same_user : (x : ℕ) → (st'.now_of x).user ≡ (st.now_of x).user
  pub same_def_user : (x : ℕ) → (st'.now_of x).def_user ≡ (st.now_of x).def_user
  pub safe : BooleanSafe d st'

-- Which symbols are valid in a state, and their values.
abbrev pub valid_value : State → ℕ → Option SymbolValue
valid_value st x = if (st.now_of x).valid then some ((st.now_of x).curr) else none

pub valid_value-some :
    (st : State) (x : ℕ) (v : SymbolValue) → valid_value st x ≡ some v → (st.now_of x).valid ≡ true
valid_value-some st x v h = ground arith

abbrev pub past_of : State → Past
past_of st = record {
  kept = valid_value st;
  known = λ x. (st.now_of x).valid;
  kept_lem = valid_value-some st;
  user_of = λ x. (st.now_of x).user;
  def_user_of = λ x. (st.now_of x).def_user;
}

pub Inv-BooleanSafe :
    {d : Decls} {past : Past} {n : ℕ} {st : State} → Inv d past n st → BooleanSafe d st
unfolding BooleanSafe
Inv-BooleanSafe i = i.boolean_ne

pub Inv-past_of : (d : Decls) (st : State) → BooleanSafe d st → Inv d (past_of st) d.bound st
unfolding BooleanSafe
Inv-past_of d st safe = record {
  few = invalid-le_bound d.bound st;
  keeps_valid = λ x h. h;
  keeps_value = λ x v h. ground arith;
  keeps_user = λ x. refl;
  keeps_def_user = λ x. refl;
  boolean_ne = safe;
}

pub sym_calc_value-Calculates :
    (libc : Libc) (d : Decls)
    → IsClosed d
    → (s : ℕ) → s < d.bound
    → (st : State) → BooleanSafe d st
    → Returns (λ r. Calculates d s st r.1) (sym_calc_value libc d s st)
unfolding sym_calc_value BooleanSafe
sym_calc_value-Calculates libc d closed s lt st safe =
    Returns-map
      (calc_fuel-Marks libc d closed (suc d.bound) (past_of st) d.bound (omega arith) s lt st
        (Inv-past_of d st safe))
      λ r k. record {
        now_valid = k.state_lem.keeps_valid s (ground (arith, ==-refl s));
        stays_valid = λ x h. k.state_lem.keeps_valid x (or-right (x == s) _ h);
        same_value = λ x h. k.state_lem.keeps_value x _ (rw h);
        same_user = k.state_lem.keeps_user;
        same_def_user = k.state_lem.keeps_def_user;
        safe = k.state_lem.boolean_ne;
      }

pub sym_calc_value-BooleanSafe :
    (libc : Libc) (d : Decls)
    → IsClosed d
    → (s : ℕ) → s < d.bound
    → (st : State) → BooleanSafe d st
    → Returns (λ r. BooleanSafe d r.1) (sym_calc_value libc d s st)
sym_calc_value-BooleanSafe libc d closed s lt st safe =
    Returns-map (sym_calc_value-Calculates libc d closed s lt st safe) λ r k. k.safe

-- The rule for a call of `sym_calc_value` in a longer calculation.
pub sym_calc_value-Keeps :
    (libc : Libc) (d : Decls)
    → IsClosed d
    → (past : Past) (s : ℕ) → s < d.bound
    → Keeps (Inv d past d.bound) (sym_calc_value libc d s)
unfolding sym_calc_value
sym_calc_value-Keeps libc d closed past s lt st inv =
    Returns-map (calc_fuel-Marks libc d closed (suc d.bound) past d.bound (omega arith) s lt st inv)
      λ r k. record { value_lem = tt; state_lem = Inv-forget s k.state_lem }
