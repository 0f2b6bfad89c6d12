-- ===== src/Calc/Set/Within.antt =====
-- build-tools/kconfig/symbol.c: which values `sym_set_tristate_value` accepts, which one
-- `sym_toggle_tristate_value` ends at, and what `sym_calc_value` makes of a value that was set.
use mkrootfs.Base.{
  or-right, ℕ, suc, ◌≡◌, refl, ap, ◌∙◌, arith, Bool, true, false, ◌||◌, if◌then◌else◌, Option, none,
  some, Bool-cases, inl, inr,
}
use mkrootfs.Tristate.{Tristate, tri_no, tri_mod, tri_yes, tri_eq}
use mkrootfs.Config.{Decls, State, M, ◌>>=◌, return}
use mkrootfs.Calc.Expression.{Calc}
use mkrootfs.Calc.Set.{
  sym_get_tristate_value, sym_tristate_within_range, sym_set_tristate_value, next_value,
  toggle_loop, loop_end, set_if, sym_toggle_tristate_value, sym_clear_all_valid, write_tristate,
}

-- The next value in the order n, m, y, n that lies in the range, or the old one.
abbrev pub next_within : Decls → State → ℕ → Tristate
next_within d st s =
    let v1 = next_value (sym_get_tristate_value st s) in
    if sym_tristate_within_range d st s v1
    then v1
    else if sym_tristate_within_range d st s (next_value v1)
    then next_value v1
    else sym_get_tristate_value st s

next_value-other :
    (v : Tristate)
    → (tri_eq v (next_value v) ≡ false) × (tri_eq v (next_value (next_value v)) ≡ false)
next_value-other tri_no = (refl, refl)
next_value-other tri_mod = (refl, refl)
next_value-other tri_yes = (refl, refl)

next_value-cycle : (v : Tristate) → next_value (next_value (next_value v)) ≡ v
next_value-cycle tri_no = refl
next_value-cycle tri_mod = refl
next_value-cycle tri_yes = refl

tri_eq_refl : (v : Tristate) → tri_eq v v ≡ true
tri_eq_refl tri_no = refl
tri_eq_refl tri_mod = refl
tri_eq_refl tri_yes = refl

module _ (d : Decls) (calc : Calc) (s : ℕ) (st : State) where
  set_if-refused :
      (same within : Bool) (val : Tristate)
      → same ≡ false
      → within ≡ false
      → set_if d same within calc s val st ≡ some (false, st)
  set_if-refused false false val h k = refl
  set_if-refused true _ val h k = cc
  set_if-refused false true val h k = cc

  -- What follows an accepted value sees only that it was accepted.
  set_if-accepted :
      {B : Type 0} (same within : Bool) (val : Tristate) (f g : Bool → M B)
      → (same || within) ≡ true
      → ((st' : State) → f true st' ≡ g true st')
      → (set_if d same within calc s val >>= f) st ≡ (set_if d same within calc s val >>= g) st
  set_if-accepted {B} true _ val f g h k = k _
  set_if-accepted {B} false true val f g h k =
      after (sym_clear_all_valid d calc (write_tristate d s val st))
    where
      after :
          (o : Option (Unit {0} × State))
          → ◌≡◌ {A = Option (B × State)}
              (elim (elim o as (λ _. Option (Bool × State)) [
                | none ↦ none
                | some (_, st') ↦ some (true, st')
              ]) [ none ↦ none | some (a, st') ↦ f a st' ])
              (elim (elim o as (λ _. Option (Bool × State)) [
                | none ↦ none
                | some (_, st') ↦ some (true, st')
              ]) [ none ↦ none | some (a, st') ↦ g a st' ])
      after none = refl
      after (some (_, st')) = k st'
  set_if-accepted {B} false false val f g h k = cc

  loop_end-goes :
      (old newval : Tristate) (again : M Tristate)
      → tri_eq old newval ≡ false
      → loop_end d old newval again false st ≡ again st
  loop_end-goes old newval again h = ground arith

  -- From a value that is refused the loop goes on, at one that is accepted it ends.
  toggle_loop-accepted :
      (f : ℕ) (old newval : Tristate)
      → (tri_eq (sym_get_tristate_value st s) (next_value newval)
          || sym_tristate_within_range d st s (next_value newval))
        ≡ true
      → toggle_loop d (suc f) calc s old newval st
        ≡ (sym_set_tristate_value d calc s (next_value newval) >>= λ _. return (next_value newval))
            st
  unfolding toggle_loop sym_set_tristate_value
  toggle_loop-accepted f old newval h =
      set_if-accepted (tri_eq (sym_get_tristate_value st s) (next_value newval))
        (sym_tristate_within_range d st s (next_value newval)) (next_value newval)
        (loop_end d old (next_value newval) (toggle_loop d f calc s old (next_value newval)))
        (λ _. return (next_value newval)) h (λ st'. refl)

  toggle_loop-refused :
      (f : ℕ) (old newval : Tristate)
      → tri_eq (sym_get_tristate_value st s) (next_value newval) ≡ false
      → tri_eq old (next_value newval) ≡ false
      → sym_tristate_within_range d st s (next_value newval) ≡ false
      → toggle_loop d (suc f) calc s old newval st
        ≡ toggle_loop d f calc s old (next_value newval) st
  unfolding toggle_loop sym_set_tristate_value
  toggle_loop-refused f old newval h o k =
      ap
        (λ r. elim r as (λ _. Option (Tristate × State)) [
          | none ↦ none
          | some (ok, st') ↦
              loop_end d old (next_value newval) (toggle_loop d f calc s old (next_value newval)) ok
                st'
        ])
        (set_if-refused _ _ (next_value newval) h k)
      ∙ loop_end-goes old (next_value newval) (toggle_loop d f calc s old (next_value newval)) o

  abbrev set_to : Tristate → Option (Tristate × State)
  set_to v = (sym_set_tristate_value d calc s v >>= λ _. return v) st

  abbrev old : Tristate
  old = sym_get_tristate_value st s

  abbrev within : Tristate → Bool
  within v = sym_tristate_within_range d st s v

  next_within-first : within (next_value old) ≡ true → next_value old ≡ next_within d st s
  next_within-first w = ground arith

  next_within-second :
      within (next_value old) ≡ false
      → within (next_value (next_value old)) ≡ true
      → next_value (next_value old) ≡ next_within d st s
  next_within-second w x = ground arith

  next_within-old :
      within (next_value old) ≡ false
      → within (next_value (next_value old)) ≡ false
      → old ≡ next_within d st s
  next_within-old w x = ground arith

  -- `sym_toggle_tristate_value` sets the next value in the order n, m, y, n that lies in the range of
  -- the symbol, or sets the old value again where neither of the other two does, and returns it.
  pub sym_toggle_tristate_value-next_within :
      sym_toggle_tristate_value d calc s st
      ≡ (sym_set_tristate_value d calc s (next_within d st s) >>= λ _. return (next_within d st s))
          st
  unfolding sym_toggle_tristate_value
  sym_toggle_tristate_value-next_within = elim (Bool-cases (within v1)) [
    | inl w ↦
        toggle_loop-accepted 2 old old (or-right (tri_eq old v1) _ w)
        ∙ ap set_to (next_within-first w)
    | inr w ↦ elim (Bool-cases (within v2)) [
      | inl x ↦
          toggle_loop-refused 2 old old ne.0 ne.0 w
          ∙ toggle_loop-accepted 1 old v1 (or-right (tri_eq old v2) _ x)
          ∙ ap set_to (next_within-second w x)
      | inr x ↦
          toggle_loop-refused 2 old old ne.0 ne.0 w
          ∙ toggle_loop-refused 1 old v1 ne.1 ne.1 x
          ∙ toggle_loop-accepted 0 old v2 (
              ap (λ v. tri_eq old v || within v) cycle
              ∙ ap (λ b. b || within old) (tri_eq_refl old))
          ∙ ap set_to (cycle ∙ next_within-old w x)
    ]
  ]
    where
      v1 : Tristate
      v1 = next_value old

      v2 : Tristate
      v2 = next_value v1

      ne : (tri_eq old v1 ≡ false) × (tri_eq old v2 ≡ false)
      ne = next_value-other old

      cycle : next_value v2 ≡ old
      cycle = next_value-cycle old
