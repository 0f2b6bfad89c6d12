-- ===== src/Calc/Total/Range.antt =====
-- build-tools/kconfig/symbol.c, `sym_validate_range`, and the last lines of `sym_calc_value`, in
-- states with the invariant of the calculation.
use mkrootfs.Base.{
  ◌≡◌, ℕ, ◌<◌, refl, Bool, true, false, none, some, returned, if◌then◌else◌, leb_ℤ, ℤ,
}
use mkrootfs.Tristate.{Tristate}
use mkrootfs.Symbol.{Payload, p_null, p_expr, p_list, p_bounds}
use mkrootfs.Config.{Decls, State, return, modify, change, with_write, sym_set_changed}
use mkrootfs.Config.Keeps.{Keeps, Gives-bind, Keeps-bind, Keeps-return, Keeps-gets, Keeps-elim}
use mkrootfs.Calc.Expression.{Libc, Calc}
use mkrootfs.Calc.Visibility.{is_range, sym_get_range_prop, choice_values}
use mkrootfs.Calc.Range.{
  base_or, is_number, validate_bounds, set_number, sym_validate_range, sym_get_range_val,
}
use mkrootfs.Calc.Value.{is_modules, note_change, pass_flags, finish}
use mkrootfs.Calc.Invariant.{
  Past, Inv, Quiet, Quiet-refl, Quiet-trans, Quiet-change, Quiet-set_changed, Quiet-set_all_changed,
  Quiet-pass_flags, Inv-set_curr,
}
use mkrootfs.Calc.Total.{PayloadBelow, FoundBelow, IsClosed, first_visible-Gives}

pub Quiet-set_write : (s : ℕ) (b : Bool) (st : State) → Quiet st (change s (with_write b) st)
Quiet-set_write s b st = Quiet-change s (with_write b) st refl refl refl refl

pub Quiet-either :
    (b : Bool) {st l r : State} → Quiet st l → Quiet st r → Quiet st (if b then l else r)
Quiet-either true p q = p
Quiet-either false p q = q

-- A change of `modules_val` alone.
Quiet-set_modules : (v : Tristate) (st : State) → Quiet st (record st { modules_val = v })
Quiet-set_modules v st = record {
  valid_lem = λ _. refl;
  curr_lem = λ _. refl;
  user_lem = λ _. refl;
  def_user_lem = λ _. refl;
}

pub Quiet-note_change :
    (d : Decls) (s : ℕ) (same : Bool) (st : State) → Quiet st (note_change d s same st)
Quiet-note_change d s same st = Quiet-either same (Quiet-refl st) (
    Quiet-either (is_modules d s)
      (Quiet-trans (Quiet-set_changed d s st) (
        Quiet-trans (Quiet-set_all_changed d d.symbols (sym_set_changed d s st))
          (Quiet-set_modules _ _)))
      (Quiet-set_changed d s st))

pub Quiet-finish : (d : Decls) (s : ℕ) (st : State) → Quiet st (finish d s st)
Quiet-finish d s st =
    Quiet-either (d.decl_of s).auto (Quiet-trans passed (Quiet-set_write s false _)) passed
  where
    passed : Quiet st (
        if (d.decl_of s).choice
        then pass_flags d
            (st.now_of s).changed
            (st.now_of s).write
            (choice_values (d.decl_of s).prop)
            st
        else st)
    passed =
        Quiet-either (d.decl_of s).choice
          (Quiet-pass_flags d (st.now_of s).changed (st.now_of s).write
            (choice_values (d.decl_of s).prop) st)
          (Quiet-refl st)

module _ (libc : Libc) (d : Decls) (closed : IsClosed d) (past : Past) (n : ℕ) (calc : Calc)
    (ok : (s : ℕ) → s < d.bound → Keeps (Inv d past n) (calc s)) where
  set_number-Inv :
      (s : ℕ) (v : ℤ) (st : State)
      → past.kept s ≡ none
      → Inv d past n st
      → Inv d past n (set_number libc d s v st)
  set_number-Inv s v st fresh inv = Inv-set_curr s _ fresh (inv.boolean_ne s) inv

  pub range_val-Keeps :
      (s base : ℕ) → s < d.bound → Keeps (Inv d past n) (sym_get_range_val libc d calc s base)
  range_val-Keeps s base h =
      Keeps-bind (Inv d past n) (calc s) _ (ok s h) λ _. Keeps-gets (Inv d past n) _

  validate_bounds-Keeps :
      (s base lo hi : ℕ)
      → past.kept s ≡ none
      → lo < d.bound
      → hi < d.bound
      → Keeps (Inv d past n) (validate_bounds libc d calc s base lo hi)
  validate_bounds-Keeps s base lo hi fresh p q st inv =
      Keeps-bind (Inv d past n) (sym_get_range_val libc d calc lo base) _
        (range_val-Keeps lo base p)
        (λ val2.
          Keeps-elim (Inv d past n) (leb_ℤ val2 _) _ _
            (Keeps-bind (Inv d past n) (sym_get_range_val libc d calc hi base) _
              (range_val-Keeps hi base q)
              λ val3.
                Keeps-elim (Inv d past n) (leb_ℤ _ val3) _ _ (Keeps-return (Inv d past n) tt)
                  (clamped val3))
            (clamped val2))
        st inv
    where
      clamped : (v : ℤ) → Keeps (Inv d past n) (modify (set_number libc d s v))
      clamped v st' inv' =
          returned (record { value_lem = tt; state_lem = set_number-Inv s v st' fresh inv' })

  bounds-Keeps :
      (s : ℕ) (e : Payload)
      → past.kept s ≡ none
      → PayloadBelow d.bound e
      → Keeps (Inv d past n) (elim e [
        | p_bounds lo hi ↦ validate_bounds libc d calc s (base_or (d.decl_of s).type 10) lo hi
        | _ ↦ return tt
      ])
  bounds-Keeps s p_null fresh h = Keeps-return (Inv d past n) tt
  bounds-Keeps s (p_expr _) fresh h = Keeps-return (Inv d past n) tt
  bounds-Keeps s (p_list _) fresh h = Keeps-return (Inv d past n) tt
  bounds-Keeps s (p_bounds lo hi) fresh h = validate_bounds-Keeps s _ lo hi fresh h.0 h.1

  pub sym_validate_range-Keeps :
      (s : ℕ) → past.kept s ≡ none → Keeps (Inv d past n) (sym_validate_range libc d calc s)
  unfolding sym_validate_range sym_get_range_prop
  sym_validate_range-Keeps s fresh =
      Keeps-elim (Inv d past n) (is_number (d.decl_of s).type) _ _
        (Gives-bind (Inv d past n) (FoundBelow d.bound) (λ _. Unit) _ _
          (first_visible-Gives d past n calc ok is_range s 0 (d.decl_of s).prop
            (closed.props_lem s))
          (elim [
            | none ↦ λ _. Keeps-return (Inv d past n) tt
            | some (p, v) ↦ λ h. bounds-Keeps s p.expr fresh h
          ]))
        (Keeps-return (Inv d past n) tt)
