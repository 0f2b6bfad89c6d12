-- ===== src/Calc/Total/Steps.antt =====
-- build-tools/kconfig/symbol.c: `sym_calc_visibility` and `sym_calc_choice` in states with the
-- invariant of the calculation.
use mkrootfs.Base.{
  ℕ, suc, ◌<◌, ◌≡◌, refl, Bool, true, false, List, [], ◌∷◌, Option, none, some, returned,
  if◌then◌else◌, Option-cases, inl, inr,
}
use mkrootfs.Tristate.{Tristate, tri_no, tri_eq, expr_or}
use mkrootfs.Symbol.{Property, Val, null, text, symbol}
use mkrootfs.Config.{Decls, State, M, with_visible, with_rev_dep, sym_set_changed, prop_get_symbol}
use mkrootfs.Config.Keeps.{Keeps, Keeps-bind, Keeps-return, Keeps-elim}
use mkrootfs.Expr.{Expr}
use mkrootfs.Calc.Expression.{Calc}
use mkrootfs.Calc.Visibility.{
  is_default, prompts_visibility, set_visible, set_rev_dep, rev_dep_value, sym_calc_visibility,
  if_visible, first_value, default_value, user_choice, any_value, sym_calc_choice, choice_values,
}
use mkrootfs.Calc.Invariant.{
  Past, Inv, Quiet, Quiet-refl, Quiet-trans, Quiet-change, Quiet-set_changed, Inv-Quiet,
  Inv-set_curr,
}
use mkrootfs.Calc.Total.{PropsBelow, OptionBelow, IsClosed, calc_expr-Keeps, calc_prop-Keeps}

-- `if (sym->field != tri) { sym->field = tri; sym_set_changed(sym); }`
Quiet-if :
    (d : Decls) (s : ℕ) (b : Bool) {st st' : State}
    → Quiet st st'
    → Quiet st (if b then st else sym_set_changed d s st')
Quiet-if d s true {st} {st'} q = Quiet-refl st
Quiet-if d s false {st} {st'} q = Quiet-trans q (Quiet-set_changed d s st')

Quiet-set_visible :
    (d : Decls) (s : ℕ) (tri : Tristate) (st : State) → Quiet st (set_visible d s tri st)
Quiet-set_visible d s tri st =
    Quiet-if d s _ (Quiet-change s (with_visible _) st refl refl refl refl)

Quiet-set_rev_dep :
    (d : Decls) (s : ℕ) (tri : Tristate) (st : State) → Quiet st (set_rev_dep d s tri st)
Quiet-set_rev_dep d s tri st =
    Quiet-if d s _ (Quiet-change s (with_rev_dep _) st refl refl refl refl)

module _ (d : Decls) (closed : IsClosed d) (past : Past) (n : ℕ) (calc : Calc)
    (ok : (s : ℕ) → s < d.bound → Keeps (Inv d past n) (calc s)) where
  prompts_visibility-Keeps :
      (s i : ℕ) (ps : List Property) (tri : Tristate)
      → PropsBelow d.bound ps
      → Keeps (Inv d past n) (prompts_visibility d calc s i ps tri)
  unfolding prompts_visibility
  prompts_visibility-Keeps s i [] tri h = Keeps-return (Inv d past n) tri
  prompts_visibility-Keeps s i (p ∷ ps) tri h = elim (Option-cases p.prompt) [
    | inl e ↦ rw (e, prompts_visibility) (prompts_visibility-Keeps s (suc i) ps tri h.1)
    | inr (x, e) ↦
        rw (e, prompts_visibility)
          (Keeps-bind (Inv d past n) _ _ (calc_prop-Keeps d past n calc ok s i p h.0.0)
            λ v. prompts_visibility-Keeps s (suc i) ps (expr_or tri v) h.1)
  ]

  rev_dep_value-Keeps :
      (o : Option Expr) → OptionBelow d.bound o → Keeps (Inv d past n) (rev_dep_value d calc o)
  rev_dep_value-Keeps none h = Keeps-return (Inv d past n) tri_no
  rev_dep_value-Keeps (some e) h = calc_expr-Keeps d past n calc ok e h

  pub sym_calc_visibility-Keeps : (s : ℕ) → Keeps (Inv d past n) (sym_calc_visibility d calc s)
  unfolding sym_calc_visibility
  sym_calc_visibility-Keeps s =
      Keeps-bind (Inv d past n) _ _
        (prompts_visibility-Keeps s 0 (d.decl_of s).prop tri_no (closed.props_lem s))
        λ tri st inv.
          Keeps-elim (Inv d past n) (d.decl_of s).choiceval _ _ (Keeps-return (Inv d past n) tt)
            (Keeps-bind (Inv d past n) _ _
              (rev_dep_value-Keeps (d.decl_of s).rev_dep_expr (closed.rev_dep_lem s))
              λ v st' inv'. returned (record {
                value_lem = tt;
                state_lem = Inv-Quiet (Quiet-set_rev_dep d s v st') inv';
              }))
            (set_visible d s tri st) (Inv-Quiet (Quiet-set_visible d s tri st) inv)

  if_visible-Keeps :
      (s : ℕ) (rest : M (Option ℕ))
      → Keeps (Inv d past n) rest
      → Keeps (Inv d past n) (if_visible d calc s rest)
  if_visible-Keeps s rest h =
      Keeps-bind (Inv d past n) _ _ (sym_calc_visibility-Keeps s) λ _ st inv.
        Keeps-elim (Inv d past n) (tri_eq (st.now_of s).visible tri_no) rest _ h
          (Keeps-return (Inv d past n) (some s)) st inv

  first_value-Keeps : (l : List ℕ) → Keeps (Inv d past n) (first_value d calc l)
  unfolding first_value
  first_value-Keeps [] = Keeps-return (Inv d past n) none
  first_value-Keeps (s ∷ l) = if_visible-Keeps s (first_value d calc l) (first_value-Keeps l)

  default_value-Keeps :
      (s i : ℕ) (ps : List Property) (rest : M (Option ℕ))
      → PropsBelow d.bound ps
      → Keeps (Inv d past n) rest
      → Keeps (Inv d past n) (default_value d calc s i ps rest)
  unfolding default_value
  default_value-Keeps s i [] rest h k = k
  default_value-Keeps s i (p ∷ ps) rest h k =
      let ih = default_value-Keeps s (suc i) ps rest h.1 k in
      Keeps-elim (Inv d past n) (is_default p.type) _ _
        (Keeps-bind (Inv d past n) _ _ (calc_prop-Keeps d past n calc ok s i p h.0.0) λ tri.
          Keeps-elim (Inv d past n) (tri_eq tri tri_no) _ _ ih (named (prop_get_symbol p) _ ih))
        ih
    where
      named :
          (o : Option ℕ) (m : M (Option ℕ))
          → Keeps (Inv d past n) m
          → Keeps (Inv d past n) (elim o [ some x ↦ if_visible d calc x m | none ↦ m ])
      named none m hm = hm
      named (some x) m hm = if_visible-Keeps x m hm

  user_choice-Keeps :
      (v : Val) (rest : M (Option ℕ))
      → Keeps (Inv d past n) rest
      → Keeps (Inv d past n) (user_choice d calc v rest)
  user_choice-Keeps (symbol x) rest h = if_visible-Keeps x rest h
  user_choice-Keeps null rest h = h
  user_choice-Keeps (text _) rest h = h

  any_value-Keeps : (s : ℕ) → past.kept s ≡ none → Keeps (Inv d past n) (any_value d calc s)
  any_value-Keeps s fresh =
      Keeps-bind (Inv d past n) _ _ (first_value-Keeps (choice_values (d.decl_of s).prop)) (elim [
        | some x ↦ Keeps-return (Inv d past n) (some x)
        | none ↦ λ st inv. returned (record {
          value_lem = tt;
          state_lem =
              Inv-set_curr s (record (st.now_of s).curr { tri = tri_no }) fresh (λ _ e. cc) inv;
        })
      ])

  pub sym_calc_choice-Keeps :
      (s : ℕ) → past.kept s ≡ none → Keeps (Inv d past n) (sym_calc_choice d calc s)
  unfolding sym_calc_choice
  sym_calc_choice-Keeps s fresh st inv =
      user_choice-Keeps (st.now_of s).user.val _
        (default_value-Keeps s 0 (d.decl_of s).prop _ (closed.props_lem s)
          (any_value-Keeps s fresh))
        st inv
