-- ===== src/Calc/Total/Values.antt =====
-- build-tools/kconfig/symbol.c: how `sym_calc_value` finds the new value of a symbol, in states
-- with the invariant of the calculation.
use mkrootfs.Base.{
  ℕ, ◌<◌, ◌≡◌, ◌≢◌, refl, arith, Bool, true, Option, none, some, returned, some_inj, not, ◌&&◌,
  ◌||◌, if◌then◌else◌,
}
use mkrootfs.Tristate.{Tristate, tri_no, tri_mod, tri_yes, tri_eq, expr_and}
use mkrootfs.Expr.{e_symbol}
use mkrootfs.Symbol.{
  is_boolean, is_tristate, Property, Payload, p_null, p_expr, p_list, p_bounds, Val, SymbolValue,
}
use mkrootfs.Config.{
  Decls, State, ◌>>=◌, ◌>>◌, return, modify, gets, sym_get_type, prop_get_symbol, payload_symbol,
}
use mkrootfs.Config.Keeps.{
  Gives, Keeps, Gives-bind, Keeps-bind, Keeps-return, Gives-gets, Keeps-gets, Gives-elim,
  Keeps-elim,
}
use mkrootfs.Calc.Expression.{Calc}
use mkrootfs.Calc.Visibility.{is_default, sym_get_default_prop}
use mkrootfs.Calc.Range.{address_or_null}
use mkrootfs.Calc.Value.{
  set_write, calc_payload, default_tri, without_user, plain_tri, tristate_value, default_text,
  text_value, new_value, choose, chosen, or_rev_dep,
}
use mkrootfs.Calc.Invariant.{Past, Inv, Quiet-refl, Inv-Quiet, Inv-set_curr}
use mkrootfs.Calc.Total.{PayloadBelow, FoundBelow, IsClosed, calc_expr-Keeps, first_visible-Gives}
use mkrootfs.Calc.Total.Steps.{sym_calc_choice-Keeps}
use mkrootfs.Calc.Total.Range.{Quiet-set_write, Quiet-either}

payload_symbol-lt :
    {k : ℕ} (e : Payload) (x : ℕ) → PayloadBelow k e → payload_symbol e ≡ some x → x < k
payload_symbol-lt (p_expr (e_symbol s)) x h e = rw (← some_inj e) h
payload_symbol-lt _ x h e = cc

sym_get_type-boolean :
    (d : Decls) (st : State) (s : ℕ)
    → is_boolean (d.decl_of s).type ≡ true
    → is_boolean (sym_get_type d st s) ≡ true
unfolding sym_get_type
sym_get_type-boolean d st s h = ground arith

-- The value suits the symbol: for a boolean symbol it is not `m`.
abbrev pub Suits : Decls → ℕ → Tristate → Type 0
Suits d s v = is_boolean (d.decl_of s).type ≡ true → v ≢ tri_mod

module _ (d : Decls) (closed : IsClosed d) (past : Past) (n : ℕ) (calc : Calc)
    (ok : (s : ℕ) → s < d.bound → Keeps (Inv d past n) (calc s)) where
  default_tri-Keeps :
      (s : ℕ) (r : Option (Property × Tristate))
      → FoundBelow d.bound r
      → Keeps (Inv d past n) (default_tri d calc s r)
  default_tri-Keeps s none h st inv = Keeps-return (Inv d past n) tri_no st inv
  default_tri-Keeps s (some (p, v)) h st inv =
      Keeps-bind (Inv d past n) _ _ (payload p.expr h)
        (λ w. Keeps-return (Inv d past n) (expr_and w v)) (set_write d s true st)
        (Inv-Quiet (Quiet-set_write s true st) inv)
    where
      payload :
          (e : Payload) → PayloadBelow d.bound e → Keeps (Inv d past n) (calc_payload d calc e)
      payload p_null k = Keeps-return (Inv d past n) tri_yes
      payload (p_expr e) k = calc_expr-Keeps d past n calc ok e k
      payload (p_list _) k = Keeps-return (Inv d past n) tri_no
      payload (p_bounds _ _) k = Keeps-return (Inv d past n) tri_no

  default_prop-Gives :
      (s : ℕ) → Gives (Inv d past n) (FoundBelow d.bound) (sym_get_default_prop d calc s)
  unfolding sym_get_default_prop
  default_prop-Gives s =
      first_visible-Gives d past n calc ok is_default s 0 (d.decl_of s).prop (closed.props_lem s)

  without_user-Keeps : (s : ℕ) → Keeps (Inv d past n) (without_user d calc s)
  without_user-Keeps s st inv =
      Keeps-elim (Inv d past n) (d.decl_of s).choice _ _ (Keeps-return (Inv d past n) tri_no)
        (Gives-bind (Inv d past n) (FoundBelow d.bound) (λ _. Unit) _ _ (default_prop-Gives s)
          (default_tri-Keeps s))
        _
        (Inv-Quiet
          (Quiet-either (tri_eq (st.now_of s).rev_dep_tri tri_no) (Quiet-refl st)
            (Quiet-set_write s true st))
          inv)

  plain_tri-Keeps : (s : ℕ) → Keeps (Inv d past n) (plain_tri d calc s)
  plain_tri-Keeps s st inv =
      Keeps-elim (Inv d past n) (tri_eq (st.now_of s).visible tri_no) _ _ without
        (λ st1 inv1.
          Keeps-elim (Inv d past n) ((set_write d s true st1).now_of s).def_user _ _
            (λ st2 inv2. returned (record { value_lem = tt; state_lem = inv2 })) without
            (set_write d s true st1) (Inv-Quiet (Quiet-set_write s true st1) inv1))
        st inv
    where
      without : Keeps (Inv d past n) (without_user d calc s >>= or_rev_dep d s)
      without =
          Keeps-bind (Inv d past n) _ _ (without_user-Keeps s) λ _. Keeps-gets (Inv d past n) _

  tristate_value-Gives : (s : ℕ) → Gives (Inv d past n) (Suits d s) (tristate_value d calc s)
  unfolding tristate_value
  tristate_value-Gives s st inv =
      Gives-bind (Inv d past n) (λ _. Unit) (Suits d s) _ _
        (Keeps-elim (Inv d past n) ((d.decl_of s).choiceval && tri_eq (st.now_of s).visible tri_yes)
          _ _ (Keeps-gets (Inv d past n) (chosen d s)) (plain_tri-Keeps s))
        (λ tri _. Gives-gets (Inv d past n) (Suits d s) _ (promoted s tri)) st inv
    where
      promoted :
          (s : ℕ) (tri : Tristate) (st : State)
          → Suits d s
              (if tri_eq tri tri_mod && is_boolean (sym_get_type d st s) then tri_yes else tri)
      promoted s tri st h = ground (arith, sym_get_type-boolean d st s h)

  default_text-Keeps :
      (s : ℕ) (old : Val) (r : Option (Property × Tristate))
      → FoundBelow d.bound r
      → Keeps (Inv d past n) (default_text d calc s old r)
  default_text-Keeps s old none h = Keeps-return (Inv d past n) old
  default_text-Keeps s old (some (p, v)) h =
      named (prop_get_symbol p) (λ x e. payload_symbol-lt p.expr x h e)
    where
      named :
          (o : Option ℕ)
          → ((x : ℕ) → o ≡ some x → x < d.bound)
          → Keeps (Inv d past n) (elim o [
            | none ↦ return old
            | some ds ↦ do
              modify (set_write d s true)
              calc ds
              gets (λ st. (st.now_of ds).curr.val)
          ])
      named none k = Keeps-return (Inv d past n) old
      named (some x) k = λ st inv.
          Keeps-bind (Inv d past n) (calc x) _ (ok x (k x refl)) (λ _. Keeps-gets (Inv d past n) _)
            (set_write d s true st) (Inv-Quiet (Quiet-set_write s true st) inv)

  text_value-Keeps : (s : ℕ) (old : Val) → Keeps (Inv d past n) (text_value d calc s old)
  unfolding text_value
  text_value-Keeps s old st inv =
      let seen : Bool = not (tri_eq (st.now_of s).visible tri_no) in
      let st1 : State = if seen then set_write d s true st else st in
      Keeps-elim (Inv d past n) (seen && (st1.now_of s).def_user)
        (gets (λ st2. (st2.now_of s).user.val)) _
        (Keeps-gets (Inv d past n) (λ st2. (st2.now_of s).user.val))
        (Gives-bind (Inv d past n) (FoundBelow d.bound) (λ _. Unit) _ _ (default_prop-Gives s)
          (default_text-Keeps s old))
        _
        (Inv-Quiet
          (Quiet-either (not (tri_eq (st.now_of s).visible tri_no)) (Quiet-set_write s true st)
            (Quiet-refl st))
          inv)

  pub new_value-Gives :
      (s : ℕ) (v : SymbolValue)
      → v.tri ≢ tri_mod
      → Gives (Inv d past n) (λ (w : SymbolValue). Suits d s w.tri) (new_value d calc s v)
  new_value-Gives s v h =
      Gives-elim (Inv d past n) (λ (w : SymbolValue). Suits d s w.tri)
        (is_boolean (d.decl_of s).type || is_tristate (d.decl_of s).type) _ _
        (Gives-bind (Inv d past n) (Suits d s) (λ (w : SymbolValue). Suits d s w.tri) _ _
          (tristate_value-Gives s)
          λ tri suits st inv. returned (record { value_lem = suits; state_lem = inv }))
        (Gives-bind (Inv d past n) (λ _. Unit) (λ (w : SymbolValue). Suits d s w.tri) _ _
          (text_value-Keeps s v.val)
          λ val _ st inv. returned (record { value_lem = λ _. h; state_lem = inv }))

  pub choose-Keeps :
      (s : ℕ) (tri : Tristate) → past.kept s ≡ none → Keeps (Inv d past n) (choose d calc s tri)
  choose-Keeps s tri fresh =
      Keeps-elim (Inv d past n) ((d.decl_of s).choice && tri_eq tri tri_yes) _ _
        (Keeps-bind (Inv d past n) _ _ (sym_calc_choice-Keeps d closed past n calc ok s fresh)
          λ r st inv. returned (record {
            value_lem = tt;
            state_lem =
                Inv-set_curr s (record (st.now_of s).curr { val = address_or_null r }) fresh
                  (inv.boolean_ne s) inv;
          }))
        (Keeps-return (Inv d past n) tt)
