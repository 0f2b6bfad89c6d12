-- ===== src/Samples/Witnesses.antt =====
-- The properties applied to the sample table and to expressions over it.
use mkrootfs.Base.{ℕ, ◌≡◌, refl, true, false, some, Returns, update}
use mkrootfs.Tristate.{tri_no, tri_mod, tri_eq, expr_or, expr_and}
use mkrootfs.Expr.{
  Expr, e_symbol, e_not, e_and, e_or, e_equal, e_unequal, symbol_no, symbol_mod, symbol_yes,
}
use mkrootfs.Expr.Value.{value}
use mkrootfs.Expr.YesNo.{
  expr_eliminate_yn, value-expr_eliminate_yn, has_constant, has_constant-expr_eliminate_yn,
}
use mkrootfs.Expr.Query.{contains, depends}
use mkrootfs.Expr.Query.Sound.{value-update_of_not-contains, value-of_depends}
use mkrootfs.Expr.Compare.{unequal, trans_bool, trans_compare}
use mkrootfs.Expr.Compare.Sound.{compare_tri, trans_compare-Answers, trans_bool-eq_no}
use mkrootfs.Expr.Transform.{expr_transform}
use mkrootfs.Expr.Transform.Sound.{Transforms, expr_transform-Transforms}
use mkrootfs.Expr.Eq.{Pair, conj, disj, expr_eq, expr_eliminate_eq}
use mkrootfs.Expr.Eq.Sound.{Common, expr_eliminate_eq-Common, expr_eq-Sound}
use mkrootfs.Expr.Join.{expr_join_or, expr_join_and}
use mkrootfs.Expr.Join.Sound.{expr_join_or-JoinsTo, expr_join_and-JoinsTo}
use mkrootfs.Expr.Extract.{expr_extract_eq_and, expr_extract_eq_or}
use mkrootfs.Expr.Extract.Sound.{Extracts, expr_extract_eq-Extracts}
use mkrootfs.Samples.{sample, sample-IsSettled, net, usb, usb_symbol, usb_off, usb_off-IsSettled}
use mkrootfs.Calc.Expression.{calc_expr}
use mkrootfs.Config.{table}
use mkrootfs.Calc.Value.{tristate_value, set_write}
use mkrootfs.Config.{sym_get_type, ◌>>=◌ as ◌>>=M◌, return}
use mkrootfs.Calc.Set.{sym_tristate_within_range, sym_set_tristate_value, sym_toggle_tristate_value}
use mkrootfs.Calc.Set.Strings.{
  sym_string_valid, sym_string_within_range, sym_string_valid-of_within,
}
use mkrootfs.Calc.Set.Within.{next_within, sym_toggle_tristate_value-next_within}
use mkrootfs.Calc.Set.Calculated.{tristate_value-of_within}
use mkrootfs.Calc.Settled.{calc_expr-value}
use mkrootfs.Calc.Run.{sym_calc_value}
use mkrootfs.Samples.Tree.{tree, first_state, small_libc, seen_state}

-- NET && y
abbrev net_and_yes : Expr
net_and_yes = e_and (e_symbol net) (e_symbol symbol_yes)

-- !(NET || USB=n)
abbrev neither : Expr
neither = e_not (e_or (e_symbol net) (e_equal usb symbol_no))

-- NET && USB, and the other way round
abbrev net_and_usb : Expr
net_and_usb = e_and (e_symbol net) (e_symbol usb)

abbrev usb_and_net : Expr
usb_and_net = e_and (e_symbol usb) (e_symbol net)

abbrev net_is_yes : Expr
net_is_yes = e_equal net symbol_yes

abbrev net_is_mod : Expr
net_is_mod = e_equal net symbol_mod

abbrev net_pair : Pair ℕ
net_pair = record { left = net_and_usb; right = e_symbol net; extra = 0 }

usb_only : contains (e_not (e_symbol usb)) net ≡ false
unfolding contains
usb_only = refl

usb_needed : depends usb_and_net usb ≡ true
unfolding depends
usb_needed = refl

value-expr_eliminate_yn_example :
    value sample (expr_eliminate_yn net_and_yes) ≡ value sample net_and_yes
value-expr_eliminate_yn_example = value-expr_eliminate_yn sample sample-IsSettled net_and_yes

has_constant-expr_eliminate_yn_example : has_constant (expr_eliminate_yn net_and_yes) ≡ false
has_constant-expr_eliminate_yn_example = has_constant-expr_eliminate_yn net_and_yes

expr_transform-Transforms_example :
    Returns (Transforms sample neither) (expr_transform sample neither)
expr_transform-Transforms_example = expr_transform-Transforms sample sample-IsSettled neither

value-update_of_not-contains_example :
    value (update sample net usb_symbol) (e_not (e_symbol usb))
    ≡ value sample (e_not (e_symbol usb))
value-update_of_not-contains_example =
    value-update_of_not-contains sample net usb_symbol (e_not (e_symbol usb)) usb_only

value-of_depends_example : value usb_off usb_and_net ≡ tri_no
value-of_depends_example =
    value-of_depends usb_off usb_off-IsSettled usb usb_and_net refl usb_needed refl

trans_compare-Answers_example :
    Returns
      (λ r. value sample r ≡ compare_tri unequal (value sample net_and_usb) tri_no)
      (trans_compare net_and_usb unequal symbol_no)
trans_compare-Answers_example =
    trans_compare-Answers sample sample-IsSettled net_and_usb unequal tri_no (λ h. cc) (refl, refl)

trans_bool-eq_no_example :
    tri_eq (value sample (trans_bool sample (e_unequal net symbol_no))) tri_no
    ≡ tri_eq (value sample (e_unequal net symbol_no)) tri_no
trans_bool-eq_no_example = trans_bool-eq_no sample sample-IsSettled (e_unequal net symbol_no) refl

expr_eliminate_eq-Common_example : Returns (Common sample net_pair) (expr_eliminate_eq net_pair)
expr_eliminate_eq-Common_example = expr_eliminate_eq-Common sample sample-IsSettled net_pair

expr_eq-Sound_example :
    Returns
      (λ b. b ≡ true → value sample net_and_usb ≡ value sample usb_and_net)
      (expr_eq net_and_usb usb_and_net)
expr_eq-Sound_example = expr_eq-Sound sample sample-IsSettled net_and_usb usb_and_net

expr_join_or-JoinsTo_example :
    Returns
      (λ o.
        (r : Expr)
        → o ≡ some r
        → value sample r ≡ expr_or (value sample net_is_yes) (value sample net_is_mod))
      (expr_join_or sample net_is_yes net_is_mod)
expr_join_or-JoinsTo_example = expr_join_or-JoinsTo sample sample-IsSettled net_is_yes net_is_mod

expr_join_and-JoinsTo_example :
    Returns
      (λ o.
        (r : Expr)
        → o ≡ some r
        → value sample r ≡ expr_and (value sample net_is_yes) (value sample net_is_mod))
      (expr_join_and sample net_is_yes net_is_mod)
expr_join_and-JoinsTo_example = expr_join_and-JoinsTo sample sample-IsSettled net_is_yes net_is_mod

expr_extract_eq-Extracts_example :
    Returns
      (Extracts sample conj net_and_usb usb_and_net)
      (expr_extract_eq_and net_and_usb usb_and_net)
    × Returns
        (Extracts sample disj net_and_usb usb_and_net)
        (expr_extract_eq_or net_and_usb usb_and_net)
expr_extract_eq-Extracts_example =
    expr_extract_eq-Extracts sample sample-IsSettled net_and_usb usb_and_net

-- y && m
abbrev constants : Expr
constants = e_and (e_symbol symbol_yes) (e_symbol symbol_mod)

calc_expr-value_example :
    calc_expr tree (sym_calc_value small_libc tree) constants first_state
    ≡ some (value (table tree first_state) constants, first_state)
calc_expr-value_example = calc_expr-value small_libc tree first_state constants (refl, refl)

net_within : sym_tristate_within_range tree seen_state 3 tri_mod ≡ true
unfolding sym_tristate_within_range sym_get_type
net_within = refl

tristate_value-of_within_example :
    tristate_value tree (sym_calc_value small_libc tree) 3 seen_state
    ≡ some (tri_mod, set_write tree 3 true seen_state)
tristate_value-of_within_example =
    tristate_value-of_within tree (sym_calc_value small_libc tree) 3 seen_state tri_mod refl
      net_within refl refl

sym_toggle_tristate_value-next_within_example :
    sym_toggle_tristate_value tree (sym_calc_value small_libc tree) 3 seen_state
    ≡ (sym_set_tristate_value tree
            (sym_calc_value small_libc tree)
            3
            (next_within tree seen_state 3)
          >>=M λ _. return (next_within tree seen_state 3))
        seen_state
sym_toggle_tristate_value-next_within_example =
    sym_toggle_tristate_value-next_within tree (sym_calc_value small_libc tree) 3 seen_state

m_within :
    sym_string_within_range small_libc tree (sym_calc_value small_libc tree) 3 "m" seen_state
    ≡ some (true, seen_state)
unfolding sym_string_within_range sym_tristate_within_range sym_get_type
m_within = refl

sym_string_valid-of_within_example : sym_string_valid (tree.decl_of 3).type "m" ≡ true
sym_string_valid-of_within_example =
    sym_string_valid-of_within small_libc tree (sym_calc_value small_libc tree) 3 "m" seen_state
      seen_state m_within
