-- ===== src/Depcheck/Lists.antt =====
-- build-tools/kconfig/symbol.c: the symbols that a symbol depends on, as `sym_check_sym_deps` meets them.
use mkrootfs.Base.{
  ℕ, ◌≡◌, refl, sym, ap, ◌∙◌, Bool, true, false, ◌&&◌, not, if◌then◌else◌, Option, none, some, List,
  [], ◌∷◌, ◌++◌, AllBelow,
}
use mkrootfs.Expr.{Expr, e_symbol, e_not, e_and, e_or, e_equal, e_unequal}
use mkrootfs.Symbol.{Payload, p_expr, p_null, p_list, p_bounds, Property}
use mkrootfs.Config.{Decls}
use mkrootfs.Calc.Total.{Below, OptionBelow, PayloadBelow, PropsBelow, IsClosed}
use mkrootfs.Calc.Visibility.{is_default}
use mkrootfs.Depcheck.{
  Marks, Found, Check, or_else, check_expr, sym_check_expr_deps, payload_expr, is_skipped,
  default_expr, check_props, sym_check_sym_deps,
}

abbrev pub expr_deps : Expr → List ℕ
expr_deps (e_symbol s) = s ∷ []
expr_deps (e_not e) = expr_deps e
expr_deps (e_and a b) = expr_deps a ++ expr_deps b
expr_deps (e_or a b) = expr_deps a ++ expr_deps b
expr_deps (e_equal a b) = a ∷ (b ∷ [])
expr_deps (e_unequal a b) = a ∷ (b ∷ [])

abbrev pub option_deps : Option Expr → List ℕ
option_deps none = []
option_deps (some e) = expr_deps e

abbrev pub props_deps : Bool → List Property → List ℕ
props_deps choice [] = []
props_deps choice (p ∷ ps) =
    (if is_skipped p.type
      then []
      else option_deps p.visible_expr ++ option_deps (default_expr choice p))
    ++ props_deps choice ps

-- The symbols in the reverse dependency, the conditions and the defaults of a symbol.
abbrev pub deps : Decls → ℕ → List ℕ
deps d s =
    option_deps (d.decl_of s).rev_dep_expr ++ props_deps (d.decl_of s).choice (d.decl_of s).prop

unfoldable pub check_list : Check → List ℕ → Marks → Found
check_list again [] m = some (none, m)
check_list again (s ∷ l) m = or_else (again s m) (check_list again l)

module _ (again : Check) where
  or_else_assoc :
      (r : Found) (f g : Marks → Found) → or_else (or_else r f) g ≡ or_else r (λ m. or_else (f m) g)
  or_else_assoc none f g = refl
  or_else_assoc (some (none, m)) f g = refl
  or_else_assoc (some (some s, m)) f g = refl

  or_else-none : (r : Found) → or_else r (λ m. some (none, m)) ≡ r
  or_else-none none = refl
  or_else-none (some (none, m)) = refl
  or_else-none (some (some s, m)) = refl

  or_else-cong :
      (r q : Found) (f g : Marks → Found)
      → r ≡ q
      → ((m : Marks) → f m ≡ g m)
      → or_else r f ≡ or_else q g
  or_else-cong r q f g e h = ap (λ x. or_else x f) e ∙ by_case q
    where
      by_case : (q : Found) → or_else q f ≡ or_else q g
      by_case none = refl
      by_case (some (none, m)) = h m
      by_case (some (some s, m)) = refl

  check_list-append :
      (l k : List ℕ) (m : Marks)
      → check_list again (l ++ k) m ≡ or_else (check_list again l m) (check_list again k)
  unfolding check_list
  check_list-append [] k m = refl
  check_list-append (s ∷ l) k m =
      or_else-cong (again s m) (again s m) _ _ refl (λ m1. check_list-append l k m1)
      ∙ sym (or_else_assoc (again s m) (check_list again l) (check_list again k))

  check_expr-list : (e : Expr) (m : Marks) → check_expr again e m ≡ check_list again (expr_deps e) m
  unfolding check_expr check_list
  check_expr-list (e_symbol s) m = sym (or_else-none (again s m))
  check_expr-list (e_not e) m = check_expr-list e m
  check_expr-list (e_and a b) m =
      or_else-cong _ _ _ _ (check_expr-list a m) (check_expr-list b)
      ∙ sym (check_list-append (expr_deps a) (expr_deps b) m)
  check_expr-list (e_or a b) m =
      or_else-cong _ _ _ _ (check_expr-list a m) (check_expr-list b)
      ∙ sym (check_list-append (expr_deps a) (expr_deps b) m)
  check_expr-list (e_equal a b) m =
      or_else-cong (again a m) _ _ _ refl (λ m1. sym (or_else-none (again b m1)))
  check_expr-list (e_unequal a b) m =
      or_else-cong (again a m) _ _ _ refl (λ m1. sym (or_else-none (again b m1)))

  option-list :
      (o : Option Expr) (m : Marks)
      → sym_check_expr_deps again o m ≡ check_list again (option_deps o) m
  unfolding check_list
  option-list none m = refl
  option-list (some e) m = check_expr-list e m

  -- One property, by whether it is skipped, given the lemma on the rest.
  check_prop-list :
      (b : Bool) (v o : Option Expr) (rest : Marks → Found) (l : List ℕ) (m : Marks)
      → ((m1 : Marks) → rest m1 ≡ check_list again l m1)
      → (if b
          then rest m
          else or_else
              (sym_check_expr_deps again v m)
              λ m1. or_else (sym_check_expr_deps again o m1) rest)
        ≡ check_list again ((if b then [] else option_deps v ++ option_deps o) ++ l) m
  check_prop-list true v o rest l m h = h m
  check_prop-list false v o rest l m h =
      or_else-cong _ _ _ _ (option-list v m) (λ m1. or_else-cong _ _ _ _ (option-list o m1) h)
      ∙ sym (
          or_else_assoc (check_list again (option_deps v) m) (check_list again (option_deps o))
            (check_list again l))
      ∙ ap (λ r. or_else r (check_list again l))
          (sym (check_list-append (option_deps v) (option_deps o) m))
      ∙ sym (check_list-append (option_deps v ++ option_deps o) l m)

  check_props-list :
      (choice : Bool) (ps : List Property) (m : Marks)
      → check_props again choice ps m ≡ check_list again (props_deps choice ps) m
  unfolding check_props check_list
  check_props-list choice [] m = refl
  check_props-list choice (p ∷ ps) m =
      check_prop-list (is_skipped p.type) p.visible_expr (default_expr choice p)
        (check_props again choice ps) (props_deps choice ps) m (check_props-list choice ps)

  pub sym_check_sym_deps-list :
      (d : Decls) (s : ℕ) (m : Marks)
      → sym_check_sym_deps d again s m ≡ check_list again (deps d s) m
  sym_check_sym_deps-list d s m =
      or_else-cong _ _ _ _ (option-list (d.decl_of s).rev_dep_expr m)
        (check_props-list (d.decl_of s).choice (d.decl_of s).prop)
      ∙ sym (check_list-append (option_deps (d.decl_of s).rev_dep_expr) _ m)

-- The dependencies of closed declarations lie below their bound.
AllBelow-append : (k : ℕ) (l r : List ℕ) → AllBelow k l → AllBelow k r → AllBelow k (l ++ r)
AllBelow-append k [] r h q = q
AllBelow-append k (s ∷ l) r h q = (h.0, AllBelow-append k l r h.1 q)

expr_deps-AllBelow : (k : ℕ) (e : Expr) → Below k e → AllBelow k (expr_deps e)
expr_deps-AllBelow k (e_symbol s) h = (h, tt)
expr_deps-AllBelow k (e_not e) h = expr_deps-AllBelow k e h
expr_deps-AllBelow k (e_and a b) h =
    AllBelow-append k (expr_deps a) _ (expr_deps-AllBelow k a h.0) (expr_deps-AllBelow k b h.1)
expr_deps-AllBelow k (e_or a b) h =
    AllBelow-append k (expr_deps a) _ (expr_deps-AllBelow k a h.0) (expr_deps-AllBelow k b h.1)
expr_deps-AllBelow k (e_equal a b) h = (h.0, (h.1, tt))
expr_deps-AllBelow k (e_unequal a b) h = (h.0, (h.1, tt))

option_deps-AllBelow : (k : ℕ) (o : Option Expr) → OptionBelow k o → AllBelow k (option_deps o)
option_deps-AllBelow k none h = tt
option_deps-AllBelow k (some e) h = expr_deps-AllBelow k e h

payload-OptionBelow : (k : ℕ) (x : Payload) → PayloadBelow k x → OptionBelow k (payload_expr x)
payload-OptionBelow k p_null h = tt
payload-OptionBelow k (p_expr e) h = h
payload-OptionBelow k (p_list l) h = tt
payload-OptionBelow k (p_bounds a b) h = tt

props_deps-AllBelow :
    (k : ℕ) (choice : Bool) (ps : List Property)
    → PropsBelow k ps
    → AllBelow k (props_deps choice ps)
props_deps-AllBelow k choice [] h = tt
props_deps-AllBelow k choice (p ∷ ps) h =
    AllBelow-append k
      (if is_skipped p.type
        then []
        else option_deps p.visible_expr ++ option_deps (default_expr choice p))
      _ (if_type (is_skipped p.type)) (props_deps-AllBelow k choice ps h.1)
  where
    default_lem : (b : Bool) → OptionBelow k (if b then payload_expr p.expr else none)
    default_lem true = payload-OptionBelow k p.expr h.0.1
    default_lem false = tt

    if_type :
        (b : Bool)
        → AllBelow k
            (if b then [] else option_deps p.visible_expr ++ option_deps (default_expr choice p))
    if_type true = tt
    if_type false =
        AllBelow-append k (option_deps p.visible_expr) _
          (option_deps-AllBelow k p.visible_expr h.0.0)
          (option_deps-AllBelow k (default_expr choice p)
            (default_lem (is_default p.type && not choice)))

pub deps-AllBelow : (d : Decls) (s : ℕ) → IsClosed d → AllBelow d.bound (deps d s)
deps-AllBelow d s closed =
    AllBelow-append d.bound (option_deps (d.decl_of s).rev_dep_expr) _
      (option_deps-AllBelow d.bound (d.decl_of s).rev_dep_expr (closed.rev_dep_lem s))
      (props_deps-AllBelow d.bound (d.decl_of s).choice (d.decl_of s).prop (closed.props_lem s))
