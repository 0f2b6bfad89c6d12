-- ===== src/Menu/Visible/Sees.antt =====
-- build-tools/kconfig/menu.c: when `menu_is_visible` answers true, over a tree of menus whose symbols
-- have been calculated.
use mkrootfs.Base.{
  ap, ℕ, zero, suc, ◌+◌, ◌≤◌, ◌≡◌, ◌↔◌, refl, sym as path_sym, ◌∙◌, subst, arith, Bool, true, false,
  inl, inr, Bool-cases, Option, none, some, ◌>>=◌, Returns, returned, Returns-bind, Returns-map,
}
use mkrootfs.Tristate.{Tristate, tri_no, tri_eq}
use mkrootfs.Config.{Decls, State, table}
use mkrootfs.Expr.Value.{expr_calc_value}
use mkrootfs.Calc.Expression.{Libc, calc_optional}
use mkrootfs.Calc.Run.{sym_calc_value}
use mkrootfs.Calc.Settled.{AreValid, sym_calc_value-valid, calc_expr-value}
use mkrootfs.Menu.{Expr, Prompt, no_prompt, of_symbol, own, Nodes}
use mkrootfs.Menu.Entry.{has_prompt}
use mkrootfs.Menu.Build.{Forest, nil, entry, menu, Leads}
use mkrootfs.Menu.Walk.{size}
use mkrootfs.Menu.Visible.{Screen, hides_below, any_visible, prompt_visible, menu_is_visible}
use mkrootfs.Menu.Visible.Relation.{
  visible_tri, first, later, Seen, shown, through, SeenAlong, Seen-prompt, Seen-below,
  SeenAlong-none, SeenAlong-cases,
}

absurd : {A : Type 0} → false ≡ true → A
absurd h = cc

abbrev AreValidIn : State → Option Expr → Type 0
AreValidIn st none = Unit
AreValidIn st (some e) = AreValid st e

-- If a menu has a prompt: the prompt is one of its symbol, which has been calculated, or the menu has no
-- symbol, and the symbols in the condition of the prompt have been calculated.
abbrev pub IsCalculated : State → Option ℕ → Prompt → Type 0
IsCalculated st _ no_prompt = Unit
IsCalculated st (some s) (of_symbol i) = (st.now_of s).valid ≡ true
IsCalculated st (some s) (own q) = false ≡ true
IsCalculated st none (of_symbol i) = false ≡ true
IsCalculated st none (own q) = AreValidIn st q.visible_expr

module _ (libc : Libc) (d : Decls) (st : State) (nodes : Nodes)
    (calculated : (a : ℕ) → IsCalculated st (nodes a).sym (nodes a).prompt) where
  -- The call answers whether `P` holds, and leaves the symbols as they were.
  abbrev Answers : Type 0 → Option (Bool × Screen) → Type 0
  Answers P m = Returns (λ r. (r.1.symbols ≡ st) × ((r.0 ≡ true) ↔ P)) m

  calc_optional-value :
      (e : Option Expr)
      → AreValidIn st e
      → calc_optional d (sym_calc_value libc d) e st ≡ some (expr_calc_value (table d st) e, st)
  calc_optional-value none h = refl
  calc_optional-value (some e) h = calc_expr-value libc d st e h

  prompt_visible-value :
      (a : ℕ) (sym : Option ℕ) (prompt : Prompt) (sc : Screen)
      → IsCalculated st sym prompt
      → has_prompt prompt ≡ true
      → sc.symbols ≡ st
      → Returns
          (λ r. (r.1.symbols ≡ st) × (r.0 ≡ visible_tri (table d st) sym prompt))
          (prompt_visible libc d a sym prompt sc)
  unfolding prompt_visible
  prompt_visible-value a (some s) (of_symbol i) sc h p e =
      rw (e, sym_calc_value-valid libc d st s h) (returned (refl, refl))
  prompt_visible-value a (some s) (own q) sc h p e = absurd h
  prompt_visible-value a none (own q) sc h p e =
      rw (e, calc_optional-value q.visible_expr h) (returned (refl, refl))
  prompt_visible-value a none (of_symbol i) sc h p e = absurd h
  prompt_visible-value a _ no_prompt sc h p e = absurd p

  -- One menu of the loop, and those behind it.
  any_step :
      (a : ℕ) (m : Option (Bool × Screen)) (rest : Screen → Option (Bool × Screen))
      → Answers (Seen d st nodes a) m
      → ((sc : Screen) → sc.symbols ≡ st → Answers (SeenAlong d st nodes (nodes a).next) (rest sc))
      → Answers
          (SeenAlong d st nodes (some a))
          (m >>= λ (v, sc). elim v [ true ↦ some (true, sc) | false ↦ rest sc ])
  any_step a m rest h r = Returns-bind h λ (v, sc) i. chosen v sc i
    where
      chosen :
          (v : Bool) (sc : Screen)
          → (sc.symbols ≡ st) × ((v ≡ true) ↔ Seen d st nodes a)
          → Answers
              (SeenAlong d st nodes (some a))
              (elim v [ true ↦ some (true, sc) | false ↦ rest sc ])
      chosen true sc (q, i) = returned (q, ((λ e. (a, first, (i.0) refl)), λ s. refl))
      chosen false sc (q, i) = Returns-map (r sc q) (λ w (q1, j). (
        q1,
        (
          (λ e. let (b, l, s) = (j.0) e in (b, later l, s)),
          λ s. elim (SeenAlong-cases d st nodes a s) [ inl x ↦ absurd ((i.1) x) | inr x ↦ (j.1) x ],
        ),
      ))

  -- The loop, where each menu has fuel for what is below it.
  any_visible-Seen :
      (f : Forest) (lo hi parent : ℕ) (p : Option ℕ) (m k : ℕ) (sc : Screen)
      → Leads nodes lo hi parent p f
      → size f + 1 ≤ k
      → size f + 1 ≤ m
      → ((a : ℕ) (g : Forest) (sc1 : Screen)
          → Leads nodes lo hi a (nodes a).list g
          → size g + 2 ≤ m
          → sc1.symbols ≡ st
          → Answers (Seen d st nodes a) (menu_is_visible libc d m nodes a sc1))
      → sc.symbols ≡ st
      → Answers (SeenAlong d st nodes p) (any_visible (menu_is_visible libc d m nodes) k nodes p sc)
  unfolding any_visible size
  any_visible-Seen f lo hi parent p m zero sc led h l ok e = ground arith
  any_visible-Seen nil lo hi parent p m (suc k) sc led h l ok e =
      subst
        (λ q.
          Answers (SeenAlong d st nodes p)
            (any_visible (menu_is_visible libc d m nodes) (suc k) nodes q sc))
        (path_sym led) (returned (e, (absurd, λ s. SeenAlong-none d st nodes p led s)))
  any_visible-Seen (entry sym rest) lo hi parent p m (suc k) sc (a, pe, x, y, s, r, b, n) h l ok e =
      subst
        (λ q.
          Answers (SeenAlong d st nodes q)
            (any_visible (menu_is_visible libc d m nodes) (suc k) nodes q sc))
        (path_sym pe)
        (any_step a (menu_is_visible libc d m nodes a sc) _ (ok a nil sc b (omega arith) e)
          λ sc1 e1.
            any_visible-Seen rest lo hi parent (nodes a).next m k sc1 n (omega arith) (omega arith)
              ok e1)
  any_visible-Seen (menu sym below rest) lo hi parent p m (suc k) sc (a, pe, x, y, s, r, b, n) h l
        ok e =
      subst
        (λ q.
          Answers (SeenAlong d st nodes q)
            (any_visible (menu_is_visible libc d m nodes) (suc k) nodes q sc))
        (path_sym pe)
        (any_step a (menu_is_visible libc d m nodes a sc) _ (ok a below sc b (omega arith) e)
          λ sc1 e1.
            any_visible-Seen rest lo hi parent (nodes a).next m k sc1 n (omega arith) (omega arith)
              ok e1)

  -- What follows the assignment to `visible`.
  answered_from :
      (a : ℕ) (visible : Tristate) (sc : Screen) (below : Screen → Option (Bool × Screen))
      → has_prompt (nodes a).prompt ≡ true
      → sc.symbols ≡ st
      → visible ≡ visible_tri (table d st) (nodes a).sym (nodes a).prompt
      → ((sc1 : Screen)
          → sc1.symbols ≡ st
          → Answers (SeenAlong d st nodes (nodes a).list) (below sc1))
      → Answers (Seen d st nodes a) (elim (tri_eq visible tri_no) [
        | false ↦ some (true, sc)
        | true ↦ elim (hides_below sc.symbols (nodes a).sym) [
          | true ↦ some (false, sc)
          | false ↦ below sc
        ]
      ])
  answered_from a visible sc below e q u r =
      elim (Bool-cases (tri_eq (visible_tri (table d st) (nodes a).sym (nodes a).prompt) tri_no)) [
        | inr v ↦ rw (u, v) (returned (q, ((λ h. shown e v), λ s. refl)))
        | inl v ↦ elim (Bool-cases (hides_below st (nodes a).sym)) [
          | inl w ↦
              rw (u, v, ap (λ x. hides_below x (nodes a).sym) q ∙ w)
                (returned
                  (q, (absurd, λ s. absurd (path_sym ((Seen-below d st nodes a v s).0) ∙ w))))
          | inr w ↦
              rw (u, v, ap (λ x. hides_below x (nodes a).sym) q ∙ w)
                (Returns-map (r sc q) (λ x (q1, j). (
                  q1,
                  (
                    (λ y. let (b, l, s) = (j.0) y in through e w l s),
                    λ s. (j.1) ((Seen-below d st nodes a v s).1),
                  ),
                )))
        ]
      ]

  -- In a tree of menus, in a state in which, for each menu with a prompt, its symbol or, if it has none,
  -- the symbols in the condition of the prompt have been calculated: `menu_is_visible` returns, with two
  -- calls more than there are menus below the menu as fuel, and changes no symbol. It answers true just
  -- where the prompt of the menu is visible, or the menu has a prompt and a symbol that is not n and the
  -- same holds, in turn, of one of the menus directly below.
  pub menu_is_visible-Seen :
      (k : ℕ) (f : Forest) (lo hi a : ℕ) (sc : Screen)
      → Leads nodes lo hi a (nodes a).list f
      → size f + 2 ≤ k
      → sc.symbols ≡ st
      → Returns
          (λ r. (r.1.symbols ≡ st) × ((r.0 ≡ true) ↔ Seen d st nodes a))
          (menu_is_visible libc d k nodes a sc)
  unfolding menu_is_visible
  menu_is_visible-Seen zero f lo hi a sc led h q = ground arith
  menu_is_visible-Seen (suc k) f lo hi a sc led h q =
      elim (Bool-cases (has_prompt (nodes a).prompt)) [
        | inr e ↦
            rw (e, menu_is_visible)
              (returned (q, (absurd, λ s. absurd (path_sym e ∙ Seen-prompt d st nodes a s))))
        | inl e ↦
            rw (e, menu_is_visible)
              (Returns-bind
                (prompt_visible-value a (nodes a).sym (nodes a).prompt sc (calculated a) e q)
                λ r (q1, u). answered_from a (r.0) (r.1) _ e q1 u λ sc1 q2.
                  any_visible-Seen f lo hi a (nodes a).list k k sc1 led (omega arith) (omega arith)
                    (λ b g sc2 l z q3. menu_is_visible-Seen k g lo hi b sc2 l z q3) q2)
      ]
