-- ===== src/Menu/Added.antt =====
-- build-tools/kconfig/menu.c: what the dependencies, prompts and types that the parser adds mean.
use mkrootfs.Base.{
  ==-refl, inr, inl, ℕ_discrete, Bool-cases, String, str_eq, ℕ, zero, suc, ◌≡◌, ◌≢◌, refl,
  sym as path_sym, ap, ap₂, ◌∙◌, subst, arith, false, length, if◌then◌else◌, Option, none, some,
  List, [], ◌∷◌, ◌++◌, update,
}
use mkrootfs.Tristate.{tri_no, expr_or, expr_not, Tristate, tri_yes, expr_and}
use mkrootfs.Expr.{
  Expr, e_symbol, e_not, e_and, e_or, e_equal, e_unequal, symbol_mod, expr_alloc_and,
}
use mkrootfs.Symbol.{Payload, PropType, Decl, Property, sym_get_string_value, Table}
use mkrootfs.Expr.Value.{value, expr_calc_value, IsSettled}
use mkrootfs.Menu.{Node, Nodes, Prompt, no_prompt, of_symbol, own}
use mkrootfs.Menu.Entry.{
  set_prompt, new_prop, new_prompt, prompt_of, menu_add_prop, prompt_at, with_entry, append_prop,
  is_space, starts_with_space, add_prop, nth, listed, skip_spaces, check_dep, menu_check_dep, Parse,
  entry_of, menu_add_dep,
}

-- The table in which `m` has the value of `m && MODULES`.
abbrev pub gated : ℕ → Table → Table
gated modules t = update t symbol_mod (record (t symbol_mod) {
  now = record ((t symbol_mod).now) {
    curr = record ((t symbol_mod).curr) {
      tri = expr_and (t symbol_mod).curr.tri (t modules).curr.tri;
    };
  };
})

module _ (t : Table) (settled : IsSettled t) (modules : ℕ) where
  gated-text : (s : ℕ) → sym_get_string_value (gated modules t s) ≡ sym_get_string_value (t s)
  unfolding sym_get_string_value
  gated-text s = ground (arith, settled.mod_lem)

  -- An expression after `menu_check_dep` has the value that it had before, with `m && MODULES` for each
  -- `m` that is not compared with another symbol.
  pub value-check_dep : (e : Expr) → value t (check_dep modules e) ≡ value (gated modules t) e
  unfolding value check_dep
  value-check_dep (e_not e) = ap expr_not (value-check_dep e)
  value-check_dep (e_or l r) = ap₂ expr_or (value-check_dep l) (value-check_dep r)
  value-check_dep (e_and l r) = ap₂ expr_and (value-check_dep l) (value-check_dep r)
  value-check_dep (e_symbol s) = ground arith
  value-check_dep (e_equal a b) =
      ap (λ u. if str_eq u (sym_get_string_value (t b)) then tri_yes else tri_no)
        (path_sym (gated-text a))
      ∙ ap (λ u. if str_eq (sym_get_string_value (gated modules t a)) u then tri_yes else tri_no)
          (path_sym (gated-text b))
  value-check_dep (e_unequal a b) =
      ap (λ u. if str_eq u (sym_get_string_value (t b)) then tri_no else tri_yes)
        (path_sym (gated-text a))
      ∙ ap (λ u. if str_eq (sym_get_string_value (gated modules t a)) u then tri_no else tri_yes)
          (path_sym (gated-text b))

entry_of-with_entry : (n : Node) (p : Parse) → entry_of (with_entry n p) ≡ n
entry_of-with_entry n p = ground arith

-- Several calls of `menu_add_dep`, for the lines `depends on` of an entry.
unfoldable pub add_deps : ℕ → List Expr → Parse → Parse
add_deps modules [] p = p
add_deps modules (e ∷ l) p = add_deps modules l (menu_add_dep modules (some e) p)

-- The least value of the expressions, and of `v`.
unfoldable pub least : Table → Tristate → List Expr → Tristate
least t v [] = v
least t v (e ∷ l) = least t (expr_and v (value t e)) l

value-alloc_and :
    (t : Table) (a : Option Expr) (e : Expr)
    → expr_calc_value t (expr_alloc_and a (some e)) ≡ expr_and (expr_calc_value t a) (value t e)
unfolding value
value-alloc_and t none e = ground arith
value-alloc_and t (some d) e = refl

menu_add_dep-value :
    (t : Table) (settled : IsSettled t) (modules : ℕ) (e : Expr) (p : Parse)
    → expr_calc_value t (entry_of (menu_add_dep modules (some e) p)).dep
      ≡ expr_and (expr_calc_value t (entry_of p).dep) (value (gated modules t) e)
unfolding menu_add_dep
menu_add_dep-value t settled modules e p =
    ap (λ n. expr_calc_value t n.dep) (entry_of-with_entry _ p)
    ∙ value-alloc_and t (entry_of p).dep (check_dep modules e)
    ∙ ap (expr_and (expr_calc_value t (entry_of p).dep)) (value-check_dep t settled modules e)

-- In every table whose constants are settled, after the lines `depends on` of an entry its dependency
-- has the least of the value that it had and the values of the lines, where `m` stands for
-- `m && MODULES`.
pub add_deps-least :
    (t : Table) (settled : IsSettled t) (modules : ℕ) (l : List Expr) (p : Parse)
    → expr_calc_value t (entry_of (add_deps modules l p)).dep
      ≡ least (gated modules t) (expr_calc_value t (entry_of p).dep) l
unfolding add_deps least
add_deps-least t settled modules [] p = refl
add_deps-least t settled modules (e ∷ l) p =
    add_deps-least t settled modules l (menu_add_dep modules (some e) p)
    ∙ ap (λ v. least (gated modules t) v l) (menu_add_dep-value t settled modules e p)

-- Adding to the end of a list keeps its places.
nth-append :
    (l k : List Property) (i : ℕ) (r : Property) → nth l i ≡ some r → nth (l ++ k) i ≡ some r
nth-append [] k i r h = ground arith
nth-append (q ∷ l) k zero r h = h
nth-append (q ∷ l) k (suc i) r h = nth-append l k i r h

nth-last : (l : List Property) (q : Property) → nth (l ++ q ∷ []) (length l) ≡ some q
nth-last [] q = refl
nth-last (x ∷ l) q = nth-last l q

skip_spaces-start : (s : String) → starts_with_space (skip_spaces s) ≡ false
unfolding skip_spaces
skip_spaces-start String.[] = refl
skip_spaces-start (String.◌∷◌ c s) = elim (Bool-cases (is_space c)) [
  | inl h ↦ rw (h) (skip_spaces-start s)
  | inr h ↦ rw (h) h
]

update-else : (f : ℕ → Decl) (x y : ℕ) (d : Decl) → x ≢ y → update f y d x ≡ f x
update-else f x y d n = ground arith

listed-add_prop :
    (o s : Option ℕ) (i : ℕ) (q r : Property) (p : Parse)
    → listed o i p.decls ≡ some r
    → listed o i (add_prop s q p).decls ≡ some r
listed-add_prop none s i q r p h = h
listed-add_prop (some x) none i q r p h = h
listed-add_prop (some x) (some y) i q r p h = elim (ℕ_discrete x y) [
  | yes e ↦
      subst (λ z. nth (update p.decls z (append_prop q (p.decls z)) x).prop i ≡ some r) e
        (rw (==-refl x) (nth-append (p.decls x).prop (q ∷ []) i r h))
  | no n ↦
      subst (λ d. nth d.prop i ≡ some r)
        (path_sym (update-else p.decls x y (append_prop q (p.decls y)) n)) h
]

prompt_at-add_prop :
    (o s : Option ℕ) (m : Prompt) (q r : Property) (p : Parse)
    → prompt_at o m p.decls ≡ some r
    → prompt_at o m (add_prop s q p).decls ≡ some r
prompt_at-add_prop o s no_prompt q r p h = h
prompt_at-add_prop o s (of_symbol i) q r p h = listed-add_prop o s i q r p h
prompt_at-add_prop o s (own x) q r p h = h

prompt_at-new :
    (o : Option ℕ) (q : Property) (p : Parse)
    → prompt_at o (new_prompt o q p.decls) (add_prop o q p).decls ≡ some q
prompt_at-new none q p = refl
prompt_at-new (some s) q p = rw (==-refl s) (nth-last (p.decls s).prop q)

menus-add_prop : (o : Option ℕ) (q : Property) (p : Parse) → (add_prop o q p).menus ≡ p.menus
menus-add_prop none q p = refl
menus-add_prop (some s) q p = refl

-- The prompt of the menu at an address.
abbrev pub prompt_in : Parse → ℕ → Option Property
prompt_in p a = prompt_of (p.menus.nodes a) p.decls

nodes-else : (f : Nodes) (x y : ℕ) (d : Node) → x ≢ y → update f y d x ≡ f x
nodes-else f x y d n = ground arith

-- After `menu_add_prop` with a prompt, the prompt of the current entry points to the new property, with
-- the dependency that `menu_check_dep` gives and a text that starts with no blank, and the prompt of
-- every other menu points to a property with the same fields as before, also of the same symbol.
pub menu_add_prop-prompt :
    (modules : ℕ) (type : PropType) (t : String) (expr : Payload) (dep : Option Expr) (p : Parse)
    → (prompt_in (menu_add_prop modules type (some t) expr dep p) p.menus.current_entry
        ≡ some (record {
          type = type;
          prompt = some (skip_spaces t);
          visible_expr = menu_check_dep modules dep;
          expr = expr;
          menu = some p.menus.current_entry;
        }))
      × (starts_with_space (skip_spaces t) ≡ false)
      × ((a : ℕ) (r : Property)
          → a ≢ p.menus.current_entry
          → prompt_in p a ≡ some r
          → prompt_in (menu_add_prop modules type (some t) expr dep p) a ≡ some r)
unfolding menu_add_prop
menu_add_prop-prompt modules type t expr dep p =
    let q = new_prop modules type (some t) expr dep p in
    let p1 = set_prompt (some t) q p in
    let o = (entry_of p).sym in
    (
      ap (λ m. prompt_of (m.nodes p.menus.current_entry) (add_prop o q p1).decls)
            (menus-add_prop o q p1)
          ∙ ap (λ n. prompt_of n (add_prop o q p1).decls) (entry_of-with_entry _ p)
          ∙ prompt_at-new o q p1,
      skip_spaces-start t,
      λ a r n h.
          ap (λ m. prompt_of (m.nodes a) (add_prop o q p1).decls) (menus-add_prop o q p1)
          ∙ ap (λ x. prompt_of x (add_prop o q p1).decls)
              (nodes-else p.menus.nodes a p.menus.current_entry _ n)
          ∙ prompt_at-add_prop (p.menus.nodes a).sym o (p.menus.nodes a).prompt q r p1 h,
    )
