-- ===== src/Menu/Walk.antt =====
-- build-tools/kconfig/confdata.c: the loop of `conf_write` over the menus that the parser builds.
use mathlib.Core.List.{append_assoc, append-nil}
use mkrootfs.Base.{
  ℕ, zero, suc, ◌+◌, ◌*◌, ◌-◌, ◌≤◌, ◌≡◌, refl, sym as path_sym, ap, ap₂, ◌∙◌, subst, arith, Option,
  none, some, List, [], ◌∷◌, ◌++◌, Returns, Returns-map,
}
use mkrootfs.Menu.{
  Node, Nodes, rootmenu, Builder, menu_init, Call, add_entry, add_menu, end, calls, At, visit, up,
  next_or_up, after_visit, prepend, walk, walk_from, walk_menus,
}
use mkrootfs.Menu.Build.{Forest, nil, entry, menu, script, Leads, IsTree, calls-IsTree}

-- The symbols of the entries that the calls add, in their order.
unfoldable pub entered : List Call → List (Option ℕ)
entered [] = []
entered (add_entry sym ∷ l) = sym ∷ entered l
entered (add_menu ∷ l) = entered l
entered (end ∷ l) = entered l

-- The symbols of the menus, each before those below it.
preorder : Forest → List (Option ℕ)
preorder nil = []
preorder (entry sym rest) = sym ∷ preorder rest
preorder (menu sym below rest) = sym ∷ (preorder below ++ preorder rest)

entered-append : (l k : List Call) → entered (l ++ k) ≡ entered l ++ entered k
unfolding entered
entered-append [] k = refl
entered-append (add_entry sym ∷ l) k = ap (λ r. sym ∷ r) (entered-append l k)
entered-append (add_menu ∷ l) k = entered-append l k
entered-append (end ∷ l) k = entered-append l k

entered-script : (f : Forest) → entered (script f) ≡ preorder f
unfolding entered preorder script
entered-script nil = refl
entered-script (entry sym rest) = ap (λ r. sym ∷ r) (entered-script rest)
entered-script (menu sym below rest) =
    ap (λ r. sym ∷ r)
      (entered-append (script below) (end ∷ script rest)
        ∙ ap₂ (λ a b. a ++ b) (entered-script below) (entered-script rest))

-- The menus of a forest.
unfoldable pub size : Forest → ℕ
size nil = 0
size (entry sym rest) = suc (size rest)
size (menu sym below rest) = suc (size below + size rest)

-- The steps of the loop over a forest, with `k` more; one leaves the menus below another.
abbrev leaving : Forest → ℕ → ℕ
leaving nil k = k
leaving (entry sym rest) k = suc k
leaving (menu sym below rest) k = suc k

steps : Forest → ℕ → ℕ
steps nil k = k
steps (entry sym rest) k = suc (steps rest k)
steps (menu sym below rest) k = suc (steps below (leaving below (steps rest k)))

leaving-size : (f : Forest) (k : ℕ) → leaving f k ≤ 1 + k
leaving-size nil k = omega arith
leaving-size (entry sym rest) k = omega arith
leaving-size (menu sym below rest) k = omega arith

leaving_add : (f : Forest) (k j : ℕ) → leaving f (k + j) ≡ leaving f k + j
leaving_add nil k j = refl
leaving_add (entry sym rest) k j = omega arith
leaving_add (menu sym below rest) k j = omega arith

steps_add : (f : Forest) (k j : ℕ) → steps f (k + j) ≡ steps f k + j
unfolding steps
steps_add nil k j = refl
steps_add (entry sym rest) k j = omega (arith, steps_add rest k j)
steps_add (menu sym below rest) k j =
    ap (λ m. suc (steps below (leaving below m))) (steps_add rest k j)
    ∙ ap (λ m. suc (steps below m)) (leaving_add below (steps rest k) j)
    ∙ omega (arith, steps_add below (leaving below (steps rest k)) j)

steps-size : (f : Forest) (k : ℕ) → steps f k ≤ 2 * size f + k
unfolding steps size
steps-size nil k = omega arith
steps-size (entry sym rest) k = omega (arith, steps-size rest k)
steps-size (menu sym below rest) k = omega (
  arith,
  steps-size below (leaving below (steps rest k)),
  steps-size rest k,
  leaving-size below (steps rest k),
)

prepend-append :
    (l k : List (Option ℕ)) (m : Option (List (Option ℕ)))
    → prepend l (prepend k m) ≡ prepend (l ++ k) m
prepend-append l k none = refl
prepend-append l k (some r) = ap some (path_sym (append_assoc l k r))

prepend-nil : (m : Option (List (Option ℕ))) → prepend [] m ≡ m
prepend-nil none = refl
prepend-nil (some r) = refl

-- Where the loop is when it goes to a pointer of a menu with this parent.
abbrev start : Option ℕ → Option ℕ → At
start parent (some a) = visit a
start parent none = up parent

abbrev start_list : Option ℕ → Node → At
start_list (some a) n = visit a
start_list none n = next_or_up n

start_list-start :
    (n : Node) (parent : Option ℕ) {p : Option ℕ} {x : ℕ}
    → p ≡ some x
    → start_list p n ≡ start parent p
start_list-start n parent pe = ap (λ q. start_list q n) pe ∙ path_sym (ap (start parent) pe)

-- The loop over the menus below a menu, when it does so with the pointer to the first one.
walk-below :
    (f : Forest) (nodes : Nodes) (lo hi a : ℕ) (p : Option ℕ) (k : ℕ)
    → Leads nodes lo hi a p f
    → ((j : ℕ)
        → walk (steps f j) nodes (start (some a) p)
          ≡ prepend (preorder f) (walk j nodes (up (some a))))
    → walk (steps f (leaving f k)) nodes (start_list p (nodes a))
      ≡ prepend (preorder f) (walk k nodes (next_or_up (nodes a)))
unfolding steps preorder walk
walk-below nil nodes lo hi a p k led w =
    subst
      (λ q.
        walk k nodes (start_list q (nodes a)) ≡ prepend [] (walk k nodes (next_or_up (nodes a))))
      (path_sym led) (path_sym (prepend-nil _))
walk-below (entry sym rest) nodes lo hi a p k (x, pe, l, h, y, r, b, n) w =
    ap (walk (steps (entry sym rest) (suc k)) nodes) (start_list-start (nodes a) (some a) pe)
    ∙ w (suc k)
walk-below (menu sym below rest) nodes lo hi a p k (x, pe, l, h, y, r, b, n) w =
    ap (walk (steps (menu sym below rest) (suc k)) nodes) (start_list-start (nodes a) (some a) pe)
    ∙ w (suc k)

-- The clause of `next_or_up` on the node's fields.
next_or_up-start :
    (next parent : Option ℕ) (n : Node)
    → n.next ≡ next
    → n.parent ≡ parent
    → next_or_up n ≡ start parent next
next_or_up-start none parent n e u = rw (e) (ap up u)
next_or_up-start (some a) parent n e u = rw (e) refl

after_visit-start_list :
    (list : Option ℕ) (n : Node) → n.list ≡ list → after_visit n ≡ start_list list n
after_visit-start_list none n e = rw (e) refl
after_visit-start_list (some a) n e = rw (e) refl

-- A step that visits a menu.
walk-visit :
    (k : ℕ) (nodes : Nodes) (parent p : Option ℕ) (a : ℕ) (at : At) (s : Option ℕ)
    (l : List (Option ℕ)) (m : Option (List (Option ℕ)))
    → p ≡ some a
    → (nodes a).sym ≡ s
    → after_visit (nodes a) ≡ at
    → walk k nodes at ≡ prepend l m
    → walk (suc k) nodes (start parent p) ≡ prepend (s ∷ l) m
unfolding walk
walk-visit k nodes parent p a at s l m pe se ae w =
    ap (λ q. walk (suc k) nodes (start parent q)) pe
    ∙ ap₂ (λ x r. prepend (x ∷ []) (walk k nodes r)) se ae
    ∙ ap (prepend (s ∷ [])) w
    ∙ prepend-append (s ∷ []) l m

walk-Leads :
    (f : Forest) (nodes : Nodes) (lo hi parent : ℕ) (p : Option ℕ) (k : ℕ)
    → Leads nodes lo hi parent p f
    → walk (steps f k) nodes (start (some parent) p)
      ≡ prepend (preorder f) (walk k nodes (up (some parent)))
unfolding steps preorder
walk-Leads nil nodes lo hi parent p k led =
    ap (λ q. walk k nodes (start (some parent) q)) led ∙ path_sym (prepend-nil _)
walk-Leads (entry sym rest) nodes lo hi parent p k (a, pe, l, h, s, r, b, n) =
    walk-visit (steps rest k) nodes (some parent) p a (start (some parent) (nodes a).next) sym _ _
      pe s
      (after_visit-start_list none (nodes a) b
        ∙ next_or_up-start (nodes a).next (some parent) (nodes a) refl r)
      (walk-Leads rest nodes lo hi parent (nodes a).next k n)
walk-Leads (menu sym below rest) nodes lo hi parent p k (a, pe, l, h, s, r, b, n) =
    walk-visit (steps below (leaving below (steps rest k))) nodes (some parent) p a
      (start_list (nodes a).list (nodes a)) sym _ _ pe s
      (after_visit-start_list (nodes a).list (nodes a) refl)
      (walk-below below nodes lo hi a (nodes a).list (steps rest k) b
          (λ j. walk-Leads below nodes lo hi a (nodes a).list j b)
        ∙ ap (λ at. prepend (preorder below) (walk (steps rest k) nodes at))
            (next_or_up-start (nodes a).next (some parent) (nodes a) refl r)
        ∙ ap (prepend (preorder below)) (walk-Leads rest nodes lo hi parent (nodes a).next k n)
        ∙ prepend-append (preorder below) (preorder rest) _)

-- The loop ends at the root, whose `next` and `parent` are null.
walk-root :
    (k : ℕ) (nodes : Nodes)
    → (nodes rootmenu).next ≡ none
    → (nodes rootmenu).parent ≡ none
    → walk (suc (suc k)) nodes (up (some rootmenu)) ≡ some []
unfolding walk
walk-root k nodes n p = ap (walk (suc k) nodes) (next_or_up-start none none (nodes rootmenu) n p)

walk_from-start :
    (k : ℕ) (nodes : Nodes) (p : Option ℕ) {l : List (Option ℕ)}
    → 2 ≤ k
    → (nodes rootmenu).next ≡ none
    → (nodes rootmenu).parent ≡ none
    → walk k nodes (start (some rootmenu) p) ≡ some l
    → walk_from k nodes p ≡ some l
walk_from-start zero nodes none h n p w = ground arith
walk_from-start (suc zero) nodes none h n p w = ground arith
walk_from-start (suc (suc k)) nodes none h n p w = path_sym (walk-root k nodes n p) ∙ w
walk_from-start k nodes (some a) h n p w = w

-- The loop over a tree, with more steps than two for each menu.
walk_menus-IsTree :
    (f : Forest) (b : Builder) (k : ℕ)
    → 2 * size f + 2 ≤ k
    → IsTree f b
    → walk_menus k b.nodes ≡ some (preorder f)
unfolding walk_menus
walk_menus-IsTree f b k h (led, n, p, c) =
    let bound = steps-size f 0 in
    let i = k - steps f 0 - 2 in
    let fuel : steps f (suc (suc i)) ≡ k =
      ap (steps f) (omega arith) ∙ steps_add f 0 (suc (suc i)) ∙ omega arith in
    walk_from-start k b.nodes (b.nodes rootmenu).list (omega arith) n p (
      ap (λ m. walk m b.nodes (start (some rootmenu) (b.nodes rootmenu).list)) (path_sym fuel)
      ∙ walk-Leads f b.nodes 1 b.fresh rootmenu (b.nodes rootmenu).list (suc (suc i)) led
      ∙ ap (prepend (preorder f)) (walk-root i b.nodes n p)
      ∙ ap some (append-nil (preorder f)))

-- The calls of the parser for any menus run and end in the root menu; then the loop of `conf_write` ends
-- after at most two steps for each menu and two more, and it visits the symbols of the entries in the
-- order of the calls that added them.
pub walk_menus-entered :
    (f : Forest) (k : ℕ)
    → 2 * size f + 2 ≤ k
    → Returns
        (λ b. (b.current_menu ≡ some rootmenu) × (walk_menus k b.nodes ≡ some (entered (script f))))
        (calls (script f) menu_init)
walk_menus-entered f k h =
    Returns-map (calls-IsTree f)
      (λ b t. (t.3, walk_menus-IsTree f b k h t ∙ ap some (path_sym (entered-script f))))
