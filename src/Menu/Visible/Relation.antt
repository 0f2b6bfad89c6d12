-- ===== src/Menu/Visible/Relation.antt =====
-- build-tools/kconfig/menu.c: which menus are visible, or have a visible one below them, as a relation
-- that does not follow the code's calls.
use mkrootfs.Base.{ℕ, ◌≡◌, ◌⊎◌, true, false, inl, inr, Option, none, some}
use mkrootfs.Tristate.{Tristate, tri_no, tri_eq}
use mkrootfs.Symbol.{Table}
use mkrootfs.Config.{Decls, State, table}
use mkrootfs.Expr.Value.{expr_calc_value}
use mkrootfs.Menu.{Prompt, of_symbol, own, Nodes}
use mkrootfs.Menu.Entry.{has_prompt}
use mkrootfs.Menu.Visible.{hides_below}

-- The visibility of a menu's prompt, over a table of calculated symbols.
abbrev pub visible_tri : Table → Option ℕ → Prompt → Tristate
visible_tri t (some s) (of_symbol i) = (t s).now.prop_tri i
visible_tri t none (own q) = expr_calc_value t q.visible_expr
visible_tri t _ _ = tri_no

-- The pointer leads along `next` to the menu.
pub data Along (nodes : Nodes) : Option ℕ → ℕ → Type 0 where
  first : {a : ℕ} → Along nodes (some a) a
  later : {a b : ℕ} → Along nodes (nodes a).next b → Along nodes (some a) b

-- The prompt of the menu is visible, or the menu has a prompt and a symbol that is not `n`, and this
-- holds of a menu directly below.
pub data Seen (d : Decls) (st : State) (nodes : Nodes) : ℕ → Type 0 where
  shown :
      {a : ℕ}
      → has_prompt (nodes a).prompt ≡ true
      → tri_eq (visible_tri (table d st) (nodes a).sym (nodes a).prompt) tri_no ≡ false
      → Seen d st nodes a
  through :
      {a b : ℕ}
      → has_prompt (nodes a).prompt ≡ true
      → hides_below st (nodes a).sym ≡ false
      → Along nodes (nodes a).list b
      → Seen d st nodes b
      → Seen d st nodes a

abbrev pub SeenAlong : Decls → State → Nodes → Option ℕ → Type 0
SeenAlong d st nodes p = (b : ℕ) × Along nodes p b × Seen d st nodes b

pub Seen-prompt :
    (d : Decls) (st : State) (nodes : Nodes) (a : ℕ)
    → Seen d st nodes a
    → has_prompt (nodes a).prompt ≡ true
Seen-prompt d st nodes a (shown h v) = h
Seen-prompt d st nodes a (through h v w s) = h

pub Seen-below :
    (d : Decls) (st : State) (nodes : Nodes) (a : ℕ)
    → tri_eq (visible_tri (table d st) (nodes a).sym (nodes a).prompt) tri_no ≡ true
    → Seen d st nodes a
    → (hides_below st (nodes a).sym ≡ false) × SeenAlong d st nodes (nodes a).list
Seen-below d st nodes a hid (shown h v) = cc
Seen-below d st nodes a hid (through {b = b} h v w s) = (v, (b, w, s))

pub SeenAlong-none :
    {A : Type 0} (d : Decls) (st : State) (nodes : Nodes) (p : Option ℕ)
    → p ≡ none
    → SeenAlong d st nodes p
    → A
SeenAlong-none d st nodes p e (b, first, s) = cc
SeenAlong-none d st nodes p e (b, later w, s) = cc

-- Along a pointer that is not null: the first menu, or those behind it.
pub SeenAlong-cases :
    (d : Decls) (st : State) (nodes : Nodes) (a : ℕ)
    → SeenAlong d st nodes (some a)
    → Seen d st nodes a ⊎ SeenAlong d st nodes (nodes a).next
SeenAlong-cases d st nodes a (b, first, s) = inl s
SeenAlong-cases d st nodes a (b, later w, s) = inr (b, w, s)
