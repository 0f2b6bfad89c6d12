-- ===== src/Menu.antt =====
-- build-tools/kconfig/menu.c: menus as nodes at addresses, with the pointers `parent`, `next` and
-- `list` of `struct menu`; the root is at address 0. Null is `none`.
pub mod Build
pub mod Walk
pub mod Entry
pub mod Added
pub mod Types
pub mod Visible
use mkrootfs.Expr.{Expr}
use mkrootfs.Symbol.{Property}
use mkrootfs.Base.{ℕ, zero, suc, Option, none, some, List, [], ◌∷◌, ◌++◌, update, ◌>>=◌}

-- `menu->prompt` points to a property: to the one at this place of the list of the menu's symbol, or,
-- where the menu has no symbol, to one of its own.
pub data Prompt : Type 0 where
  no_prompt : Prompt
  of_symbol : ℕ → Prompt
  own : Property → Prompt

pub record Node : Type 0 where
  pub sym : Option ℕ
  pub prompt : Prompt
  pub dep : Option Expr
  pub parent : Option ℕ
  pub next : Option ℕ
  pub list : Option ℕ

abbrev pub Nodes : Type 0
Nodes = ℕ → Node

-- `&rootmenu`
abbrev pub rootmenu : ℕ
rootmenu = 0

-- What `last_entry_ptr` points to: `&menu->list` or `&menu->next`.
pub data Slot : Type 0 where
  list_of next_of : ℕ → Slot

-- `*last_entry_ptr = menu`
abbrev pub write_slot : Slot → Option ℕ → Nodes → Nodes
write_slot (list_of a) p nodes = update nodes a (record (nodes a) { list = p })
write_slot (next_of a) p nodes = update nodes a (record (nodes a) { next = p })

-- The nodes, the address that `malloc` gives next, and the variables of menu.c.
pub record Builder : Type 0 where
  pub nodes : Nodes
  pub fresh : ℕ
  pub current_entry : ℕ
  pub current_menu : Option ℕ
  pub last_entry_ptr : Slot

abbrev pub empty_node : Node
empty_node = record {
  sym = none;
  prompt = no_prompt;
  dep = none;
  parent = none;
  next = none;
  list = none;
}

-- `menu_init`, with the root zeroed and no other menu.
unfoldable pub menu_init : Builder
menu_init = record {
  nodes = λ _. empty_node;
  fresh = 1;
  current_entry = rootmenu;
  current_menu = some rootmenu;
  last_entry_ptr = list_of rootmenu;
}

-- The new node of `menu_add_entry`.
abbrev pub new_node : Option ℕ → Builder → Node
new_node sym b = record empty_node { sym = sym; parent = b.current_menu }

unfoldable pub menu_add_entry : Option ℕ → Builder → Builder
menu_add_entry sym b = record b {
  nodes = write_slot b.last_entry_ptr (some b.fresh) (update b.nodes b.fresh (new_node sym b));
  fresh = suc b.fresh;
  current_entry = b.fresh;
  last_entry_ptr = next_of b.fresh;
}

unfoldable pub menu_add_menu : Builder → Builder
menu_add_menu b = record b {
  last_entry_ptr = list_of b.current_entry;
  current_menu = some b.current_entry;
}

-- At a null `current_menu` the source reads a null pointer.
abbrev pub end_menu : Option ℕ → Builder → Option Builder
end_menu none b = none
end_menu (some a) b =
    some (record b { last_entry_ptr = next_of a; current_menu = (b.nodes a).parent })

unfoldable pub menu_end_menu : Builder → Option Builder
menu_end_menu b = end_menu b.current_menu b

-- The calls of the parser that build menus.
pub data Call : Type 0 where
  add_entry : Option ℕ → Call
  add_menu end : Call

unfoldable pub call : Call → Builder → Option Builder
call (add_entry sym) b = some (menu_add_entry sym b)
call add_menu b = some (menu_add_menu b)
call end b = menu_end_menu b

unfoldable pub calls : List Call → Builder → Option Builder
calls [] b = some b
calls (c ∷ l) b = do b1 ← call c b; calls l b1

-- Where the loop of `conf_write` stands: at a menu, or behind `menu = menu->parent`.
pub data At : Type 0 where
  visit : ℕ → At
  up : Option ℕ → At

-- `if (menu->next)`, and else up.
abbrev pub next_or_up : Node → At
next_or_up n = elim (n.next) [ some a ↦ visit a | none ↦ up n.parent ]

abbrev pub after_visit : Node → At
after_visit n = elim (n.list) [ some a ↦ visit a | none ↦ next_or_up n ]

abbrev pub prepend : List (Option ℕ) → Option (List (Option ℕ)) → Option (List (Option ℕ))
prepend l none = none
prepend l (some k) = some (l ++ k)

-- The symbols of the menus that the loop visits, in at most as many steps.
unfoldable pub walk : ℕ → Nodes → At → Option (List (Option ℕ))
walk zero nodes at = none
walk (suc k) nodes (visit a) = prepend ((nodes a).sym ∷ []) (walk k nodes (after_visit (nodes a)))
walk (suc k) nodes (up none) = some []
walk (suc k) nodes (up (some a)) = walk k nodes (next_or_up (nodes a))

-- `menu = rootmenu.list; while (menu) …`
abbrev pub walk_from : ℕ → Nodes → Option ℕ → Option (List (Option ℕ))
walk_from k nodes none = some []
walk_from k nodes (some a) = walk k nodes (visit a)

unfoldable pub walk_menus : ℕ → Nodes → Option (List (Option ℕ))
walk_menus k nodes = walk_from k nodes (nodes rootmenu).list
