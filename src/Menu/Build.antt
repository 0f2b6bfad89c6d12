-- ===== src/Menu/Build.antt =====
-- build-tools/kconfig/menu.c: the calls of the parser build the tree of menus that it reads.
use mathlib.Core.List.{append_assoc, append-nil}
use mkrootfs.Base.{
  ℕ_discrete, ℕ, suc, ◌≤◌, ◌<◌, ◌≡◌, ◌≢◌, refl, sym as path_sym, ap, ◌∙◌, subst, arith, Option,
  none, some, List, [], ◌∷◌, ◌++◌, update, Returns, returned,
}
use mkrootfs.Menu.{
  Node, Nodes, rootmenu, Slot, list_of, next_of, write_slot, Builder, empty_node, menu_init,
  menu_add_entry, menu_add_menu, menu_end_menu, Call, add_entry, add_menu, end, call, calls,
}

-- The menus of a file: an entry, or an entry with menus below it, and those that follow.
pub data Forest : Type 0 where
  nil : Forest
  entry : Option ℕ → Forest → Forest
  menu : Option ℕ → Forest → Forest → Forest

-- The calls for them.
unfoldable pub script : Forest → List Call
script nil = []
script (entry sym rest) = add_entry sym ∷ script rest
script (menu sym below rest) = add_entry sym ∷ (add_menu ∷ (script below ++ (end ∷ script rest)))

-- The pointer leads to these menus, at addresses from `lo` on and below `hi`, with this parent.
abbrev pub Leads : Nodes → ℕ → ℕ → ℕ → Option ℕ → Forest → Type 0
Leads nodes lo hi parent p nil = p ≡ none
Leads nodes lo hi parent p (entry sym rest) =
    (a : ℕ) × (p ≡ some a)
    × (lo ≤ a)
    × (a < hi)
    × ((nodes a).sym ≡ sym)
    × ((nodes a).parent ≡ some parent)
    × ((nodes a).list ≡ none)
    × Leads nodes lo hi parent (nodes a).next rest
Leads nodes lo hi parent p (menu sym below rest) =
    (a : ℕ) × (p ≡ some a)
    × (lo ≤ a)
    × (a < hi)
    × ((nodes a).sym ≡ sym)
    × ((nodes a).parent ≡ some parent)
    × Leads nodes lo hi a (nodes a).list below
    × Leads nodes lo hi parent (nodes a).next rest

-- The pointer that a slot holds, and its node.
abbrev pub read_slot : Slot → Nodes → Option ℕ
read_slot (list_of a) nodes = (nodes a).list
read_slot (next_of a) nodes = (nodes a).next

abbrev pub node_of : Slot → ℕ
node_of (list_of a) = a
node_of (next_of a) = a

-- The maps agree on the addresses from `lo` on and below `hi`.
abbrev Same : ℕ → ℕ → Nodes → Nodes → Type 0
Same lo hi nodes other = (x : ℕ) → lo ≤ x → x < hi → other x ≡ nodes x

Leads-frame :
    (f : Forest) (nodes other : Nodes) (lo hi parent : ℕ) (p : Option ℕ)
    → Same lo hi nodes other
    → Leads nodes lo hi parent p f
    → Leads other lo hi parent p f
Leads-frame nil nodes other lo hi parent p same led = led
Leads-frame (entry sym rest) nodes other lo hi parent p same (a, pe, l, h, s, r, b, n) =
    let e = same a l h in
    (
      a,
      pe,
      l,
      h,
      ap (λ m. m.sym) e ∙ s,
      ap (λ m. m.parent) e ∙ r,
      ap (λ m. m.list) e ∙ b,
      subst (λ q. Leads other lo hi parent q rest) (path_sym (ap (λ m. m.next) e))
          (Leads-frame rest nodes other lo hi parent _ same n),
    )
Leads-frame (menu sym below rest) nodes other lo hi parent p same (a, pe, l, h, s, r, b, n) =
    let e = same a l h in
    (
      a,
      pe,
      l,
      h,
      ap (λ m. m.sym) e ∙ s,
      ap (λ m. m.parent) e ∙ r,
      subst (λ q. Leads other lo hi a q below) (path_sym (ap (λ m. m.list) e))
          (Leads-frame below nodes other lo hi a _ same b),
      subst (λ q. Leads other lo hi parent q rest) (path_sym (ap (λ m. m.next) e))
          (Leads-frame rest nodes other lo hi parent _ same n),
    )

Leads-widen :
    (f : Forest) (nodes : Nodes) (lo hi lo2 hi2 parent : ℕ) (p : Option ℕ)
    → lo2 ≤ lo
    → hi ≤ hi2
    → Leads nodes lo hi parent p f
    → Leads nodes lo2 hi2 parent p f
Leads-widen nil nodes lo hi lo2 hi2 parent p u v led = led
Leads-widen (entry sym rest) nodes lo hi lo2 hi2 parent p u v (a, pe, l, h, s, r, b, n) =
    (a, pe, omega arith, omega arith, s, r, b, Leads-widen rest nodes lo hi lo2 hi2 parent _ u v n)
Leads-widen (menu sym below rest) nodes lo hi lo2 hi2 parent p u v (a, pe, l, h, s, r, b, n) = (
  a,
  pe,
  omega arith,
  omega arith,
  s,
  r,
  Leads-widen below nodes lo hi lo2 hi2 a _ u v b,
  Leads-widen rest nodes lo hi lo2 hi2 parent _ u v n,
)

update-same : (nodes : Nodes) (a x : ℕ) → update nodes a (nodes a) x ≡ nodes x
update-same nodes a x = elim (ℕ_discrete x a) [
  | yes e ↦ rw (e) (ground arith)
  | no n ↦ ground arith
]

update-at : (nodes : Nodes) (a : ℕ) (n : Node) → update nodes a n a ≡ n
update-at nodes a n = ground arith

-- Writing a slot that holds the value already.
write_slot-read_slot :
    (s : Slot) (nodes : Nodes) {p : Option ℕ}
    → read_slot s nodes ≡ p
    → (x : ℕ) → write_slot s p nodes x ≡ nodes x
write_slot-read_slot (list_of a) nodes e x =
    subst (λ q. write_slot (list_of a) q nodes x ≡ nodes x) e (update-same nodes a x)
write_slot-read_slot (next_of a) nodes e x =
    subst (λ q. write_slot (next_of a) q nodes x ≡ nodes x) e (update-same nodes a x)

-- Writing a slot leaves the nodes of other addresses.
write_slot-other :
    (s : Slot) (p : Option ℕ) (nodes : Nodes) (x : ℕ)
    → x ≢ node_of s
    → write_slot s p nodes x ≡ nodes x
write_slot-other (list_of a) p nodes x h = ground arith
write_slot-other (next_of a) p nodes x h = ground arith

-- A node that is new does not matter below it.
write_slot-update :
    (s : Slot) (p : Option ℕ) (nodes : Nodes) (fresh : ℕ) (n : Node) (x : ℕ)
    → node_of s < fresh
    → x < fresh
    → write_slot s p (update nodes fresh n) x ≡ write_slot s p nodes x
write_slot-update (list_of a) p nodes fresh n x h u = ground arith
write_slot-update (next_of a) p nodes fresh n x h u = ground arith

-- The builder inside the menu at `parent`.
abbrev within : Nodes → ℕ → ℕ → ℕ → Slot → Builder
within nodes fresh current parent slot = record {
  nodes = nodes;
  fresh = fresh;
  current_entry = current;
  current_menu = some parent;
  last_entry_ptr = slot;
}

-- What the calls for the menus leave: the slot leads to them, no older node is changed otherwise, and
-- the calls that follow go on from there.
record Built (nodes : Nodes) (fresh current parent : ℕ) (slot : Slot) (f : Forest) : Type 0 where
  new : Nodes
  new_fresh : ℕ
  new_current : ℕ
  new_slot : Slot
  head : Option ℕ
  grows : fresh ≤ new_fresh
  frame : (x : ℕ) → x < fresh → new x ≡ write_slot slot head nodes x
  leads : Leads new fresh new_fresh parent head f
  runs :
      (l : List Call)
      → calls (script f ++ l) (within nodes fresh current parent slot)
        ≡ calls l (within new new_fresh new_current parent new_slot)

-- The map after the node of an entry is linked.
abbrev linked : Nodes → ℕ → ℕ → Slot → Option ℕ → Nodes
linked nodes fresh parent slot sym =
    write_slot slot (some fresh)
      (update nodes fresh (record empty_node { sym = sym; parent = some parent }))

linked-fresh :
    (nodes : Nodes) (fresh parent : ℕ) (slot : Slot) (sym : Option ℕ)
    → node_of slot < fresh
    → linked nodes fresh parent slot sym fresh
      ≡ record empty_node { sym = sym; parent = some parent }
linked-fresh nodes fresh parent slot sym h =
    write_slot-other slot (some fresh) (update nodes fresh _) fresh (omega arith)
    ∙ update-at nodes fresh _

-- What the calls for the first menu of a forest do.
calls-nil : (B : Builder) (l : List Call) → calls (script nil ++ l) B ≡ calls l B
unfolding script
calls-nil B l = refl

calls-entry :
    (sym : Option ℕ) (rest : Forest) (nodes : Nodes) (fresh current parent : ℕ) (slot : Slot)
    (l : List Call)
    → calls (script (entry sym rest) ++ l) (within nodes fresh current parent slot)
      ≡ calls
          (script rest ++ l)
          (within (linked nodes fresh parent slot sym) (suc fresh) fresh parent (next_of fresh))
unfolding script calls call menu_add_entry
calls-entry sym rest nodes fresh current parent slot l = refl

calls-menu :
    (sym : Option ℕ) (below rest : Forest) (nodes : Nodes) (fresh current parent : ℕ) (slot : Slot)
    (l : List Call)
    → calls (script (menu sym below rest) ++ l) (within nodes fresh current parent slot)
      ≡ calls
          (script below ++ (end ∷ (script rest ++ l)))
          (within (linked nodes fresh parent slot sym) (suc fresh) fresh fresh (list_of fresh))
unfolding script calls call menu_add_entry menu_add_menu
calls-menu sym below rest nodes fresh current parent slot l =
    ap
      (λ t.
        calls t
          (within (linked nodes fresh parent slot sym) (suc fresh) fresh fresh (list_of fresh)))
      (append_assoc (script below) (end ∷ script rest) l)

calls-end :
    (nodes : Nodes) (fresh current a : ℕ) (slot : Slot) (l : List Call) {parent : ℕ}
    → (nodes a).parent ≡ some parent
    → calls (end ∷ l) (within nodes fresh current a slot)
      ≡ calls l (within nodes fresh current parent (next_of a))
unfolding calls call menu_end_menu
calls-end nodes fresh current a slot l e =
    ap (λ q. calls l (record (within nodes fresh current a (next_of a)) { current_menu = q })) e

script-Built :
    (f : Forest) (nodes : Nodes) (fresh current parent : ℕ) (slot : Slot)
    → node_of slot < fresh
    → read_slot slot nodes ≡ none
    → Built nodes fresh current parent slot f
script-Built nil nodes fresh current parent slot h empty = record {
  new = nodes;
  new_fresh = fresh;
  new_current = current;
  new_slot = slot;
  head = none;
  grows = omega arith;
  frame = λ x l. path_sym (write_slot-read_slot slot nodes empty x);
  leads = refl;
  runs = λ l. calls-nil (within nodes fresh current parent slot) l;
}
script-Built (entry sym rest) nodes fresh current parent slot h empty =
    let n = linked-fresh nodes fresh parent slot sym h in
    let B =
      script-Built rest (linked nodes fresh parent slot sym) (suc fresh) fresh parent
        (next_of fresh) (omega arith) (ap (λ m. m.next) n) in
    let e = B.frame fresh (omega arith) ∙ update-at (linked nodes fresh parent slot sym) fresh _ in
    record {
      new = B.new;
      new_fresh = B.new_fresh;
      new_current = B.new_current;
      new_slot = B.new_slot;
      head = some fresh;
      grows = let g = B.grows in omega arith;
      frame = λ x l.
          B.frame x (omega arith)
          ∙ write_slot-other (next_of fresh) B.head (linked nodes fresh parent slot sym) x
              (omega arith)
          ∙ write_slot-update slot (some fresh) nodes fresh _ x h l;
      leads = (
        fresh,
        refl,
        omega arith,
        (let g = B.grows in omega arith),
        ap (λ m. m.sym) e ∙ ap (λ m. m.sym) n,
        ap (λ m. m.parent) e ∙ ap (λ m. m.parent) n,
        ap (λ m. m.list) e ∙ ap (λ m. m.list) n,
        subst (λ q. Leads B.new fresh B.new_fresh parent q rest) (path_sym (ap (λ m. m.next) e))
            (Leads-widen rest B.new (suc fresh) B.new_fresh fresh B.new_fresh parent B.head
              (omega arith) (omega arith) B.leads),
      );
      runs = λ l. calls-entry sym rest nodes fresh current parent slot l ∙ B.runs l;
    }
script-Built (menu sym below rest) nodes fresh current parent slot h empty =
    let made = linked nodes fresh parent slot sym in
    let n = linked-fresh nodes fresh parent slot sym h in
    let B =
      script-Built below made (suc fresh) fresh fresh (list_of fresh) (omega arith)
        (ap (λ m. m.list) n) in
    let b = B.frame fresh (omega arith) ∙ update-at made fresh _ in
    let g = B.grows in
    let R =
      script-Built rest B.new B.new_fresh B.new_current parent (next_of fresh) (omega arith)
        (ap (λ m. m.next) b ∙ ap (λ m. m.next) n) in
    let u = R.grows in
    let e = R.frame fresh (omega arith) ∙ update-at B.new fresh _ in
    record {
      new = R.new;
      new_fresh = R.new_fresh;
      new_current = R.new_current;
      new_slot = R.new_slot;
      head = some fresh;
      grows = omega arith;
      frame = λ x l.
          R.frame x (omega arith)
          ∙ write_slot-other (next_of fresh) R.head B.new x (omega arith)
          ∙ B.frame x (omega arith)
          ∙ write_slot-other (list_of fresh) B.head made x (omega arith)
          ∙ write_slot-update slot (some fresh) nodes fresh _ x h l;
      leads = (
        fresh,
        refl,
        omega arith,
        omega arith,
        ap (λ m. m.sym) e ∙ ap (λ m. m.sym) b ∙ ap (λ m. m.sym) n,
        ap (λ m. m.parent) e ∙ ap (λ m. m.parent) b ∙ ap (λ m. m.parent) n,
        subst (λ q. Leads R.new fresh R.new_fresh fresh q below)
            (path_sym (ap (λ m. m.list) e ∙ ap (λ m. m.list) b))
            (Leads-widen below R.new (suc fresh) B.new_fresh fresh R.new_fresh fresh B.head
              (omega arith) (omega arith)
              (Leads-frame below B.new R.new (suc fresh) B.new_fresh fresh B.head
                (λ x l k.
                  R.frame x (omega arith)
                  ∙ write_slot-other (next_of fresh) R.head B.new x (omega arith))
                B.leads)),
        subst (λ q. Leads R.new fresh R.new_fresh parent q rest) (path_sym (ap (λ m. m.next) e))
            (Leads-widen rest R.new B.new_fresh R.new_fresh fresh R.new_fresh parent R.head
              (omega arith) (omega arith) R.leads),
      );
      runs = λ l.
          calls-menu sym below rest nodes fresh current parent slot l
          ∙ B.runs (end ∷ (script rest ++ l))
          ∙ calls-end B.new B.new_fresh B.new_current fresh B.new_slot (script rest ++ l)
              (ap (λ m. m.parent) b ∙ ap (λ m. m.parent) n)
          ∙ R.runs l;
    }

-- The calls run, and the pointer of the root leads to the menus.
abbrev pub IsTree : Forest → Builder → Type 0
IsTree f b =
    Leads b.nodes 1 b.fresh rootmenu (b.nodes rootmenu).list f
    × ((b.nodes rootmenu).next ≡ none)
    × ((b.nodes rootmenu).parent ≡ none)
    × (b.current_menu ≡ some rootmenu)

-- From `menu_init` on, the calls of the parser for any menus all succeed: none ends a menu that is not
-- open. They end in the root menu, and the pointers `list`, `next` and `parent` below the root are the
-- tree of these menus, in their order.
pub calls-IsTree : (f : Forest) → Returns (IsTree f) (calls (script f) menu_init)
unfolding calls menu_init
calls-IsTree f =
    let B = script-Built f (λ _. empty_node) 1 0 0 (list_of 0) (omega arith) refl in
    let e = B.frame 0 (omega arith) in
    subst (λ l. Returns (IsTree f) (calls l menu_init)) (append-nil (script f))
      (subst (λ m. Returns (IsTree f) m) (path_sym (B.runs []))
        (returned {a = within B.new B.new_fresh B.new_current 0 B.new_slot} (
          subst (λ q. Leads B.new 1 B.new_fresh rootmenu q f) (path_sym (ap (λ m. m.list) e))
              B.leads,
          ap (λ m. m.next) e,
          ap (λ m. m.parent) e,
          refl,
        )))
