-- ===== src/Expr/Dups/Paths.antt =====
-- Paths through the nodes of one connective, and what a write at the end of one changes.
use mkrootfs.Base.{
  ℕ, ◌+◌, ◌≤◌, ◌≡◌, refl, sym, ap, ◌∙◌, subst, arith, true, ◌⊎◌, inl, inr, List, [], ◌∷◌, ◌++◌,
  some,
}
use mkrootfs.Expr.{Expr, e_and, e_or, size}
use mkrootfs.Expr.YesNo.{has_constant}
use mkrootfs.Expr.Eq.{Connective, conj, disj, two, neutral}
use mkrootfs.Expr.Dups.{Side, on_the_left, on_the_right, get, put}

-- The nodes of a connective at the top of a tree.
pub data Shape : Type 0 where
  leaf : Shape
  node : Shape → Shape → Shape

unfoldable pub shape : Connective → Expr → Shape
shape conj (e_and l r) = node (shape conj l) (shape conj r)
shape disj (e_or l r) = node (shape disj l) (shape disj r)
shape _ _ = leaf

unfoldable pub nodes : Shape → ℕ
nodes leaf = 0
nodes (node a b) = 1 + nodes a + nodes b

pub nodes-shape : (c : Connective) (e : Expr) → nodes (shape c e) ≤ size e
unfolding nodes shape size
nodes-shape conj (e_and l r) = omega (arith, nodes-shape conj l, nodes-shape conj r)
nodes-shape disj (e_or l r) = omega (arith, nodes-shape disj l, nodes-shape disj r)
nodes-shape _ _ = omega arith

-- The node with `x` on a side and `y` on the other.
abbrev pub two_at : Side → Connective → Expr → Expr → Expr
two_at on_the_left c x y = two c x y
two_at on_the_right c x y = two c y x

abbrev pub node_at : Side → Shape → Shape → Shape
node_at on_the_left a b = node a b
node_at on_the_right a b = node b a

-- The path leads from a tree through nodes of the connective to an expression.
pub data At (c : Connective) (e : Expr) : List Side → Expr → Type 0 where
  here : At c e [] e
  there :
      {s : Side} {p : List Side} {x : Expr}
      → (y : Expr) → At c e p x
      → At c e (s ∷ p) (two_at s c x y)

pub get-two_at :
    (s : Side) (c : Connective) (p : List Side) (x y : Expr)
    → get (s ∷ p) (two_at s c x y) ≡ get p x
unfolding get
get-two_at on_the_left conj p x y = refl
get-two_at on_the_left disj p x y = refl
get-two_at on_the_right conj p x y = refl
get-two_at on_the_right disj p x y = refl

pub put-two_at :
    (s : Side) (c : Connective) (p : List Side) (v x y : Expr)
    → put (s ∷ p) v (two_at s c x y) ≡ two_at s c (put p v x) y
unfolding put
put-two_at on_the_left conj p v x y = refl
put-two_at on_the_left disj p v x y = refl
put-two_at on_the_right conj p v x y = refl
put-two_at on_the_right disj p v x y = refl

pub size-two_at :
    (s : Side) (c : Connective) (x y : Expr) → size (two_at s c x y) ≡ 1 + size x + size y
unfolding size
size-two_at on_the_left conj x y = refl
size-two_at on_the_left disj x y = refl
size-two_at on_the_right conj x y = omega arith
size-two_at on_the_right disj x y = omega arith

pub shape-two_at :
    (s : Side) (c : Connective) (x y : Expr)
    → shape c (two_at s c x y) ≡ node_at s (shape c x) (shape c y)
unfolding shape
shape-two_at on_the_left conj x y = refl
shape-two_at on_the_left disj x y = refl
shape-two_at on_the_right conj x y = refl
shape-two_at on_the_right disj x y = refl

pub get-At : {c : Connective} {e t : Expr} {p : List Side} → At c e p t → get p t ≡ some e
unfolding get
get-At here = refl
get-At {c = c} (there {s} {p} {x} y a) = get-two_at s c p x y ∙ get-At a

-- A write of an expression whose top is like that of the old one.
pub shape-put :
    {c : Connective} {e t : Expr} {p : List Side} (x : Expr)
    → At c e p t
    → shape c x ≡ shape c e
    → shape c (put p x t) ≡ shape c t
unfolding put
shape-put x here h = h
shape-put {c = c} {e = e} v (there {s} {p} {x} y a) h =
    ap (shape c) (put-two_at s c p v x y)
    ∙ shape-two_at s c (put p v x) y
    ∙ ap (λ m. node_at s m (shape c y)) (shape-put v a h)
    ∙ sym (shape-two_at s c x y)

pub size-put :
    {c : Connective} {e t : Expr} {p : List Side} (x : Expr)
    → At c e p t
    → size (put p x t) + size e ≡ size t + size x
unfolding put
size-put x here = omega arith
size-put {c = c} {e = e} v (there {s} {p} {x} y a) =
    ap (λ m. size m + size e) (put-two_at s c p v x y)
    ∙ omega (arith, size-two_at s c (put p v x) y, size-two_at s c x y, size-put v a)

pub size-At : {c : Connective} {e t : Expr} {p : List Side} → At c e p t → size e ≤ size t
size-At here = omega arith
size-At {c = c} (there {s} {p} {x} y a) = omega (arith, size-two_at s c x y, size-At a)

-- Writing what is there.
pub put-get : {c : Connective} {e t : Expr} {p : List Side} → At c e p t → put p e t ≡ t
unfolding put
put-get here = refl
put-get {c = c} {e = e} (there {s} {p} {x} y a) =
    put-two_at s c p e x y ∙ ap (λ m. two_at s c m y) (put-get a)

pub At-put :
    {c : Connective} {e t : Expr} {p : List Side} (x : Expr) → At c e p t → At c x p (put p x t)
unfolding put
At-put x here = here
At-put {c = c} v (there {s} {p} {x} y a) =
    subst (At c v (s ∷ p)) (sym (put-two_at s c p v x y)) (there y (At-put v a))

pub At-append :
    {c : Connective} {e f t : Expr} {p q : List Side} → At c e p t → At c f q e → At c f (p ++ q) t
At-append here b = b
At-append (there y a) b = there y (At-append a b)

-- Constants among the operands.
has_constant-two_at :
    (s : Side) (c : Connective) (x y : Expr)
    → has_constant x ≡ true
    → has_constant (two_at s c x y) ≡ true
has_constant-two_at on_the_left conj x y h = ground arith
has_constant-two_at on_the_left disj x y h = ground arith
has_constant-two_at on_the_right conj x y h = ground arith
has_constant-two_at on_the_right disj x y h = ground arith

constant-two_at :
    (s : Side) (c d : Connective) (y : Expr) → has_constant (two_at s c (neutral d) y) ≡ true
constant-two_at on_the_left conj conj y = ground arith
constant-two_at on_the_left conj disj y = ground arith
constant-two_at on_the_left disj conj y = ground arith
constant-two_at on_the_left disj disj y = ground arith
constant-two_at on_the_right conj conj y = ground arith
constant-two_at on_the_right conj disj y = ground arith
constant-two_at on_the_right disj conj y = ground arith
constant-two_at on_the_right disj disj y = ground arith

pub has_constant-put :
    {c : Connective} {e t : Expr} {p : List Side} (x : Expr)
    → At c e p t
    → has_constant x ≡ true
    → has_constant (put p x t) ≡ true
unfolding put
has_constant-put x here h = h
has_constant-put {c = c} v (there {s} {p} {x} y a) h =
    ap has_constant (put-two_at s c p v x y)
    ∙ has_constant-two_at s c (put p v x) y (has_constant-put v a h)

-- A constant below the root.
pub has_constant-neutral :
    {c : Connective} {e t : Expr} {p : List Side} (d : Connective)
    → At c e p t
    → (p ≡ []) ⊎ (has_constant (put p (neutral d) t) ≡ true)
unfolding put
has_constant-neutral d here = inl refl
has_constant-neutral {c = c} d (there {s} {p} {x} y a) = inr (
    ap has_constant (put-two_at s c p (neutral d) x y) ∙ elim (has_constant-neutral d a) [
      | inl e ↦
          subst (λ q. has_constant (two_at s c (put q (neutral d) x) y) ≡ true) (sym e)
            (constant-two_at s c d y)
      | inr h ↦ has_constant-two_at s c (put p (neutral d) x) y h
    ])

-- A tree with a node at the top.
node-two_at :
    (s : Side) (c : Connective) (u : Expr) {m n : Shape}
    → shape c u ≡ node_at s m n
    → (x y : Expr) × (u ≡ two_at s c x y) × (shape c x ≡ m) × (shape c y ≡ n)
unfolding shape
node-two_at on_the_left conj (e_and l r) h = (l, r, refl, cc, cc)
node-two_at on_the_left disj (e_or l r) h = (l, r, refl, cc, cc)
node-two_at on_the_right conj (e_and l r) h = (r, l, refl, cc, cc)
node-two_at on_the_right disj (e_or l r) h = (r, l, refl, cc, cc)
node-two_at _ _ _ h = cc

-- A path in another tree with the same nodes at the top.
pub At-move :
    {c : Connective} {e t : Expr} {p : List Side} (u : Expr)
    → At c e p t
    → shape c u ≡ shape c t
    → (f : Expr) × At c f p u × (shape c f ≡ shape c e)
At-move u here h = (u, here, h)
At-move {c = c} u (there {s} {p} {x} y a) h =
    let (x1, y1, ue, hx, hy) = node-two_at s c u (h ∙ shape-two_at s c x y) in
    let (f, b, hf) = At-move x1 a hx in (f, subst (At c f (s ∷ p)) (sym ue) (there y1 b), hf)
