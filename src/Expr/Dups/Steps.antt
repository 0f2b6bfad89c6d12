-- ===== src/Expr/Dups/Steps.antt =====
-- build-tools/kconfig/expr.c: the steps that both passes of `expr_eliminate_dups` share: the calls for
-- two operands, and the call inside of an operand of the other connective.
use mkrootfs.Base.{
  ℕ, ◌≤◌, ◌<◌, ◌≡◌, refl, sym, ◌∙◌, subst, arith, Bool, inl, inr, List, [], ◌∷◌, ◌++◌, Option, none,
  some, Option-cases, Returns, returned, Returns-bind, Returns-map,
}
use mkrootfs.Expr.{Expr, e_and, e_or, size}
use mkrootfs.Symbol.{Table}
use mkrootfs.Expr.Value.{IsSettled}
use mkrootfs.Expr.Eq.{Connective, conj, disj, connective, operands, two}
use mkrootfs.Expr.Dups.{get, Side, on_the_left, on_the_right, Walk, on_first, inside_at}
use mkrootfs.Expr.Dups.Paths.{
  get-At, size-two_at, nodes, Shape, leaf, node, shape, At, here, there, At-append, At-move,
  size-At,
}
use mkrootfs.Expr.Dups.Keeps.{Keeps, Keeps-refl, Keeps-trans, Keeps-inside}

-- What a path leads to in a walk: an expression with these nodes at the top.
abbrev pub Ends : Connective → Walk → List Side → Shape → Type 0
Ends c w p s = (e : Expr) × At c e p w.tree × (shape c e ≡ s)

pub operands-node :
    (c : Connective) (e : Expr) {m n : Shape}
    → shape c e ≡ node m n
    → (x y : Expr) × (operands c e ≡ some (x, y))
      × (e ≡ two c x y)
      × (shape c x ≡ m)
      × (shape c y ≡ n)
unfolding shape
operands-node conj (e_and l r) h = (l, r, refl, refl, cc, cc)
operands-node disj (e_or l r) h = (l, r, refl, refl, cc, cc)
operands-node _ _ h = cc

pub operands-leaf : (c : Connective) (e : Expr) → shape c e ≡ leaf → operands c e ≡ none
unfolding shape
operands-leaf conj (e_and l r) h = cc
operands-leaf disj (e_or l r) h = cc
operands-leaf _ _ h = refl

Ends-left :
    {c : Connective} (w : Walk) (p : List Side) {m n : Shape}
    → Ends c w p (node m n)
    → Ends c w (p ++ on_the_left ∷ []) m
Ends-left {c} w p (e, a, h) =
    let (x, y, o, te, hx, hy) = operands-node c e h in
    (x, At-append a (subst (At c x (on_the_left ∷ [])) (sym te) (there y here)), hx)

Ends-right :
    {c : Connective} (w : Walk) (p : List Side) {m n : Shape}
    → Ends c w p (node m n)
    → Ends c w (p ++ on_the_right ∷ []) n
Ends-right {c} w p (e, a, h) =
    let (x, y, o, te, hx, hy) = operands-node c e h in
    (y, At-append a (subst (At c y (on_the_right ∷ [])) (sym te) (there x here)), hy)

-- Reading at the end of a path.
pub get-Ends :
    (c : Connective) (w : Walk) (p : List Side) (s : Shape)
    → Ends c w p s
    → Returns (λ e. At c e p w.tree × (shape c e ≡ s)) (get p w.tree)
get-Ends c w p s (e, a, h) =
    subst (Returns (λ e. At c e p w.tree × (shape c e ≡ s))) (sym (get-At a)) (returned (a, h))

-- An operand is smaller than the tree.
pub size-operand :
    {c : Connective} {e u : Expr} {p : List Side} {m n : Shape}
    → At c e p u
    → shape c e ≡ leaf
    → shape c u ≡ node m n
    → size e < size u
size-operand here h g = cc
size-operand {c = c} (there {s} {p} {x} y a) h g = omega (arith, size-two_at s c x y, size-At a)

-- The calls inside of operands that are small enough.
abbrev pub Inner : Bool → Table → ℕ → (Connective → Walk → Option Walk) → Type 0
Inner sound t n again =
    (d : Connective) (v : Walk)
    → connective v.tree ≡ some d
    → size v.tree ≤ n
    → Returns (Keeps sound t d v) (again d v)

module _ {sound : Bool} {t : Table} {c : Connective} where
  pub Ends-Keeps :
      {w v : Walk} {p : List Side} {s : Shape} → Keeps sound t c w v → Ends c w p s → Ends c v p s
  Ends-Keeps {v = v} k (e, a, h) = let (f, b, g) = At-move v.tree a k.keeps_shape in (f, b, g ∙ h)

  -- A step for both operands at the end of a path, where the step keeps the tree in every state that
  -- the walk goes through.
  pub on_first-Keeps :
      (again : Walk → List Side → Option Walk) (w : Walk) (p : List Side) {m n : Shape}
      → Ends c w p (node m n)
      → ((v : Walk) (q : List Side) (s : Shape)
          → Keeps sound t c w v
          → Ends c v q s
          → (nodes s < nodes (node m n))
          → Returns (Keeps sound t c v) (again v q))
      → Returns (Keeps sound t c w) (on_first again w p)
  unfolding nodes
  on_first-Keeps again w p {m} {n} ends step =
      Returns-bind
        (step w (p ++ on_the_left ∷ []) m (Keeps-refl w) (Ends-left w p ends) (omega arith))
        (λ v k.
          Returns-map
            (step v (p ++ on_the_right ∷ []) n k (Ends-right v p (Ends-Keeps k ends)) (omega arith))
            (λ u l. Keeps-trans k l))

  -- The call inside of an operand.
  pub inside_at-Keeps :
      (settled : IsSettled t) (again : Connective → Walk → Option Walk) (w : Walk) (p : List Side)
      (e : Expr)
      → At c e p w.tree
      → shape c e ≡ leaf
      → ((d : Connective)
          → connective e ≡ some d
          → Returns (Keeps sound t d (record w { tree = e })) (again d (record w { tree = e })))
      → Returns (Keeps sound t c w) (inside_at again w p e)
  unfolding inside_at
  inside_at-Keeps settled again w p e a h step = elim (Option-cases (connective e)) [
    | inl k ↦ rw (k, inside_at) (returned (Keeps-refl w))
    | inr (d, k) ↦
        rw (k, inside_at)
          (Returns-bind (step d k) (λ v i. returned (Keeps-inside settled w v a k h i)))
  ]
