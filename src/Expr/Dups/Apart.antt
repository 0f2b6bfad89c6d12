-- ===== src/Expr/Dups/Apart.antt =====
-- Two different paths to operands: a write at the end of one leaves the other.
use mkrootfs.Base.{◌≡◌, refl, sym, ap, ◌∙◌, subst, false, ◌⊎◌, inl, inr, List, [], ◌∷◌}
use mkrootfs.Expr.{Expr}
use mkrootfs.Expr.Eq.{Connective, conj, disj}
use mkrootfs.Expr.Dups.{Side, on_the_left, on_the_right, same_path, put}
use mkrootfs.Expr.Dups.Paths.{
  Shape, leaf, shape, two_at, node_at, At, here, there, put-two_at, shape-two_at,
}

abbrev pub other_side : Side → Side
other_side on_the_left = on_the_right
other_side on_the_right = on_the_left

-- The paths part at a node.
pub data Apart (c : Connective) (e f : Expr) : List Side → List Side → Expr → Type 0 where
  parts :
      {s : Side} {p q : List Side} {x y : Expr}
      → At c e p x
      → At c f q y
      → Apart c e f (s ∷ p) (other_side s ∷ q) (two_at s c x y)
  below :
      {s : Side} {p q : List Side} {x : Expr}
      → (y : Expr) → Apart c e f p q x
      → Apart c e f (s ∷ p) (s ∷ q) (two_at s c x y)

two_at-other :
    (s : Side) (c : Connective) (x y : Expr) → two_at s c x y ≡ two_at (other_side s) c y x
two_at-other on_the_left c x y = refl
two_at-other on_the_right c x y = refl

two_at-inj :
    (s r : Side) (c : Connective) (x y u v : Expr)
    → two_at s c x y ≡ two_at r c u v
    → ((s ≡ r) × (x ≡ u) × (y ≡ v)) ⊎ ((s ≡ other_side r) × (x ≡ v) × (y ≡ u))
two_at-inj on_the_left on_the_left conj x y u v h = inl (refl, cc, cc)
two_at-inj on_the_left on_the_left disj x y u v h = inl (refl, cc, cc)
two_at-inj on_the_right on_the_right conj x y u v h = inl (refl, cc, cc)
two_at-inj on_the_right on_the_right disj x y u v h = inl (refl, cc, cc)
two_at-inj on_the_left on_the_right conj x y u v h = inr (refl, cc, cc)
two_at-inj on_the_left on_the_right disj x y u v h = inr (refl, cc, cc)
two_at-inj on_the_right on_the_left conj x y u v h = inr (refl, cc, cc)
two_at-inj on_the_right on_the_left disj x y u v h = inr (refl, cc, cc)

-- Where a path through a node goes on.
data Next (c : Connective) (f : Expr) (s : Side) (x y : Expr) : List Side → Type 0 where
  ends : f ≡ two_at s c x y → Next c f s x y []
  same : {q : List Side} → At c f q x → Next c f s x y (s ∷ q)
  across : {q : List Side} → At c f q y → Next c f s x y (other_side s ∷ q)

At-Next :
    {c : Connective} {f u : Expr} {q : List Side} (s : Side) (x y : Expr)
    → At c f q u
    → u ≡ two_at s c x y
    → Next c f s x y q
At-Next s x y here e = ends e
At-Next {c = c} {f = f} s x y (there {s = r} {p = q} {x = x1} y1 a) e =
    elim (two_at-inj r s c x1 y1 x y e) [
      | inl (se, xe, ye) ↦
          subst (λ z. Next c f s x y (z ∷ q)) (sym se) (same (subst (At c f q) xe a))
      | inr (se, xe, ye) ↦
          subst (λ z. Next c f s x y (z ∷ q)) (sym se) (across (subst (At c f q) xe a))
    ]

node_at-ne : {A : Type 0} (s : Side) (a b : Shape) → node_at s a b ≡ leaf → A
node_at-ne on_the_left a b h = cc
node_at-ne on_the_right a b h = cc

At-leaf : {c : Connective} {f u : Expr} {q : List Side} → At c f q u → shape c u ≡ leaf → q ≡ []
At-leaf here h = refl
At-leaf {c = c} (there {s} {p} {x} y a) h =
    node_at-ne s (shape c x) (shape c y) (sym (shape-two_at s c x y) ∙ h)

same_path-tail :
    (s : Side) (p q : List Side) → same_path (s ∷ p) (s ∷ q) ≡ false → same_path p q ≡ false
same_path-tail on_the_left p q h = h
same_path-tail on_the_right p q h = h

Next-Apart :
    {c : Connective} {e f x y : Expr} {s : Side} {p q : List Side}
    → At c e p x
    → Next c f s x y q
    → shape c f ≡ leaf
    → same_path (s ∷ p) q ≡ false
    → ((r : List Side) → At c f r x → same_path p r ≡ false → Apart c e f p r x)
    → Apart c e f (s ∷ p) q (two_at s c x y)
Next-Apart {c = c} {x = x} {y = y} {s = s} a (ends fe) hf d again =
    node_at-ne s (shape c x) (shape c y) (sym (shape-two_at s c x y) ∙ ap (shape c) (sym fe) ∙ hf)
Next-Apart {y = y} {s = s} {p = p} a (same {q} b) hf d again =
    below y (again q b (same_path-tail s p q d))
Next-Apart a (across b) hf d again = parts a b

same_path-ne : {A : Type 0} (q : List Side) → q ≡ [] → same_path [] q ≡ false → A
same_path-ne [] e d = cc
same_path-ne (s ∷ q) e d = cc

-- Two paths to operands are the same or part at a node.
pub At-Apart :
    {c : Connective} {e f t : Expr} {p q : List Side}
    → At c e p t
    → At c f q t
    → shape c e ≡ leaf
    → shape c f ≡ leaf
    → same_path p q ≡ false
    → Apart c e f p q t
At-Apart {p = p} here b he hf d = same_path-ne _ (At-leaf b he) d
At-Apart (there {s} {p} {x} y a) b he hf d =
    Next-Apart a (At-Next s x y b refl) hf d (λ r b1 d1. At-Apart a b1 he hf d1)

-- Writes at the end of both.
pub get-Apart :
    {c : Connective} {e f t : Expr} {p q : List Side} (v : Expr)
    → Apart c e f p q t
    → At c f q (put p v t)
unfolding put
get-Apart {c = c} {f = f} v (parts {s} {p} {q} {x} {y} a b) =
    subst (At c f (other_side s ∷ q))
      (sym (put-two_at s c p v x y ∙ two_at-other s c (put p v x) y)) (there (put p v x) b)
get-Apart {c = c} {f = f} v (below {s} {p} {q} {x} y h) =
    subst (At c f (s ∷ q)) (sym (put-two_at s c p v x y)) (there y (get-Apart v h))

pub put_comm :
    {c : Connective} {e f t : Expr} {p q : List Side} (v w : Expr)
    → Apart c e f p q t
    → put q w (put p v t) ≡ put p v (put q w t)
unfolding put
put_comm {c = c} v w (parts {s} {p} {q} {x} {y} a b) =
    ap (put (other_side s ∷ q) w) (put-two_at s c p v x y ∙ two_at-other s c (put p v x) y)
    ∙ put-two_at (other_side s) c q w y (put p v x)
    ∙ sym (two_at-other s c (put p v x) (put q w y))
    ∙ sym (put-two_at s c p v x (put q w y))
    ∙ ap (put (s ∷ p) v) (
        two_at-other s c x (put q w y)
        ∙ sym (put-two_at (other_side s) c q w y x)
        ∙ ap (put (other_side s ∷ q) w) (sym (two_at-other s c x y)))
put_comm {c = c} v w (below {s} {p} {q} {x} y h) =
    ap (put (s ∷ q) w) (put-two_at s c p v x y)
    ∙ put-two_at s c q w (put p v x) y
    ∙ ap (λ m. two_at s c m y) (put_comm v w h)
    ∙ sym (put-two_at s c p v (put q w x) y)
    ∙ ap (put (s ∷ p) v) (sym (put-two_at s c q w x y))
