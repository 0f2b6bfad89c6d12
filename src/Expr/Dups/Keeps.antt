-- ===== src/Expr/Dups/Keeps.antt =====
-- build-tools/kconfig/expr.c: what the passes of `expr_eliminate_dups` keep of a tree.
use mkrootfs.Base.{
  ◌≤◌, ◌≡◌, refl, sym, ap, ◌∙◌, subst, arith, Bool, true, ◌⊎◌, inl, inr, List, ◌∷◌, some,
}
use mkrootfs.Tristate.{Tristate}
use mkrootfs.Tristate.Laws.{or_comm, and_comm}
use mkrootfs.Expr.{Expr, size}
use mkrootfs.Symbol.{Table}
use mkrootfs.Expr.Value.{value, IsSettled, value_no, value_yes}
use mkrootfs.Expr.YesNo.{has_constant}
use mkrootfs.Expr.Eq.{Connective, conj, disj, connective, neutral}
use mkrootfs.Expr.Eq.Removes.{op, unit, op-unit, op_assoc, value-two}
use mkrootfs.Expr.Dups.{Side, on_the_left, on_the_right, put, Walk}
use mkrootfs.Expr.Dups.Paths.{
  leaf, shape, two_at, At, here, there, put-two_at, shape-put, size-put, put-get, At-put,
  has_constant-put,
}
use mkrootfs.Expr.Dups.Apart.{Apart, get-Apart}

op_comm : (c : Connective) (a b : Tristate) → op c a b ≡ op c b a
op_comm conj a b = and_comm a b
op_comm disj a b = or_comm a b

put-put :
    {c : Connective} {e t : Expr} {p : List Side} (v w : Expr)
    → At c e p t
    → put p v (put p w t) ≡ put p v t
unfolding put
put-put v w here = refl
put-put {c = c} v w (there {s} {p} {x} y a) =
    ap (put (s ∷ p) v) (put-two_at s c p w x y)
    ∙ put-two_at s c p v (put p w x) y
    ∙ ap (λ m. two_at s c m y) (put-put v w a)
    ∙ sym (put-two_at s c p v x y)

module _ (t : Table) (settled : IsSettled t) where
  value-neutral : (c : Connective) → value t (neutral c) ≡ unit c
  value-neutral conj = value_yes t settled
  value-neutral disj = value_no t settled

  value-two_at :
      (s : Side) (c : Connective) (x y : Expr)
      → value t (two_at s c x y) ≡ op c (value t x) (value t y)
  value-two_at on_the_left c x y = value-two t c x y
  value-two_at on_the_right c x y = value-two t c y x ∙ op_comm c (value t y) (value t x)

  -- A tree has the value of one operand joined with the rest.
  value-At :
      {c : Connective} {e u : Expr} {p : List Side}
      → At c e p u
      → value t u ≡ op c (value t e) (value t (put p (neutral c) u))
  unfolding put
  value-At {c = c} {e = e} here =
      sym (ap (op c (value t e)) (value-neutral c) ∙ op-unit c (value t e))
  value-At {c = c} {e = e} (there {s} {p} {x} y a) =
      value-two_at s c x y
      ∙ ap (λ m. op c m (value t y)) (value-At a)
      ∙ op_assoc c (value t e) (value t (put p (neutral c) x)) (value t y)
      ∙ ap (op c (value t e)) (
          sym (
            ap (value t) (put-two_at s c p (neutral c) x y)
            ∙ value-two_at s c (put p (neutral c) x) y))

  value-put :
      {c : Connective} {e u : Expr} {p : List Side} (x : Expr)
      → At c e p u
      → value t (put p x u) ≡ op c (value t x) (value t (put p (neutral c) u))
  value-put {c = c} {p = p} x a =
      value-At (At-put x a) ∙ ap (λ m. op c (value t x) (value t m)) (put-put (neutral c) x a)

  -- Two operands replaced by one of their joint value.
  pub value-join :
      {c : Connective} {e f u : Expr} {p q : List Side} (x : Expr)
      → At c e p u
      → Apart c e f p q u
      → value t x ≡ op c (value t e) (value t f)
      → value t (put q x (put p (neutral c) u)) ≡ value t u
  value-join {c = c} {e = e} {f = f} {u = u} {p = p} {q = q} x a d h =
      let b = get-Apart (neutral c) d in
      let rest = value t (put q (neutral c) (put p (neutral c) u)) in
      value-put x b
      ∙ ap (λ m. op c m rest) h
      ∙ op_assoc c (value t e) (value t f) rest
      ∙ ap (op c (value t e)) (sym (value-At b))
      ∙ sym (value-At a)

-- The node at the top of one tree is at the top of the other.
shape-leaf :
    (c d : Connective) (e v : Expr)
    → connective e ≡ some d
    → shape c e ≡ leaf
    → shape d v ≡ shape d e
    → shape c v ≡ leaf
unfolding shape
shape-leaf c d e v k h g = ground arith

-- What a pass over the operands of a connective promises: the nodes of the connective stay, the tree
-- does not grow, and it is the old one or has a constant operand. The first pass, for which `sound` is
-- set, keeps the value.
pub record Keeps (sound : Bool) (t : Table) (c : Connective) (w v : Walk) : Type 0 where
  pub keeps_shape : shape c v.tree ≡ shape c w.tree
  pub keeps_size : size v.tree ≤ size w.tree
  pub changes : (v ≡ w) ⊎ (has_constant v.tree ≡ true)
  pub keeps_value : sound ≡ true → value t v.tree ≡ value t w.tree

module _ {sound : Bool} {t : Table} {c : Connective} where
  pub Keeps-refl : (w : Walk) → Keeps sound t c w w
  Keeps-refl w = record {
    keeps_shape = refl;
    keeps_size = omega arith;
    changes = inl refl;
    keeps_value = λ s. refl;
  }

  pub Keeps-trans : {w v u : Walk} → Keeps sound t c w v → Keeps sound t c v u → Keeps sound t c w u
  Keeps-trans {u = u} k l = record {
    keeps_shape = l.keeps_shape ∙ k.keeps_shape;
    keeps_size = let a = k.keeps_size in let b = l.keeps_size in omega arith;
    changes = elim (l.changes) [
      | inr h ↦ inr h
      | inl e ↦ elim (k.changes) [
        | inl f ↦ inl (e ∙ f)
        | inr h ↦ inr (subst (λ m. has_constant m.tree ≡ true) (sym e) h)
      ]
    ];
    keeps_value = λ s. l.keeps_value s ∙ k.keeps_value s;
  }

  -- A pass inside of an operand of the other connective.
  pub Keeps-inside :
      {d : Connective} {e : Expr} {p : List Side} (settled : IsSettled t) (w v : Walk)
      → At c e p w.tree
      → connective e ≡ some d
      → shape c e ≡ leaf
      → Keeps sound t d (record w { tree = e }) v
      → Keeps sound t c w (record { tree = put p v.tree w.tree; count = v.count })
  Keeps-inside {d} {e} {p} settled w v a k h i = record {
    keeps_shape = shape-put v.tree a (shape-leaf c d e v.tree k h i.keeps_shape ∙ sym h);
    keeps_size = let b = i.keeps_size in omega (arith, size-put v.tree a);
    changes = elim (i.changes) [
      | inl same ↦ inl (
          ap (λ m. record { tree = put p m.tree w.tree; count = m.count }) same
          ∙ ap (λ m. record w { tree = m }) (put-get a))
      | inr has ↦ inr (has_constant-put v.tree a has)
    ];
    keeps_value = λ s.
        value-put t settled v.tree a
        ∙ ap (λ m. op c m (value t (put p (neutral c) w.tree))) (i.keeps_value s)
        ∙ sym (value-At t settled a);
  }
