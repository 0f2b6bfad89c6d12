-- ===== src/Expr/Dups/First.antt =====
-- build-tools/kconfig/expr.c: `expr_eliminate_dups1` ends and keeps the value of the tree.
use mkrootfs.Base.{
  ℕ, zero, suc, ◌+◌, ◌≤◌, ◌≡◌, ◌⊎◌, refl, sym, ap, ◌∙◌, subst, arith, true, false, inl, inr,
  Bool-cases, List, [], Option, none, some, ◌>>=◌, Returns, returned, Returns-bind, Returns-map,
}
use mkrootfs.Expr.{e_or, e_and, Expr, size, size_pos}
use mkrootfs.Symbol.{Table}
use mkrootfs.Expr.Value.{value, IsSettled}
use mkrootfs.Expr.YesNo.{has_constant}
use mkrootfs.Expr.Eq.{Connective, conj, disj, connective, neutral}
use mkrootfs.Expr.Eq.Removes.{op}
use mkrootfs.Expr.Dups.{enough, Side, same_path, put, Walk, write_joined, join_at, inside_at, dups1}
use mkrootfs.Expr.Dups.Paths.{
  Shape, leaf, node, shape, nodes, nodes-shape, At, here, there, get-At, shape-put, size-put,
  At-move, has_constant-neutral,
}
use mkrootfs.Expr.Dups.Apart.{At-Apart, get-Apart, put_comm}
use mkrootfs.Expr.Dups.Keeps.{Keeps, Keeps-refl, Keeps-trans, value-join}
use mkrootfs.Expr.Dups.Steps.{
  Inner, get-Ends, size-operand, Ends, Ends-Keeps, operands-node, operands-leaf, on_first-Keeps,
  inside_at-Keeps,
}
use mkrootfs.Expr.Dups.Joined.{join-Joined}

pub shape-connective :
    (c : Connective) (e : Expr) → connective e ≡ some c → (m n : Shape) × (shape c e ≡ node m n)
unfolding shape
shape-connective conj (e_and l r) h = (shape conj l, shape conj r, refl)
shape-connective disj (e_or l r) h = (shape disj l, shape disj r, refl)
shape-connective _ _ h = cc

pub shape-neutral : (c d : Connective) → shape c (neutral d) ≡ leaf
unfolding shape
shape-neutral conj conj = refl
shape-neutral conj disj = refl
shape-neutral disj conj = refl
shape-neutral disj disj = refl

shape-small : (c : Connective) (e : Expr) → connective e ≡ none → shape c e ≡ leaf
unfolding shape
shape-small conj (e_and l r) h = cc
shape-small disj (e_or l r) h = cc
shape-small _ _ h = refl

pub root-ne :
    {A : Type 0} {c : Connective} {e u : Expr} {p : List Side} {m n : Shape}
    → At c e p u
    → p ≡ []
    → shape c e ≡ leaf
    → shape c u ≡ node m n
    → A
root-ne here e he hu = cc
root-ne (there y a) e he hu = cc

pub size-neutral : (c : Connective) → size (neutral c) ≡ 1
unfolding size
size-neutral conj = refl
size-neutral disj = refl

module _ (t : Table) (settled : IsSettled t) where
  write_joined-Keeps :
      (c : Connective) (w : Walk) (p q : List Side) (e f : Expr) (o : Option Expr) {m n : Shape}
      → At c e p w.tree
      → At c f q w.tree
      → shape c e ≡ leaf
      → shape c f ≡ leaf
      → shape c w.tree ≡ node m n
      → same_path p q ≡ false
      → ((r : Expr)
          → o ≡ some r
          → ((r ≡ e) ⊎ ((connective r ≡ none) × (size r ≡ 1)))
            × (value t r ≡ op c (value t e) (value t f)))
      → Keeps true t c w (write_joined c w p q o)
  write_joined-Keeps c w p q e f none a b he hf hw d j = Keeps-refl w
  write_joined-Keeps c w p q e f (some r) a b he hf hw d j =
      let (kind, same_value) = j r refl in
      let apart = At-Apart a b he hf d in
      let b1 = get-Apart (neutral c) apart in
      let leaf_r : shape c r ≡ leaf = elim kind [
        | inl s ↦ ap (shape c) s ∙ he
        | inr (k, z) ↦ shape-small c r k
      ] in
      let size_r : size r ≤ size e = elim kind [
        | inl s ↦ subst (λ x. size x ≤ size e) (sym s) (omega arith)
        | inr (k, z) ↦ omega (arith, size_pos e)
      ] in
      let u = At-move (put q r w.tree) a (shape-put r b (leaf_r ∙ sym hf)) in
      record {
        keeps_shape =
            shape-put r b1 (leaf_r ∙ sym hf) ∙ shape-put (neutral c) a (shape-neutral c c ∙ sym he);
        keeps_size =
            omega (arith, size-put r b1, size-put (neutral c) a, size-neutral c, size_pos f);
        changes = elim (has_constant-neutral c (u.1)) [
          | inl z ↦ root-ne a z he hw
          | inr z ↦ inr (ap has_constant (put_comm (neutral c) r apart) ∙ z)
        ];
        keeps_value = λ s. value-join t settled r a apart same_value;
      }

  join_at-Keeps :
      (c : Connective) (w : Walk) (p q : List Side) {m n : Shape}
      → Ends c w p leaf
      → Ends c w q leaf
      → shape c w.tree ≡ node m n
      → same_path p q ≡ false
      → Returns (Keeps true t c w) (join_at c t w p q)
  unfolding join_at
  join_at-Keeps c w p q (e, a, he) (f, b, hf) hw d =
      rw (get-At a, get-At b)
        (Returns-bind (join-Joined t settled c e f)
          (λ o j. returned (write_joined-Keeps c w p q e f o a b he hf hw d j)))

  leaves-Keeps :
      (c : Connective) (again : Connective → Walk → Option Walk) (w : Walk) (p q : List Side)
      (e : Expr) (n : ℕ) {m k : Shape}
      → At c e p w.tree
      → shape c e ≡ leaf
      → Ends c w q leaf
      → shape c w.tree ≡ node m k
      → same_path p q ≡ false
      → size w.tree ≤ suc n
      → Inner true t n again
      → Returns (Keeps true t c w) (inside_at again w p e >>= λ v. join_at c t v p q)
  leaves-Keeps c again w p q e n a h ends hw d z inner =
      Returns-bind
        (inside_at-Keeps settled again w p e a h
          (λ g k. inner g (record w { tree = e }) k (omega (arith, size-operand a h hw))))
        (λ v k.
          Returns-map
            (join_at-Keeps c v p q (Ends-Keeps k (e, a, h)) (Ends-Keeps k ends) (k.keeps_shape ∙ hw)
              d)
            (λ u l. Keeps-trans k l))

module _ (t : Table) (settled : IsSettled t) where
  dups1-Keeps :
      (fuel n : ℕ) (c : Connective) (w : Walk) (p q : List Side) (s r : Shape) {m k : Shape}
      → Ends c w p s
      → Ends c w q r
      → shape c w.tree ≡ node m k
      → size w.tree ≤ suc n
      → nodes s + nodes r + 1 + enough n ≤ fuel
      → ((g : ℕ) → enough n ≤ g → Inner true t n (λ d v. dups1 g t d v [] []))
      → Returns (Keeps true t c w) (dups1 fuel t c w p q)
  unfolding dups1
  dups1-Keeps zero n c w p q s r ep eq hw z f inner = ground arith
  dups1-Keeps (suc fuel) n c w p q (node a b) r ep eq hw z f inner =
      Returns-bind (get-Ends c w p (node a b) ep) (λ e1 h1.
        Returns-bind (get-Ends c w q r eq) (λ e2 h2.
          let (x, y, o, te, hx, hy) = operands-node c e1 (h1.1) in
          rw (o) (
            on_first-Keeps (λ v u. dups1 fuel t c v u q) w p ep
              (λ v u s k eu l.
                dups1-Keeps fuel n c v u q s r eu (Ends-Keeps k eq) (k.keeps_shape ∙ hw)
                  (let g = k.keeps_size in omega arith) (omega arith) inner))))
  dups1-Keeps (suc fuel) n c w p q leaf (node a b) ep eq hw z f inner =
      Returns-bind (get-Ends c w p leaf ep) (λ e1 h1.
        Returns-bind (get-Ends c w q (node a b) eq) (λ e2 h2.
          let (x, y, o, te, hx, hy) = operands-node c e2 (h2.1) in
          rw (operands-leaf c e1 (h1.1), o)
            (on_first-Keeps (λ v u. dups1 fuel t c v p u) w q eq
              (λ v u r k eu l.
                dups1-Keeps fuel n c v p u leaf r (Ends-Keeps k ep) eu (k.keeps_shape ∙ hw)
                  (let g = k.keeps_size in omega arith) (omega arith) inner))))
  dups1-Keeps (suc fuel) n c w p q leaf leaf ep eq hw z f inner =
      Returns-bind (get-Ends c w p leaf ep) (λ e1 h1.
        Returns-bind (get-Ends c w q leaf eq) (λ e2 h2. elim (Bool-cases (same_path p q)) [
          | inl d ↦
              rw (operands-leaf c e1 (h1.1), operands-leaf c e2 (h2.1), d) (returned (Keeps-refl w))
          | inr d ↦
              rw (operands-leaf c e1 (h1.1), operands-leaf c e2 (h2.1), d)
                (leaves-Keeps t settled c (λ d v. dups1 fuel t d v [] []) w p q e1 n (h1.0) (h1.1)
                  eq hw d z (inner fuel (omega arith)))
        ]))

  -- With enough fuel the first pass over a conjunction or disjunction ends.
  pub dups1_root-Keeps :
      (n fuel : ℕ) (c : Connective) (w : Walk)
      → connective w.tree ≡ some c
      → size w.tree ≤ n
      → enough n ≤ fuel
      → Returns (Keeps true t c w) (dups1 fuel t c w [] [])
  unfolding enough
  dups1_root-Keeps zero fuel c w k z f = ground (arith, size_pos w.tree)
  dups1_root-Keeps (suc n) fuel c w k z f =
      let (a, b, h) = shape-connective c w.tree k in
      let root : Ends c w [] (shape c w.tree) = (w.tree, here, refl) in
      let bound = nodes-shape c w.tree in
      dups1-Keeps fuel n c w [] [] (shape c w.tree) (shape c w.tree) root root h z (omega arith)
        (λ g l d v kv zv. dups1_root-Keeps n g d v kv zv l)
