-- ===== src/Expr/Dups/Second.antt =====
-- build-tools/kconfig/expr.c: `expr_eliminate_dups2` ends.
use mkrootfs.Base.{
  ℕ, zero, suc, ◌+◌, ◌≤◌, ◌≡◌, refl, sym, ◌∙◌, arith, false, inl, inr, Bool-cases, List, [], Option,
  some, Option-cases, Returns, returned, Returns-bind, Returns-map,
}
use mkrootfs.Expr.{Expr, e_not, size, size_pos, expr_copy}
use mkrootfs.Symbol.{Table}
use mkrootfs.Expr.Value.{IsSettled}
use mkrootfs.Expr.Transform.Sound.{expr_transform-Transforms}
use mkrootfs.Expr.Extract.Sound.{expr_extract_eq-Extracts}
use mkrootfs.Expr.Eq.{Connective, conj, disj, connective, neutral}
use mkrootfs.Expr.Dups.{
  enough, Side, same_path, put, Walk, dups2, after_at, contradict_at, extract_for, all_extracted,
}
use mkrootfs.Expr.Dups.Paths.{
  Shape, leaf, node, shape, nodes, nodes-shape, At, here, shape-put, size-put, has_constant-neutral,
}
use mkrootfs.Expr.Dups.Keeps.{Keeps, Keeps-refl, Keeps-trans}
use mkrootfs.Expr.Dups.Steps.{
  Ends, Ends-Keeps, get-Ends, size-operand, operands-node, operands-leaf, on_first-Keeps,
  inside_at-Keeps, Inner,
}
use mkrootfs.Expr.Dups.First.{shape-neutral, size-neutral, root-ne, shape-connective}

module _ (t : Table) (settled : IsSettled t) where
  -- A constant in place of an operand.
  constant-Keeps :
      (c d : Connective) (w : Walk) (p : List Side) (e : Expr) (k : ℕ) {m n : Shape}
      → At c e p w.tree
      → shape c e ≡ leaf
      → shape c w.tree ≡ node m n
      → Keeps false t c w (record { tree = put p (neutral d) w.tree; count = k })
  constant-Keeps c d w p e k a he hw = record {
    keeps_shape = shape-put (neutral d) a (shape-neutral c d ∙ sym he);
    keeps_size = omega (arith, size-put (neutral d) a, size-neutral d, size_pos e);
    changes = elim (has_constant-neutral d a) [ inl z ↦ root-ne a z he hw | inr z ↦ inr z ];
    keeps_value = λ s. cc;
  }

  extract_for-Returns :
      (d : Connective) (e1 e2 : Expr) → Returns {0, 0} (λ q. Unit) (extract_for d e1 e2)
  extract_for-Returns disj e1 e2 =
      Returns-map ((expr_extract_eq-Extracts t settled e1 e2).0) (λ q h. tt)
  extract_for-Returns conj e1 e2 =
      Returns-map ((expr_extract_eq-Extracts t settled e1 e2).1) (λ q h. tt)

  contradict_at-Keeps :
      (c d : Connective) (w : Walk) (p q : List Side) (r : Shape) {m n : Shape}
      → Ends c w p leaf
      → Ends c w q r
      → shape c w.tree ≡ node m n
      → Returns (Keeps false t c w) (contradict_at d t w p q)
  unfolding contradict_at
  contradict_at-Keeps c d w p q r ep eq hw = Returns-bind (get-Ends c w p leaf ep) (λ e1 h1.
      Returns-bind (get-Ends c w q r eq) (λ e2 h2.
        Returns-bind (expr_transform-Transforms t settled (e_not (expr_copy e1))) (λ tmp1 h.
          Returns-bind (extract_for-Returns d tmp1 (expr_copy e2)) (λ x u.
            returned (elim (Bool-cases (all_extracted d x.left)) [
              | inl b ↦ rw (b) (constant-Keeps c d w p e1 (suc w.count) (h1.0) (h1.1) hw)
              | inr b ↦ rw (b) (Keeps-refl w)
            ])))))

  after_at-Keeps :
      (again : Connective → Walk → Option Walk) (n : ℕ) (c : Connective) (w : Walk)
      (p q : List Side) (r : Shape) {m k : Shape}
      → Ends c w p leaf
      → Ends c w q r
      → shape c w.tree ≡ node m k
      → size w.tree ≤ suc n
      → Inner false t n again
      → Returns (Keeps false t c w) (after_at again t w p q)
  unfolding after_at
  after_at-Keeps again n c w p q r ep eq hw z inner = elim (Bool-cases (same_path p q)) [
    | inl s ↦ rw (s, after_at) (returned (Keeps-refl w))
    | inr s ↦
        rw (s, after_at)
          (Returns-bind (get-Ends c w p leaf ep) (λ e h. elim (Option-cases (connective e)) [
            | inl u ↦ rw (u) (returned (Keeps-refl w))
            | inr (d, u) ↦ rw (u) (
                Returns-bind
                  (inside_at-Keeps settled again w p e (h.0) (h.1) (λ g v.
                    inner g (record w { tree = e }) v (omega (arith, size-operand (h.0) (h.1) hw))))
                  (λ v k.
                    Returns-map
                      (contradict_at-Keeps c d v p q r (Ends-Keeps k ep) (Ends-Keeps k eq)
                        (k.keeps_shape ∙ hw))
                      (λ x l. Keeps-trans k l)))
          ]))
  ]

  dups2-Keeps :
      (fuel n : ℕ) (c : Connective) (w : Walk) (p q : List Side) (s r : Shape) {m k : Shape}
      → Ends c w p s
      → Ends c w q r
      → shape c w.tree ≡ node m k
      → size w.tree ≤ suc n
      → nodes s + nodes r + 1 + enough n ≤ fuel
      → ((g : ℕ) → enough n ≤ g → Inner false t n (λ d v. dups2 g t d v [] []))
      → Returns (Keeps false t c w) (dups2 fuel t c w p q)
  unfolding dups2
  dups2-Keeps zero n c w p q s r ep eq hw z f inner = ground arith
  dups2-Keeps (suc fuel) n c w p q (node a b) r ep eq hw z f inner =
      Returns-bind (get-Ends c w p (node a b) ep) (λ e1 h1.
        Returns-bind (get-Ends c w q r eq) (λ e2 h2.
          let (x, y, o, te, hx, hy) = operands-node c e1 (h1.1) in
          rw (o) (
            on_first-Keeps (λ v u. dups2 fuel t c v u q) w p ep
              (λ v u s k eu l.
                dups2-Keeps fuel n c v u q s r eu (Ends-Keeps k eq) (k.keeps_shape ∙ hw)
                  (let g = k.keeps_size in omega arith) (omega arith) inner))))
  dups2-Keeps (suc fuel) n c w p q leaf (node a b) ep eq hw z f inner =
      Returns-bind (get-Ends c w p leaf ep) (λ e1 h1.
        Returns-bind (get-Ends c w q (node a b) eq) (λ e2 h2.
          let (x, y, o, te, hx, hy) = operands-node c e2 (h2.1) in
          rw (operands-leaf c e1 (h1.1), o)
            (Returns-bind
              (on_first-Keeps (λ v u. dups2 fuel t c v p u) w q eq
                (λ v u r k eu l.
                  dups2-Keeps fuel n c v p u leaf r (Ends-Keeps k ep) eu (k.keeps_shape ∙ hw)
                    (let g = k.keeps_size in omega arith) (omega arith) inner))
              (λ v k.
                Returns-map
                  (after_at-Keeps (λ d u. dups2 fuel t d u [] []) n c v p q (node a b)
                    (Ends-Keeps k ep) (Ends-Keeps k eq) (k.keeps_shape ∙ hw)
                    (let g = k.keeps_size in omega arith) (inner fuel (omega arith)))
                  (λ x l. Keeps-trans k l)))))
  dups2-Keeps (suc fuel) n c w p q leaf leaf ep eq hw z f inner =
      Returns-bind (get-Ends c w p leaf ep) (λ e1 h1.
        Returns-bind (get-Ends c w q leaf eq) (λ e2 h2.
          rw (operands-leaf c e1 (h1.1), operands-leaf c e2 (h2.1))
            (after_at-Keeps (λ d u. dups2 fuel t d u [] []) n c w p q leaf ep eq hw z
              (inner fuel (omega arith)))))

  -- With enough fuel the second pass over a conjunction or disjunction ends.
  pub dups2_root-Keeps :
      (n fuel : ℕ) (c : Connective) (w : Walk)
      → connective w.tree ≡ some c
      → size w.tree ≤ n
      → enough n ≤ fuel
      → Returns (Keeps false t c w) (dups2 fuel t c w [] [])
  unfolding enough
  dups2_root-Keeps zero fuel c w k z f = ground (arith, size_pos w.tree)
  dups2_root-Keeps (suc n) fuel c w k z f =
      let (a, b, h) = shape-connective c w.tree k in
      let root : Ends c w [] (shape c w.tree) = (w.tree, here, refl) in
      let bound = nodes-shape c w.tree in
      dups2-Keeps fuel n c w [] [] (shape c w.tree) (shape c w.tree) root root h z (omega arith)
        (λ g l d v kv zv. dups2_root-Keeps n g d v kv zv l)
