-- ===== src/Depcheck/Search.antt =====
-- build-tools/kconfig/symbol.c: the search of `sym_check_deps` where no symbol belongs to a choice.
use mkrootfs.Base.{
  ◌>>=◌, ==_iff, ℕ, zero, suc, ◌≤◌, ◌<◌, ◌≡◌, refl, sym, ap, ◌∙◌, subst, arith, inl, inr, Bool,
  true, false, ◌==◌, if◌then◌else◌, Option, none, some, List, [], ◌∷◌, AllBelow, Returns, returned,
  Returns-map, Bool-cases,
}
use mkrootfs.Config.{Decls}
use mkrootfs.Calc.Total.{IsClosed}
use mkrootfs.Depcheck.{
  Marks, Found, Check, or_else, mark, unmark, sym_check_sym_deps, check_as, close, check_by,
  check_fuel,
}
use mkrootfs.Depcheck.Lists.{deps, check_list, sym_check_sym_deps-list, deps-AllBelow}
use mkrootfs.Depcheck.Orders.{
  sorted_cons, Orders, Extends, Searched, unchecked, StaysChecked, unchecked-le, unchecked-lt,
}

-- One search behind another.
Searched-then :
    (d : Decls) (s : ℕ) (ts : List ℕ) (m m1 : Marks) (r : Option ℕ × Marks)
    → Searched d (s ∷ []) m (none, m1)
    → Searched d ts m1 r
    → Searched d (s ∷ ts) m r
Searched-then d s ts m m1 r h k = record {
  same_check = λ t. k.same_check t ∙ h.same_check t;
  stays_checked = λ t c. k.stays_checked t (h.stays_checked t c);
  more_errors = omega (arith, h.more_errors, k.more_errors);
  clean = λ l o e n.
      let first = h.clean l o refl (omega (arith, h.more_errors, k.more_errors, n)) in
      let second =
        k.clean first.order first.orders e (omega (arith, h.more_errors, k.more_errors, n)) in
      record {
        order = second.order;
        orders = second.orders;
        within = λ t i. second.within t (first.within t i);
        all_in = (second.within s first.all_in.0, second.all_in);
      };
}

-- A search that found a circle.
Searched-stop :
    (d : Decls) (s x : ℕ) (ts : List ℕ) (m m1 : Marks)
    → Searched d (s ∷ []) m (some x, m1)
    → Searched d (s ∷ ts) m (some x, m1)
Searched-stop d s x ts m m1 h = record {
  same_check = h.same_check;
  stays_checked = h.stays_checked;
  more_errors = h.more_errors;
  clean = λ l o e n. cc;
}

mark-checked : (s t : ℕ) (m : Marks) → m.checked t ≡ true → (mark s m).checked t ≡ true
mark-checked s t m h = ground arith

-- Marking a symbol and taking the mark back leaves the flags as they were.
unmark-check :
    (s : ℕ) (m m1 : Marks)
    → m.check s ≡ false
    → ((t : ℕ) → m1.check t ≡ (mark s m).check t)
    → (t : ℕ) → (unmark s m1).check t ≡ m.check t
unmark-check s m m1 c h t = elim (Bool-cases (t == s)) [
  | inl e ↦ rw e (sym (ap m.check ((==_iff t s).0 e) ∙ c))
  | inr e ↦ rw e (h t ∙ rw e refl)
]

Orders-mark : (d : Decls) (s : ℕ) (l : List ℕ) (m : Marks) → Orders d l m → Orders d l (mark s m)
Orders-mark d s l m o = record {
  sorted = o.sorted;
  done = λ t k c. elim (Bool-cases (t == s)) [
    | inl e ↦ absurd (cc (mark-check_at t e, c))
    | inr e ↦ o.done t (ground (arith, k, e)) (ground (arith, c, e))
  ];
}
  where
    mark-check_at : (t : ℕ) → (t == s) ≡ true → (mark s m).check t ≡ true
    mark-check_at t e = rw e refl

-- A symbol whose dependencies are done comes in front of them.
Extends-own :
    (d : Decls) (s : ℕ) (l : List ℕ) (m m1 : Marks)
    → Orders d l m
    → Extends d l (deps d s) m1
    → Extends d l (s ∷ []) (unmark s m1)
Extends-own d s l m m1 o x = record {
  order = s ∷ x.order;
  orders = record {
    sorted = sorted_cons x.all_in x.orders.sorted;
    done = λ t k c. elim (Bool-cases (t == s)) [
      | inl e ↦ inl ((==_iff t s).0 e)
      | inr e ↦ inr (x.orders.done t k (ground (arith, c, e)))
    ];
  };
  within = λ t i. inr (x.within t i);
  all_in = (inl refl, tt);
}

-- Back from the dependencies of a symbol that was marked.
close-Searched :
    (d : Decls) (s : ℕ) (m : Marks) (o : Option ℕ) (m1 : Marks)
    → m.check s ≡ false
    → Searched d (deps d s) (mark s m) (o, m1)
    → Searched d (s ∷ []) m (close d s (o, unmark s m1))
close-Searched d s m none m1 c h = record {
  same_check = unmark-check s m m1 c h.same_check;
  stays_checked = λ t k. h.stays_checked t (mark-checked s t m k);
  more_errors = h.more_errors;
  clean = λ l o e q. Extends-own d s l m m1 o (h.clean l (Orders-mark d s l m o) e q);
}
close-Searched d s m (some x) m1 c h = by_test (x == s)
  where
    by_test :
        (b : Bool)
        → Searched d (s ∷ []) m (
            if b
            then (none, record (unmark s m1) { nerrs = suc m1.nerrs })
            else (some x, unmark s m1))
    by_test true = record {
      same_check = unmark-check s m m1 c h.same_check;
      stays_checked = λ t k. h.stays_checked t (mark-checked s t m k);
      more_errors = omega (arith, h.more_errors);
      clean = λ l o e q. absurd (omega (arith, h.more_errors, q));
    }
    by_test false = record {
      same_check = unmark-check s m m1 c h.same_check;
      stays_checked = λ t k. h.stays_checked t (mark-checked s t m k);
      more_errors = h.more_errors;
      clean = λ l o e q. cc;
    }

module _ (d : Decls) (again : Check) (n : ℕ)
    (ok : (s : ℕ)
      → s < d.bound
      → (m : Marks) → unchecked d.bound m ≤ n
      → Returns (Searched d (s ∷ []) m) (again s m)) where
  -- The rest of a list behind the search of its first symbol.
  then-Searched :
      (s : ℕ) (ts : List ℕ) (m : Marks) (r : Found)
      → Returns (Searched d (s ∷ []) m) r
      → ((m1 : Marks) → StaysChecked m m1 → Returns (Searched d ts m1) (check_list again ts m1))
      → Returns (Searched d (s ∷ ts) m) (or_else r (check_list again ts))
  then-Searched s ts m _ (returned {a = (none, m1)} k) rest =
      Returns-map (rest m1 k.stays_checked) λ q h. Searched-then d s ts m m1 q k h
  then-Searched s ts m _ (returned {a = (some x, m1)} k) rest =
      returned (Searched-stop d s x ts m m1 k)

  check_list-Searched :
      (ts : List ℕ)
      → AllBelow d.bound ts
      → (m : Marks) → unchecked d.bound m ≤ n
      → Returns (Searched d ts m) (check_list again ts m)
  unfolding check_list
  check_list-Searched [] h m lt = returned (record {
    same_check = λ t. refl;
    stays_checked = λ t c. c;
    more_errors = omega arith;
    clean = λ l o e q. record { order = l; orders = o; within = λ t i. i; all_in = tt };
  })
  check_list-Searched (s ∷ ts) h m lt =
      then-Searched s ts m (again s m) (ok s h.0 m lt) λ m1 stays.
        check_list-Searched ts h.1 m1 (omega (arith, lt, unchecked-le d.bound m m1 stays))

-- No symbol is a choice or belongs to one.
pub record NoChoices (d : Decls) : Type 0 where
  pub no_choiceval : (s : ℕ) → (d.decl_of s).choiceval ≡ false
  pub no_choice : (s : ℕ) → (d.decl_of s).choice ≡ false

module _ (d : Decls) (closed : IsClosed d) (plain : NoChoices d) where
  -- One call, given that the calls for the dependencies search them.
  check_by-Searched :
      (again : Check) (s : ℕ) (m : Marks) (c k : Bool)
      → m.check s ≡ c
      → m.checked s ≡ k
      → (m.checked s ≡ false
          → Returns (Searched d (deps d s) (mark s m)) (check_list again (deps d s) (mark s m)))
      → Returns (Searched d (s ∷ []) m) (check_by d c k again s m)
  check_by-Searched again s m true k e q ok = returned (record {
    same_check = λ t. refl;
    stays_checked = λ t x. x;
    more_errors = omega arith;
    clean = λ l o e n. cc;
  })
  check_by-Searched again s m false true e q ok = returned (record {
    same_check = λ t. refl;
    stays_checked = λ t x. x;
    more_errors = omega arith;
    clean =
        λ l o _ _. record { order = l; orders = o; within = λ t i. i; all_in = (o.done s q e, tt) };
  })
  check_by-Searched again s m false false e q ok =
      subst
        (λ b.
          Returns (Searched d (s ∷ []) m)
            (check_as d b (d.decl_of s).choice again s m >>= λ r. some (close d s r)))
        (sym (plain.no_choiceval s))
        (subst
          (λ b.
            Returns (Searched d (s ∷ []) m)
              (check_as d false b again s m >>= λ r. some (close d s r)))
          (sym (plain.no_choice s))
          (own (sym_check_sym_deps d again s (mark s m)) (
            subst (Returns (Searched d (deps d s) (mark s m)))
              (sym (sym_check_sym_deps-list again d s (mark s m))) (ok q))))
    where
      own :
          (r : Found)
          → Returns (Searched d (deps d s) (mark s m)) r
          → Returns
              (Searched d (s ∷ []) m)
              (r >>= (λ r. some (r.0, unmark s r.1)) >>= λ r. some (close d s r))
      own _ (returned {a = (o, m1)} h) = returned (close-Searched d s m o m1 e h)

  pub check_fuel-Searched :
      (f n : ℕ)
      → n < f
      → (s : ℕ) → s < d.bound
      → (m : Marks) → unchecked d.bound m ≤ n
      → Returns (Searched d (s ∷ []) m) (check_fuel d f s m)
  unfolding check_fuel
  check_fuel-Searched zero n lt s b m h = absurd (omega arith)
  check_fuel-Searched (suc f) n lt s b m h =
      check_by-Searched (check_fuel d f) s m (m.check s) (m.checked s) refl refl λ fresh.
        let fewer =
          unchecked-lt d.bound s m (mark s m) (λ t x. mark-checked s t m x) b fresh (marked s) in
        check_list-Searched d (check_fuel d f) (unchecked d.bound (mark s m))
          (λ x bx m1 le.
            check_fuel-Searched f (unchecked d.bound m1) (omega (arith, le, fewer, h, lt)) x bx m1
              (omega arith))
          (deps d s) (deps-AllBelow d s closed) (mark s m) (omega arith)
    where
      marked : (s : ℕ) → (mark s m).checked s ≡ true
      marked s = ground arith
