-- ===== src/Tristate/Laws.antt =====
-- The three values as a lattice with an order-reversing complement.
use mkrootfs.Base.{◌≡◌, refl, arith}
use mkrootfs.Tristate.{Tristate, tri_no, expr_or, expr_and, expr_not}

pub or_assoc : (a b c : Tristate) → expr_or (expr_or a b) c ≡ expr_or a (expr_or b c)
or_assoc tri_no tri_no tri_no = refl
or_assoc _ _ _ = ground arith

pub or_comm : (a b : Tristate) → expr_or a b ≡ expr_or b a
or_comm a b = ground arith

pub and_assoc : (a b c : Tristate) → expr_and (expr_and a b) c ≡ expr_and a (expr_and b c)
and_assoc tri_no tri_no tri_no = refl
and_assoc _ _ _ = ground arith

pub and_comm : (a b : Tristate) → expr_and a b ≡ expr_and b a
and_comm a b = ground arith

pub or_idem : (a : Tristate) → expr_or a a ≡ a
or_idem a = ground arith

pub and_idem : (a : Tristate) → expr_and a a ≡ a
and_idem a = ground arith

pub not-not : (a : Tristate) → expr_not (expr_not a) ≡ a
not-not a = ground arith

pub not-or : (a b : Tristate) → expr_not (expr_or a b) ≡ expr_and (expr_not a) (expr_not b)
not-or tri_no b = ground arith
not-or _ b = ground arith

pub not-and : (a b : Tristate) → expr_not (expr_and a b) ≡ expr_or (expr_not a) (expr_not b)
not-and tri_no b = ground arith
not-and _ b = ground arith
