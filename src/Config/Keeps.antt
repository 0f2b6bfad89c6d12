-- ===== src/Config/Keeps.antt =====
-- Total correctness of a step of the calculation: from a state with the invariant it returns a
-- value as wanted and a state with the invariant. One rule for each way to build a step.
use mkrootfs.Base.{Bool, true, false, Option, none, some, Returns, returned}
use mkrootfs.Config.{State, M, ◌>>=◌, return, gets, modify}

pub record Holds (Inv : State → Type 0) {A : Type 0} (P : A → Type 0) (r : A × State) : Type 0 where
  pub value_lem : P r.0
  pub state_lem : Inv r.1

abbrev pub Gives :
    (State → Type 0) → {A : Type 0} → (A → Type 0) → (State → Option (A × State)) → Type 0
Gives Inv P m = (st : State) → Inv st → Returns (Holds Inv P) (m st)

-- Any value will do.
abbrev pub Keeps : (State → Type 0) → {A : Type 0} → (State → Option (A × State)) → Type 0
Keeps Inv m = Gives Inv (λ _. Unit {0}) m

module _ (Inv : State → Type 0) where
  pub Gives-bind :
      {A B : Type 0} (P : A → Type 0) (Q : B → Type 0) (m : M A) (f : A → M B)
      → Gives Inv P m
      → ((a : A) → P a → Gives Inv Q (f a))
      → Gives Inv Q (m >>= f)
  Gives-bind {A} {B} P Q m f hm hf st h = go (m st) (hm st h)
    where
      go :
          (o : Option (A × State))
          → Returns (Holds Inv P) o
          → Returns (Holds Inv Q) (elim o [ none ↦ none | some (a, st') ↦ f a st' ])
      go _ (returned {a = (a, st')} k) = hf a k.value_lem st' k.state_lem

  pub Keeps-bind :
      {A B : Type 0} (m : M A) (f : A → M B)
      → Keeps Inv m
      → ((a : A) → Keeps Inv (f a))
      → Keeps Inv (m >>= f)
  Keeps-bind m f hm hf = Gives-bind (λ _. Unit) (λ _. Unit) m f hm (λ a _. hf a)

  pub Gives-return : {A : Type 0} (P : A → Type 0) (a : A) → P a → Gives Inv P (return a)
  Gives-return P a h st k = returned (record { value_lem = h; state_lem = k })

  pub Keeps-return : {A : Type 0} (a : A) → Keeps Inv (return a)
  Keeps-return a = Gives-return (λ _. Unit) a tt

  pub Gives-gets :
      {A : Type 0} (P : A → Type 0) (f : State → A)
      → ((st : State) → P (f st))
      → Gives Inv P (gets f)
  Gives-gets P f h st k = returned (record { value_lem = h st; state_lem = k })

  pub Keeps-gets : {A : Type 0} (f : State → A) → Keeps Inv (gets f)
  Keeps-gets f = Gives-gets (λ _. Unit) f (λ _. tt)

  pub Keeps-modify :
      (f : State → State) → ((st : State) → Inv st → Inv (f st)) → Keeps Inv (modify f)
  Keeps-modify f h st k = returned (record { value_lem = tt; state_lem = h st k })

  pub Gives-elim :
      {A : Type 0} (P : A → Type 0) (b : Bool) (m k : M A)
      → Gives Inv P m
      → Gives Inv P k
      → Gives Inv P (elim b [ true ↦ m | false ↦ k ])
  Gives-elim P true m k hm hk = hm
  Gives-elim P false m k hm hk = hk

  pub Keeps-elim :
      {A : Type 0} (b : Bool) (m k : M A)
      → Keeps Inv m
      → Keeps Inv k
      → Keeps Inv (elim b [ true ↦ m | false ↦ k ])
  Keeps-elim b m k hm hk = Gives-elim (λ _. Unit) b m k hm hk
