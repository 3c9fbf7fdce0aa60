-- ===== src/Serializer/Outcomes.antt =====
-- Statements about a call that may throw.
use mathlib.Core.Path.{subst}
use http_proto.Base.{◌≡◌}
use http_proto.Workspace.{Outcome, returns, throws}
use http_proto.Serializer.State.{then_}

-- What holds of the result, when there is one.
abbrev pub Each {κ} : {A : Type 0} → (A → Type κ) → Outcome A → Type κ
Each P (throws t) = Unit
Each P (returns a) = P a

pub Each-then {κ λ'} :
    {A B : Type 0} (P : A → Type κ) (Q : B → Type λ') (r : Outcome A) (f : A → Outcome B)
    → Each P r
    → ((a : A) → P a → Each Q (f a))
    → Each Q (then_ r f)
unfolding then_
Each-then P Q (throws t) f p q = tt
Each-then P Q (returns a) f p q = q a p

pub Each-weaken {κ λ'} :
    {A : Type 0} (P : A → Type κ) (Q : A → Type λ') (r : Outcome A)
    → ((a : A) → P a → Q a)
    → Each P r
    → Each Q r
Each-weaken P Q (throws t) f p = tt
Each-weaken P Q (returns a) f p = f a p

abbrev pub Always : {A : Type 0} → A → Type 0
Always a = Unit

pub Each-any : {A : Type 0} (r : Outcome A) → Each Always r
Each-any (throws t) = tt
Each-any (returns a) = tt

pub Each-returns {κ} :
    {A : Type 0} (P : A → Type κ) (r : Outcome A) (a : A) → Each P r → r ≡ returns a → P a
Each-returns P r a p e = subst (Each P) e p
