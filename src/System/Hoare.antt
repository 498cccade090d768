-- ===== src/System/Hoare.antt =====
-- Statements about what a member function leaves when it returns, and the rule for `do` blocks.
use neschan.Base.{Option, none, some}
use neschan.System.State.{System, M, ◌>>=◌}

abbrev pub Holds : {A : Type 0} → Option (A × System) → (A → System → Type 0) → Type 0
Holds none Q = Unit
Holds (some (a, s)) Q = Q a s

pub Holds-bind :
    {A B : Type 0} (m : M A) (f : A → M B) (s : System) (Q : A → System → Type 0)
    (R : B → System → Type 0)
    → Holds (m s) Q
    → ((a : A) (t : System) → Q a t → Holds (f a t) R)
    → Holds ((m >>= f) s) R
unfolding ◌>>=◌
Holds-bind m f s Q R = go (m s)
  where
    go :
        (r : Option (_ × System))
        → Holds r Q
        → ((a : _) (t : System) → Q a t → Holds (f a t) R)
        → Holds (elim r [ none ↦ none | some (a, s') ↦ f a s' ]) R
    go none h k = tt
    go (some (a, t)) h k = k a t h
