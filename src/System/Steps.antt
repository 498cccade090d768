-- ===== src/System/Steps.antt =====
-- One step of a `do` block whose first call is known.
use neschan.Base.{◌≡◌, some, none}
use neschan.System.State.{System, M, ◌>>=◌, ◌>>◌}

pub >>=-some :
    {A B : Type 0} (m : M A) (f : A → M B) {s s' : System} {a : A}
    → m s ≡ some (a, s')
    → (m >>= f) s ≡ f a s'
unfolding ◌>>=◌
>>=-some m f e = rw (e, ◌>>=◌)

pub >>-some :
    {B : Type 0} (m : M (Unit {0})) (k : M B) {s s' : System}
    → m s ≡ some (tt, s')
    → (m >> k) s ≡ k s'
unfolding ◌>>=◌
>>-some m k e = rw (e, ◌>>=◌)

pub >>=-none : {A B : Type 0} (m : M A) (f : A → M B) {s : System} → m s ≡ none → (m >>= f) s ≡ none
unfolding ◌>>=◌
>>=-none m f e = rw (e, ◌>>=◌)
