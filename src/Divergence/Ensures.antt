-- ===== src/Divergence/Ensures.antt =====
-- What holds of the result of a chain of steps, and of the state after it, where no assertion fails.
use clsmith.Prelude.{◌≡◌, refl, ap, Bool, true, false, Option, none, some, if◌then◌else◌, arith}
use mathlib.Core.Option.{some-injective}
use clsmith.Divergence.{State, M, ◌>>=◌}

unfoldable pub Ensures : {A : Type 0} → M A → State → (A → State → Type 0) → Type 0
Ensures {A} m st P = (a : A) (st' : State) → m st ≡ some (a, st') → P a st'

pub Ensures-bind :
    {A B : Type 0} (m : M A) (f : A → M B) (st : State) (P : A → State → Type 0)
    (Q : B → State → Type 0)
    → Ensures m st P
    → ((a : A) (st1 : State) → P a st1 → Ensures (f a) st1 Q)
    → Ensures (m >>= f) st Q
unfolding Ensures
Ensures-bind {A} {B} m f st P Q h k b st' e = parts (m st) refl e
  where
    parts :
        (o : Option (A × State))
        → m st ≡ o
        → (elim o [ none ↦ none | some (a, st1) ↦ f a st1 ]) ≡ some (b, st')
        → Q b st'
    parts none p q = absurd (ground (arith, q))
    parts (some (a, st1)) p q = k a st1 (h a st1 p) b st' q

-- A first step that only reads.
abbrev pub Reads : {A : Type 0} → M A → State → (A → Type 0) → Type 0
Reads m st P = Ensures m st (λ a st'. P a × (st' ≡ st))

pub Ensures-read :
    {A B : Type 0} (m : M A) (f : A → M B) (st : State) (P : A → Type 0) (Q : B → State → Type 0)
    → Reads m st P
    → ((a : A) → P a → Ensures (f a) st Q)
    → Ensures (m >>= f) st Q
Ensures-read m f st P Q h k =
    Ensures-bind m f st (λ a st'. P a × (st' ≡ st)) Q h (λ a st1 (p, e). rw e (k a p))

-- The last step of a chain.
pub Ensures-last :
    {A : Type 0} (f : State → A) (g : State → State) (st : State) (P : A → State → Type 0)
    → P (f st) (g st)
    → Ensures (λ st. some (f st, g st)) st P
unfolding Ensures
Ensures-last f g st P h a st' e =
    let q = some-injective (f st, g st) (a, st') e in rw (ap (λ r. r.0) q, ap (λ r. r.1) q) at h

pub Ensures-fail : {A : Type 0} (st : State) (P : A → State → Type 0) → Ensures (λ st. none) st P
unfolding Ensures
Ensures-fail st P a st' e = absurd (ground (arith, e))

pub Ensures-if :
    {A : Type 0} (b : Bool) (m n : M A) (st : State) (P : A → State → Type 0)
    → (b ≡ true → Ensures m st P)
    → (b ≡ false → Ensures n st P)
    → Ensures (if b then m else n) st P
Ensures-if true m n st P g h = g refl
Ensures-if false m n st P g h = h refl

pub Ensures-weaken :
    {A : Type 0} (m : M A) (st : State) (P Q : A → State → Type 0)
    → Ensures m st P
    → ((a : A) (st' : State) → P a st' → Q a st')
    → Ensures m st Q
unfolding Ensures
Ensures-weaken m st P Q h k a st' e = k a st' (h a st' e)

-- The result may be read off the step itself.
pub Ensures-keep :
    {A : Type 0} (m : M A) (st : State) (P : A → State → Type 0)
    → Ensures m st P
    → Ensures m st (λ a st'. (m st ≡ some (a, st')) × P a st')
unfolding Ensures
Ensures-keep m st P h a st' e = (e, h a st' e)
