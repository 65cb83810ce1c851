-- ===== src/Flow.antt =====
-- How a C function of the SDK ends: with a value, by a failed assertion, by undefined behaviour
-- (an access outside a buffer), or not within the rounds that a loop was given.
use thing_if_thing_sdk.Prelude.{Bool, true, false, ℤ, List, [], ◌∷◌, nonzero, if◌then◌else◌, ◌≡◌}

pub data Outcome (S A : Type 0) : Type 0 where
  done : A → S → Outcome S A
  aborted : Outcome S A
  fault : Outcome S A
  unfinished : Outcome S A

abbrev pub Run : Type 0 → Type 0 → Type 0
Run S A = S → Outcome S A

module _ {S A : Type 0} where
  abbrev pub pure : A → Run S A
  pure a s = done a s

  abbrev pub gets : (S → A) → Run S A
  gets f s = done (f s) s

-- A value is handed on; any other end is the end of the whole run.
abbrev pub continue : {S A B : Type 0} → (A → Run S B) → Outcome S A → Outcome S B
continue f (done a t) = f a t
continue f aborted = aborted
continue f fault = fault
continue f unfinished = unfinished

infixl 5 ◌>>=◌ ◌>>◌
abbrev pub ◌>>=◌ : {S A B : Type 0} → Run S A → (A → Run S B) → Run S B
◌>>=◌ m f s = continue f (m s)

abbrev pub ◌>>◌ : {S A B : Type 0} → Run S A → Run S B → Run S B
m >> k = m >>= λ _. k

-- A C condition `a != 0 || b != 0 || ...`: calls in order up to the first that does not return 0.
abbrev pub any_fails : {S : Type 0} → List (Run S ℤ) → Run S Bool
any_fails [] = pure false
any_fails (m ∷ ms) = m >>= λ r. if nonzero r then pure true else any_fails ms

-- What holds of a run that ends with a value; an abort or a fault satisfies nothing.
abbrev pub Returns : {S A : Type 0} → (A → S → Type 0) → Outcome S A → Type 0
Returns P (done a s) = P a s
Returns P aborted = ⊥
Returns P fault = ⊥
Returns P unfinished = ⊥

-- What holds of a run if it ends with a value.
abbrev pub Ensures : {S A : Type 0} → (A → S → Type 0) → Outcome S A → Type 0
Ensures P (done a s) = P a s
Ensures P aborted = Unit
Ensures P fault = Unit
Ensures P unfinished = Unit

-- A run that ends with a value hands it on.
pub bind_done :
    {S A B : Type 0} (m : Run S A) (f : A → Run S B) {s t : S} {a : A}
    → m s ≡ done a t
    → (m >>= f) s ≡ f a t
bind_done m f e = rw (e, ◌>>=◌)

pub Ensures-continue :
    {S A B : Type 0} (P : A → S → Type 0) (Q : B → S → Type 0) (f : A → Run S B) (r : Outcome S A)
    → Ensures P r
    → ((a : A) (t : S) → P a t → Ensures Q (f a t))
    → Ensures Q (continue f r)
Ensures-continue P Q f (done a t) h k = k a t h
Ensures-continue P Q f aborted h k = tt
Ensures-continue P Q f fault h k = tt
Ensures-continue P Q f unfinished h k = tt

pub Ensures-if :
    {S A : Type 0} (P : A → S → Type 0) (b : Bool) (m n : Run S A) (s : S)
    → ((t : S) → Ensures P (m t))
    → ((t : S) → Ensures P (n t))
    → Ensures P ((if b then m else n) s)
Ensures-if P true m n s h k = h s
Ensures-if P false m n s h k = k s

pub Ensures-both :
    {S A : Type 0} (P Q : A → S → Type 0) (r : Outcome S A)
    → Ensures P r
    → Ensures Q r
    → Ensures (λ a s. P a s × Q a s) r
Ensures-both P Q (done a t) h k = (h, k)
Ensures-both P Q aborted h k = tt
Ensures-both P Q fault h k = tt
Ensures-both P Q unfinished h k = tt

pub Ensures-weaken :
    {S A : Type 0} (P Q : A → S → Type 0) (r : Outcome S A)
    → ((a : A) (s : S) → P a s → Q a s)
    → Ensures P r
    → Ensures Q r
Ensures-weaken P Q (done a t) f h = f a t h
Ensures-weaken P Q aborted f h = tt
Ensures-weaken P Q fault f h = tt
Ensures-weaken P Q unfinished f h = tt

-- What holds of a run that ends with a value, and what is known where an assertion fails; it never
-- faults and always ends.
abbrev pub Resolves : {S A : Type 0} → (A → S → Type 0) → Type 0 → Outcome S A → Type 0
Resolves P Q (done a s) = P a s
Resolves P Q aborted = Q
Resolves P Q fault = ⊥
Resolves P Q unfinished = ⊥

pub Returns-continue :
    {S A B : Type 0} (P : A → S → Type 0) (Q : B → S → Type 0) (f : A → Run S B) (r : Outcome S A)
    → Returns P r
    → ((a : A) (t : S) → P a t → Returns Q (f a t))
    → Returns Q (continue f r)
Returns-continue P Q f (done a t) h k = k a t h
Returns-continue P Q f aborted h k = absurd h
Returns-continue P Q f fault h k = absurd h
Returns-continue P Q f unfinished h k = absurd h

pub Returns-weaken :
    {S A : Type 0} (P Q : A → S → Type 0) (r : Outcome S A)
    → ((a : A) (s : S) → P a s → Q a s)
    → Returns P r
    → Returns Q r
Returns-weaken P Q (done a t) f h = f a t h
Returns-weaken P Q aborted f h = absurd h
Returns-weaken P Q fault f h = absurd h
Returns-weaken P Q unfinished f h = absurd h

-- Both branches of a test.
pub Returns-if :
    {S A : Type 0} (P : A → S → Type 0) (b : Bool) (m n : Run S A) (s : S)
    → Returns P (m s)
    → Returns P (n s)
    → Returns P ((if b then m else n) s)
Returns-if P true m n s h k = h
Returns-if P false m n s h k = k
