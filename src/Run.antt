-- ===== src/Run.antt =====
-- The runs of the program's functions: a value and the new state, or what stops the model.
pub mod Ends
pub mod Keeps
use very_simple_file_system.Base.{◌≡◌, sym, subst, ◌∙◌}

-- What the C++ code leaves undefined, and what the model does not follow further.
pub data Fault : Type 0 where
  -- a variable or a buffer is read before anything was stored in it
  uninitialised : Fault
  -- a failing `assert`
  assertion : Fault
  -- an access outside the 100M of `vdisk`, after which the stream is in a failed state
  disk_range : Fault
  -- a negative length or file offset
  negative : Fault
  -- the bound on the rounds of a loop was reached
  out_of_fuel : Fault

pub data Run (S A : Type 0) : Type 0 where
  ok : A → S → Run S A
  fault : Fault → Run S A

-- A command over the state `S`.
abbrev pub Cmd : Type 0 → Type 0 → Type 0
Cmd S A = S → Run S A

module _ {S : Type 0} where
  abbrev pub pure : {A : Type 0} → A → Cmd S A
  pure a s = ok a s

  abbrev pub fail : {A : Type 0} → Fault → Cmd S A
  fail e s = fault e

  abbrev pub and_then : {A B : Type 0} → Run S A → (A → Cmd S B) → Run S B
  and_then (ok a s) k = k a s
  and_then (fault e) k = fault e

  infixl 5 ◌>>=◌ ◌>>◌
  abbrev pub ◌>>=◌ : {A B : Type 0} → Cmd S A → (A → Cmd S B) → Cmd S B
  m >>= k = λ s. and_then (m s) k

  abbrev pub ◌>>◌ : {A B : Type 0} → Cmd S A → Cmd S B → Cmd S B
  m >> n = m >>= λ _. n

-- The run ends, without a fault, in a value and a state that satisfy `P`.
abbrev pub Returns : {S A : Type 0} → (A → S → Type 0) → Run S A → Type 0
Returns {S} {A} P r = (a : A) × (s : S) × (r ≡ ok a s) × P a s

-- A run that returns has one result.
pub Returns-run :
    {S A : Type 0} (P : A → S → Type 0) (r : Run S A) (a : A) (s : S)
    → Returns P r
    → r ≡ ok a s
    → P a s
Returns-run P r a s (b, t, run, p) e =
    let q : ok b t ≡ ok a s = sym run ∙ e in
    let x : b ≡ a = cc in let y : t ≡ s = cc in subst (λ c. P c s) x (subst (P b) y p)
