-- ===== src/Run/Keeps.antt =====
-- Commands that keep a property of the state, where they end at all.
use very_simple_file_system.Base.{◌≡◌, subst, Bool, true, false, if◌then◌else◌, Option, none, some}
use very_simple_file_system.Run.{Run, Cmd, ok, fault, and_then, ◌>>=◌}

abbrev pub Stays : {S A : Type 0} → (S → Type 0) → Run S A → Type 0
Stays P (ok a s) = P s
Stays P (fault e) = Unit

abbrev pub Keeps : {S A : Type 0} → (S → Type 0) → Cmd S A → Type 0
Keeps {S} P m = (s : S) → P s → Stays P (m s)

module _ {S : Type 0} (P : S → Type 0) where
  Stays-then :
      {A B : Type 0} (r : Run S A) (k : A → Cmd S B)
      → Stays P r
      → ((a : A) → Keeps P (k a))
      → Stays P (and_then r k)
  Stays-then (ok a s) k h g = g a s h
  Stays-then (fault e) k h g = tt

  pub Stays-if :
      {A : Type 0} (b : Bool) (q r : Run S A) → Stays P q → Stays P r → Stays P (if b then q else r)
  Stays-if true q r h g = h
  Stays-if false q r h g = g

  pub Keeps-then :
      {A B : Type 0} (m : Cmd S A) (k : A → Cmd S B)
      → Keeps P m
      → ((a : A) → Keeps P (k a))
      → Keeps P (m >>= k)
  Keeps-then m k h g s p = Stays-then (m s) k (h s p) g

  pub Keeps-if :
      {A : Type 0} (b : Bool) (m n : Cmd S A) → Keeps P m → Keeps P n → Keeps P (if b then m else n)
  Keeps-if true m n h g = h
  Keeps-if false m n h g = g

  pub Keeps-option :
      {A B : Type 0} (o : Option B) (m : Cmd S A) (k : B → Cmd S A)
      → Keeps P m
      → ((b : B) → Keeps P (k b))
      → Keeps P (elim o [ none ↦ m | some b ↦ k b ])
  Keeps-option none m k h g = h
  Keeps-option (some b) m k h g = g b

pub Stays-weaken :
    {S A : Type 0} (P Q : S → Type 0) (r : Run S A) → Stays P r → ((s : S) → P s → Q s) → Stays Q r
Stays-weaken P Q (ok a s) h g = g s h
Stays-weaken P Q (fault e) h g = tt

-- What holds of a run that ended.
pub Stays-run :
    {S A : Type 0} (P : S → Type 0) (r : Run S A) (a : A) (s : S) → Stays P r → r ≡ ok a s → P s
Stays-run P r a s h e = subst (Stays P) e h
