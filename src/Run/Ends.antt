-- ===== src/Run/Ends.antt =====
-- Runs that do not reach the bound of a loop, and the rules for them.
use very_simple_file_system.Base.{◌≡◌, ◌≢◌, refl, Bool, true, false, if◌then◌else◌}
use very_simple_file_system.Run.{
  Run, Cmd, ok, fault, out_of_fuel, uninitialised, assertion, disk_range, negative, and_then,
}

-- The run stops at a fault of the program, or it ends with `P`.
abbrev pub Ends : {S A : Type 0} → (A → S → Type 0) → Run S A → Type 0
Ends P (ok a s) = P a s
Ends P (fault uninitialised) = Unit
Ends P (fault assertion) = Unit
Ends P (fault disk_range) = Unit
Ends P (fault negative) = Unit
Ends P (fault out_of_fuel) = ⊥

pub Ends-ne : {S A : Type 0} (P : A → S → Type 0) (r : Run S A) → Ends P r → r ≢ fault out_of_fuel
Ends-ne P (ok a s) h e = cc
Ends-ne P (fault uninitialised) h e = cc
Ends-ne P (fault assertion) h e = cc
Ends-ne P (fault disk_range) h e = cc
Ends-ne P (fault negative) h e = cc
Ends-ne P (fault out_of_fuel) h e = h

pub Ends-then :
    {S A B : Type 0} (P : A → S → Type 0) (Q : B → S → Type 0) (r : Run S A) (k : A → Cmd S B)
    → Ends P r
    → ((a : A) (s : S) → P a s → Ends Q (k a s))
    → Ends Q (and_then r k)
Ends-then P Q (ok a s) k h g = g a s h
Ends-then P Q (fault uninitialised) k h g = tt
Ends-then P Q (fault assertion) k h g = tt
Ends-then P Q (fault disk_range) k h g = tt
Ends-then P Q (fault negative) k h g = tt
Ends-then P Q (fault out_of_fuel) k h g = h

pub Ends-weaken :
    {S A : Type 0} (P Q : A → S → Type 0) (r : Run S A)
    → Ends P r
    → ((a : A) (s : S) → P a s → Q a s)
    → Ends Q r
Ends-weaken P Q (ok a s) h g = g a s h
Ends-weaken P Q (fault uninitialised) h g = tt
Ends-weaken P Q (fault assertion) h g = tt
Ends-weaken P Q (fault disk_range) h g = tt
Ends-weaken P Q (fault negative) h g = tt
Ends-weaken P Q (fault out_of_fuel) h g = h

-- A branch of the code.
pub Ends-if :
    {S A : Type 0} (P : A → S → Type 0) (b : Bool) (m n : Cmd S A) (s : S)
    → (b ≡ true → Ends P (m s))
    → (b ≡ false → Ends P (n s))
    → Ends P ((if b then m else n) s)
Ends-if P true m n s h g = h refl
Ends-if P false m n s h g = g refl

pub Ends-ite :
    {S A : Type 0} (P : A → S → Type 0) (b : Bool) (q r : Run S A)
    → Ends P q
    → Ends P r
    → Ends P (if b then q else r)
Ends-ite P true q r h g = h
Ends-ite P false q r h g = g
