-- ===== src/Table.antt =====
-- C texts, and `std::map<std::string, int>`: an association list in the order of the keys.
pub mod Lookup
use very_simple_file_system.Base.{
  ℕ, ◌+◌, ◌^◌, ◌-◌, ◌/◌, ◌%◌, zero, suc, Bool, true, false, ◌&&◌, ◌||◌, Option, none, some, List,
  [], ◌∷◌, ◌++◌, ◌==◌, ltb, if◌then◌else◌,
}
use very_simple_file_system.Disk.{Bytes}

-- What a C text in a buffer reads as: the bytes before the first NUL.
unfoldable pub c_str : Bytes → Bytes
c_str [] = []
c_str (b ∷ bs) = let rest = c_str bs in if b == 0 then [] else b ∷ rest

-- `strcmp(a, b) == 0`
unfoldable pub text_eq : Bytes → Bytes → Bool
text_eq [] [] = true
text_eq (a ∷ as') (b ∷ bs) = (a == b) && text_eq as' bs
text_eq _ _ = false

-- `a < b` for `std::string`.
unfoldable pub text_lt : Bytes → Bytes → Bool
text_lt [] [] = false
text_lt [] (b ∷ bs) = true
text_lt (a ∷ as') [] = false
text_lt (a ∷ as') (b ∷ bs) = ltb a b || ((a == b) && text_lt as' bs)

abbrev pub Table : Type 0
Table = List (Bytes × ℕ)

-- `find`: the value under the key, `none` for `end()`.
unfoldable pub find : Bytes → Table → Option ℕ
unfolding text_eq
find k [] = none
find k ((j, v) ∷ m) = if text_eq k j then some v else find k m

-- `insert` keeps the value of a key that is there.
unfoldable pub insert : Bytes → ℕ → Table → Table
unfolding text_eq text_lt
insert k v [] = (k, v) ∷ []
insert k v ((j, w) ∷ m) =
    if text_lt k j
    then (k, v) ∷ (j, w) ∷ m
    else if text_eq k j
    then (j, w) ∷ m
    else (j, w) ∷ insert k v m

-- An `int` in decimal, as `<<` prints it; ten digits are enough.
unfoldable pub digits_of : ℕ → ℕ → Bytes
digits_of zero n = []
digits_of (suc fuel) n =
    let front = digits_of fuel (n / 10) in
    if ltb n 10 then (n + b'0') ∷ [] else front ++ (n % 10 + b'0') ∷ []

unfoldable pub show_int : ℕ → Bytes
unfolding digits_of
show_int w = if ltb w (2 ^ 31) then digits_of 10 w else b'-' ∷ digits_of 10 (2 ^ 32 - w)
