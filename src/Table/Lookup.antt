-- ===== src/Table/Lookup.antt =====
-- The order of C texts, and what a sorted table finds after an insertion.
use very_simple_file_system.Base.{
  ℕ, ◌≡◌, refl, ap, ap₂, sym, ◌∙◌, [], ◌∷◌, true, false, Option, none, some, if◌then◌else◌, arith,
  Bool-cases, inl, inr,
}
use very_simple_file_system.Disk.{Bytes}
use very_simple_file_system.Table.{text_eq, text_lt, Table, find, insert}

pub text_eq_refl : (k : Bytes) → text_eq k k ≡ true
unfolding text_eq
text_eq_refl [] = refl
text_eq_refl (a ∷ k) = ground (arith, text_eq_refl k)

text_eq-eq : (j k : Bytes) → text_eq j k ≡ true → j ≡ k
unfolding text_eq
text_eq-eq [] [] h = refl
text_eq-eq [] (b ∷ k) h = cc
text_eq-eq (a ∷ j) [] h = cc
text_eq-eq (a ∷ j) (b ∷ k) h = ap₂ (λ x xs. x ∷ xs) (ground arith) (text_eq-eq j k (ground arith))

text_lt-ne : (j k : Bytes) → text_lt j k ≡ true → text_eq j k ≡ false
unfolding text_eq text_lt
text_lt-ne [] [] h = cc
text_lt-ne [] (b ∷ k) h = refl
text_lt-ne (a ∷ j) [] h = refl
text_lt-ne (a ∷ j) (b ∷ k) h = ground (arith, text_lt-ne j k)

text_lt_trans : (i j k : Bytes) → text_lt i j ≡ true → text_lt j k ≡ true → text_lt i k ≡ true
unfolding text_lt
text_lt_trans [] [] k h l = l
text_lt_trans [] (b ∷ j) [] h l = l
text_lt_trans [] (b ∷ j) (c ∷ k) h l = refl
text_lt_trans (a ∷ i) [] k h l = cc
text_lt_trans (a ∷ i) (b ∷ j) [] h l = l
text_lt_trans (a ∷ i) (b ∷ j) (c ∷ k) h l = ground (arith, text_lt_trans i j k)

text_lt_total : (j k : Bytes) → text_lt j k ≡ false → text_eq j k ≡ false → text_lt k j ≡ true
unfolding text_eq text_lt
text_lt_total [] [] h l = sym l
text_lt_total [] (b ∷ k) h l = sym h
text_lt_total (a ∷ j) [] h l = refl
text_lt_total (a ∷ j) (b ∷ k) h l = ground (arith, text_lt_total j k)

-- All keys of the table are behind `k`.
abbrev Above : Bytes → Table → Type 0
Above k [] = Unit
Above k ((j, w) ∷ m) = (text_lt k j ≡ true) × Above k m

-- The keys are in order, none twice.
abbrev pub IsSorted : Table → Type 0
IsSorted [] = Unit
IsSorted ((j, w) ∷ m) = Above j m × IsSorted m

Above-trans : (i k : Bytes) (m : Table) → text_lt i k ≡ true → Above k m → Above i m
Above-trans i k [] h a = tt
Above-trans i k ((j, w) ∷ m) h (l, a) = (text_lt_trans i k j h l, Above-trans i k m h a)

Above-insert :
    (i k : Bytes) (v : ℕ) (m : Table) → text_lt i k ≡ true → Above i m → Above i (insert k v m)
unfolding insert
Above-insert i k v [] h a = (h, tt)
Above-insert i k v ((j, w) ∷ m) h (l, a) = elim (Bool-cases (text_lt k j)) [
  | inl before ↦ rw before (h, (l, a))
  | inr not_before ↦ elim (Bool-cases (text_eq k j)) [
    | inl same ↦ rw (not_before, same) (l, a)
    | inr other ↦ rw (not_before, other) (l, Above-insert i k v m h a)
  ]
]

pub insert-IsSorted : (k : Bytes) (v : ℕ) (m : Table) → IsSorted m → IsSorted (insert k v m)
unfolding insert
insert-IsSorted k v [] s = (tt, tt)
insert-IsSorted k v ((j, w) ∷ m) (a, s) = elim (Bool-cases (text_lt k j)) [
  | inl before ↦ rw before ((before, Above-trans k j m before a), (a, s))
  | inr not_before ↦ elim (Bool-cases (text_eq k j)) [
    | inl same ↦ rw (not_before, same) (a, s)
    | inr other ↦
        rw (not_before, other)
          (Above-insert j k v m (text_lt_total k j not_before other) a, insert-IsSorted k v m s)
  ]
]

find-Above : (k : Bytes) (m : Table) → Above k m → find k m ≡ none
unfolding find
find-Above k [] a = refl
find-Above k ((j, w) ∷ m) (l, a) = rw (text_lt-ne k j l) (find-Above k m a)

-- A value that is there, or else another.
abbrev pub or_else : Option ℕ → Option ℕ → Option ℕ
or_else none o = o
or_else (some w) o = some w

-- A key that is there keeps its value; a new one gets the new value.
pub find-insert :
    (i k : Bytes) (v : ℕ) (m : Table)
    → IsSorted m
    → find i (insert k v m) ≡ (if text_eq i k then or_else (find i m) (some v) else find i m)
unfolding find insert
find-insert i k v [] s = ground arith
find-insert i k v ((j, w) ∷ m) (a, s) = elim (Bool-cases (text_lt k j)) [
  | inl before ↦ elim (Bool-cases (text_eq i k)) [
    | inl hit ↦
        let e : i ≡ k = text_eq-eq i k hit in
        let gone : find i ((j, w) ∷ m) ≡ none =
          ap (λ x. find x ((j, w) ∷ m)) e
          ∙ find-Above k ((j, w) ∷ m) (before, Above-trans k j m before a) in
        rw (before, hit) (ap (λ o. or_else o (some v)) (sym gone))
    | inr miss ↦ rw (before, miss) refl
  ]
  | inr not_before ↦ elim (Bool-cases (text_eq k j)) [
    | inl same ↦ elim (Bool-cases (text_eq i k)) [
      | inl hit ↦
          let e : text_eq i j ≡ true = ap (λ x. text_eq x j) (text_eq-eq i k hit) ∙ same in
          rw (not_before, same, hit, e) refl
      | inr miss ↦ rw (not_before, same, miss) refl
    ]
    | inr other ↦ elim (Bool-cases (text_eq i j)) [
      | inl hit ↦ rw (not_before, other, hit) (ground arith)
      | inr miss ↦ rw (not_before, other, miss) (find-insert i k v m s)
    ]
  ]
]
