-- ===== src/Path/Words.antt =====
-- `cd` takes a path apart into the words that it was made of.
use very_simple_file_system.Base.{
  append-nil, ℕ, ◌<◌, ◌≡◌, refl, ap, sym, ◌∙◌, List, [], ◌∷◌, ◌++◌, false, ◌==◌, length, arith,
}
use very_simple_file_system.Disk.{Bytes}
use very_simple_file_system.Path.{slash, slash_count, tokens_from, tokens, end_word}

-- Words of a path: not empty, and no slash in them.
abbrev pub AllWords : List Bytes → Type 0
AllWords [] = Unit
AllWords (w ∷ words) = (0 < length w) × (slash_count w ≡ 0) × AllWords words

-- Each word behind a slash.
unfoldable pub path_of : List Bytes → Bytes
path_of [] = []
path_of (w ∷ words) = slash ∷ w ++ path_of words

append_snoc : (xs : Bytes) (y : ℕ) (ys : Bytes) → (xs ++ y ∷ []) ++ ys ≡ xs ++ y ∷ ys
append_snoc [] y ys = refl
append_snoc (x ∷ xs) y ys = ap (λ l. x ∷ l) (append_snoc xs y ys)

-- A word is read up to the next slash.
tokens_from-word :
    (begun w : Bytes) (words : List Bytes)
    → slash_count w ≡ 0
    → tokens_from begun (w ++ path_of words)
      ≡ end_word (begun ++ w) (tokens_from [] (path_of words))
unfolding slash_count tokens_from path_of
tokens_from-word begun [] [] h = ap (λ b. end_word b []) (sym (append-nil begun))
tokens_from-word begun [] (x ∷ words) h =
    ap (λ b. end_word b (tokens_from [] (x ++ path_of words))) (sym (append-nil begun))
tokens_from-word begun (c ∷ w) words h =
    let other : (c == slash) ≡ false = ground arith in
    rw other (
      tokens_from-word (begun ++ c ∷ []) w words (ground arith)
      ∙ ap (λ b. end_word b (tokens_from [] (path_of words))) (append_snoc begun c w))

end_word-long : (w : Bytes) (words : List Bytes) → 0 < length w → end_word w words ≡ w ∷ words
end_word-long [] words h = absurd (omega arith)
end_word-long (c ∷ w) words h = refl

-- The first word without a slash before it.
first_word :
    (w : Bytes) (words : List Bytes)
    → 0 < length w
    → slash_count w ≡ 0
    → tokens_from [] (w ++ path_of words) ≡ w ∷ tokens_from [] (path_of words)
first_word w words pos plain =
    tokens_from-word [] w words plain ∙ end_word-long w (tokens_from [] (path_of words)) pos

tokens_from-path_of : (words : List Bytes) → AllWords words → tokens_from [] (path_of words) ≡ words
unfolding tokens_from path_of
tokens_from-path_of [] v = refl
tokens_from-path_of (w ∷ words) (pos, plain, v) =
    first_word w words pos plain ∙ ap (λ l. w ∷ l) (tokens_from-path_of words v)

pub tokens-behind :
    (w : Bytes) (words : List Bytes)
    → AllWords (w ∷ words)
    → tokens (w ++ path_of words) ≡ w ∷ words
unfolding tokens
tokens-behind w words (pos, plain, v) =
    first_word w words pos plain ∙ ap (λ l. w ∷ l) (tokens_from-path_of words v)

-- For a list of words that are not empty and have no slash, the words that `cd` finds in the path
-- with each word behind a slash are these words.
pub tokens-path_of : (words : List Bytes) → AllWords words → tokens (path_of words) ≡ words
unfolding tokens
tokens-path_of words v = tokens_from-path_of words v
