-- ===== src/Prelude/Words.antt =====
-- The words of a text: Python's `split()` and `" ".join`.
use python_backend_manager.Prelude.Base.{
  ℕ, ◌≡◌, refl, Bool, false, ◌||◌, ◌&&◌, List, [], ◌∷◌, ◌++◌, ◌==◌, leb, any, All, arith, ap, ◌∙◌,
  sym, if◌then◌else◌,
}
use mathlib.Core.List.{append-nil, append_assoc}
use python_backend_manager.Prelude.Bytes.{CodePoints}

-- The characters at which `str.split()` splits.
abbrev pub is_space : ℕ → Bool
is_space c =
    (leb 9 c && leb c 13)
    || (leb 28 c && leb c 32)
    || c == 133
    || c == 160
    || c == 5760
    || (leb 8192 c && leb c 8202)
    || c == 8232
    || c == 8233
    || c == 8239
    || c == 8287
    || c == 12288

unfoldable pub add_word : CodePoints → List CodePoints → List CodePoints
add_word [] words = words
add_word (c ∷ cs) words = (c ∷ cs) ∷ words

unfoldable pub split_from : CodePoints → CodePoints → List CodePoints
unfolding add_word
split_from word [] = add_word word []
split_from word (c ∷ cs) =
    let here = split_from (word ++ c ∷ []) cs in
    let next = split_from [] cs in if is_space c then add_word word next else here

-- `text.split()`
unfoldable pub split_words : CodePoints → List CodePoints
unfolding split_from
split_words text = split_from [] text

-- `" ".join(words)`
unfoldable pub join_words : List CodePoints → CodePoints
join_words [] = []
join_words (w ∷ []) = w
join_words (w ∷ v ∷ words) = w ++ 32 ∷ join_words (v ∷ words)

-- A text with a character and without a space.
abbrev pub IsWord : CodePoints → Type 0
IsWord [] = ⊥
IsWord (c ∷ cs) = any is_space (c ∷ cs) ≡ false

split_from-plain :
    (before word rest : CodePoints)
    → any is_space word ≡ false
    → split_from before (word ++ rest) ≡ split_from (before ++ word) rest
unfolding split_from
split_from-plain before [] rest h = ap (λ b. split_from b rest) (sym (append-nil before))
split_from-plain before (c ∷ cs) rest h =
    let inner = split_from-plain (before ++ c ∷ []) cs rest (ground (arith, h)) in
    let same = ap (λ b. split_from b rest) (append_assoc before (c ∷ []) cs) in
    ground (arith, h, inner, same)

pub split_words-join_words :
    (words : List CodePoints) → All IsWord words → split_words (join_words words) ≡ words
unfolding split_words join_words split_from add_word
split_words-join_words [] h = refl
split_words-join_words ([] ∷ words) h = absurd h.0
split_words-join_words ((c ∷ cs) ∷ []) h =
    ap (split_from []) (sym (append-nil (c ∷ cs))) ∙ split_from-plain [] (c ∷ cs) [] h.0
split_words-join_words ((c ∷ cs) ∷ v ∷ words) h =
    split_from-plain [] (c ∷ cs) (32 ∷ join_words (v ∷ words)) h.0
    ∙ ap (λ rest. (c ∷ cs) ∷ rest) (split_words-join_words (v ∷ words) h.1)
