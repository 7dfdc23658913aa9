-- ===== src/Base/Text/Fields.antt =====
-- `strings.Fields` on words that are joined by spaces.
use mathlib.Core.List.{append_assoc, append-nil, reverse, reverse-reverse, reverse-cons}
use v2ray_e.Base.{
  ℕ, ◌≡◌, ◌≢◌, ◌∙◌, refl, sym, ap, Bool, true, false, not, ◌&&◌, List, [], ◌∷◌, ◌++◌, arith,
  Bool-cases, inl, inr, All,
}
use v2ray_e.Base.Text.Defs.{
  Text, txt, is_space, word, fields_from, fields, trim_left, trim_space, join,
}

abbrev NotSpace : ℕ → Type 0
NotSpace c = is_space c ≡ false

-- A word has no space in it, and is not empty.
pub record IsWord (w : Text) : Type 0 where
  pub no_space : All NotSpace w
  pub not_empty : w ≢ []

fields_from-word :
    (cur w s : Text) → All NotSpace w → fields_from cur (w ++ s) ≡ fields_from (cur ++ w) s
unfolding fields_from
fields_from-word cur [] s h = rw (append-nil cur)
fields_from-word cur (c ∷ w) s (h, hs) =
    rw (h, fields_from)
      (fields_from-word (cur ++ c ∷ []) w s hs
        ∙ ap (λ t. fields_from t s) (append_assoc cur (c ∷ []) w))

word-IsWord : (w : Text) → w ≢ [] → word w ≡ w ∷ []
word-IsWord [] h = absurd (h refl)
word-IsWord (c ∷ w) h = refl

-- A word before a space is the first field.
pub fields-cons :
    (w : Text) (sp : ℕ) (rest : Text)
    → IsWord w
    → is_space sp ≡ true
    → fields (w ++ sp ∷ rest) ≡ w ∷ fields rest
unfolding fields
fields-cons w sp rest h spaced =
    fields_from-word [] w (sp ∷ rest) h.no_space ∙ ground (arith, spaced, word-IsWord w h.not_empty)

-- A word at the end is the last field.
pub fields-last : (w : Text) → IsWord w → fields w ≡ w ∷ []
unfolding fields
fields-last w h =
    ap (fields_from []) (sym (append-nil w))
    ∙ (fields_from-word [] w [] h.no_space ∙ word-IsWord w h.not_empty)

fields_from-concat_space :
    (cur s : Text) (sp : ℕ)
    → is_space sp ≡ true
    → fields_from cur (s ++ sp ∷ []) ≡ fields_from cur s
unfolding fields_from
fields_from-concat_space cur [] sp h = rw h (append-nil (word cur))
fields_from-concat_space cur (c ∷ s) sp h = elim (Bool-cases (is_space c)) [
  | inl space ↦ rw space (ap (λ ws. word cur ++ ws) (fields_from-concat_space [] s sp h))
  | inr letter ↦ rw letter (fields_from-concat_space (cur ++ c ∷ []) s sp h)
]

fields-trim_left : (s : Text) → fields (trim_left s) ≡ fields s
unfolding fields trim_left
fields-trim_left [] = refl
fields-trim_left (c ∷ s) = elim (Bool-cases (is_space c)) [
  | inl space ↦ rw space (fields-trim_left s)
  | inr letter ↦ rw letter (ground (arith, letter))
]

fields-trim_right : (r : Text) → fields (reverse (trim_left r)) ≡ fields (reverse r)
unfolding fields trim_left
fields-trim_right [] = refl
fields-trim_right (c ∷ r) = elim (Bool-cases (is_space c)) [
  | inl space ↦
      rw (space, reverse-cons)
        (fields-trim_right r ∙ sym (fields_from-concat_space [] (reverse r) c space))
  | inr letter ↦ rw letter refl
]

-- Trimming a text does not change its fields.
pub fields-trim_space : (s : Text) → fields (trim_space s) ≡ fields s
unfolding trim_space
fields-trim_space s =
    fields-trim_right (reverse (trim_left s))
    ∙ (ap fields (reverse-reverse (trim_left s)) ∙ fields-trim_left s)

-- The fields of words joined by single spaces are the words.
pub fields-join : (ws : List Text) → All IsWord ws → fields (join (txt " ") ws) ≡ ws
unfolding join
fields-join [] h = unfold fields in refl
fields-join (w ∷ []) (h, _) = fields-last w h
fields-join (w ∷ v ∷ ws) (h, hs) =
    fields-cons w 32 (join (txt " ") (v ∷ ws)) h (unfold is_space in refl)
    ∙ ap (λ l. w ∷ l) (fields-join (v ∷ ws) hs)

-- A test for words, for literals.
unfoldable pub looks_like_word : Text → Bool
unfolding is_space
looks_like_word [] = false
looks_like_word (c ∷ []) = not (is_space c)
looks_like_word (c ∷ d ∷ w) = not (is_space c) && looks_like_word (d ∷ w)

looks_like_word-NotSpace : (w : Text) → looks_like_word w ≡ true → All NotSpace w
unfolding looks_like_word
looks_like_word-NotSpace [] h = tt
looks_like_word-NotSpace (c ∷ []) h = (ground arith, tt)
looks_like_word-NotSpace (c ∷ d ∷ w) h =
    (ground arith, looks_like_word-NotSpace (d ∷ w) (ground arith))

pub looks_like_word-IsWord : (w : Text) → looks_like_word w ≡ true → IsWord w
looks_like_word-IsWord [] h = unfold looks_like_word in cc h
looks_like_word-IsWord (c ∷ w) h = record {
  no_space = looks_like_word-NotSpace (c ∷ w) h;
  not_empty = λ e. cc;
}
