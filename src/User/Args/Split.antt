-- ===== src/User/Args/Split.antt =====
-- The texts that the arguments of a guest program are cut into.
use switch_v.Common.{ℕ, zero, suc, ◌≡◌, ◌∙◌, refl, ap, sym, true, false}
use switch_v.Common.{List, [], ◌∷◌, ◌++◌, ◌==◌}
use switch_v.User.Args.{space, cut, count_tokens, text_of, text_after}

-- No space and no end of a text.
abbrev pub IsPlain : List ℕ → Type 0
IsPlain [] = Unit
IsPlain (c ∷ cs) = ((c == space) ≡ false) × ((c == 0) ≡ false) × IsPlain cs

-- Words, each with its first character, with a space between any two.
pub record Word : Type 0 where
  pub first : ℕ
  pub others : List ℕ

abbrev pub text : Word → List ℕ
text w = w.first ∷ w.others

abbrev pub joined : List Word → List ℕ
joined [] = []
joined (w ∷ []) = text w
joined (w ∷ v ∷ ws) = text w ++ space ∷ joined (v ∷ ws)

abbrev pub ArePlain : List Word → Type 0
ArePlain [] = Unit
ArePlain (w ∷ ws) = IsPlain (text w) × ArePlain ws

abbrev pub as_texts : List Word → List (List ℕ)
as_texts [] = []
as_texts (w ∷ ws) = text w ∷ as_texts ws

-- The texts that the loop of `emu_args` places.
abbrev pub placed : ℕ → List ℕ → List (List ℕ)
placed zero texts = []
placed (suc n) texts = text_of texts ∷ placed n (text_after texts)

cut-++ : (cs rest : List ℕ) → IsPlain cs → cut true (cs ++ rest) ≡ cs ++ cut true rest
unfolding cut
cut-++ [] rest h = refl
cut-++ (c ∷ cs) rest (s, z, h) = rw s (ap (λ x. c ∷ x) (cut-++ cs rest h))

count-++ : (cs rest : List ℕ) → IsPlain cs → count_tokens true (cs ++ rest) ≡ count_tokens true rest
unfolding count_tokens
count-++ [] rest h = refl
count-++ (c ∷ cs) rest (s, z, h) = rw s (count-++ cs rest h)

text_of-++ : (cs rest : List ℕ) → IsPlain cs → text_of (cs ++ 0 ∷ rest) ≡ cs
unfolding text_of
text_of-++ [] rest h = refl
text_of-++ (c ∷ cs) rest (s, z, h) = rw z (ap (λ x. c ∷ x) (text_of-++ cs rest h))

text_after-++ : (cs rest : List ℕ) → IsPlain cs → text_after (cs ++ 0 ∷ rest) ≡ rest
unfolding text_after
text_after-++ [] rest h = refl
text_after-++ (c ∷ cs) rest (s, z, h) = rw z (text_after-++ cs rest h)

append_assoc : (xs ys zs : List ℕ) → (xs ++ ys) ++ zs ≡ xs ++ (ys ++ zs)
append_assoc [] ys zs = refl
append_assoc (x ∷ xs) ys zs = ap (λ l. x ∷ l) (append_assoc xs ys zs)

cut-text :
    (w : Word) (rest : List ℕ)
    → IsPlain (text w)
    → cut false (text w ++ rest) ≡ text w ++ cut true rest
unfolding cut
cut-text w rest (s, z, h) = rw s (ap (λ l. w.first ∷ l) (cut-++ w.others rest h))

count_text :
    (w : Word) (rest : List ℕ)
    → IsPlain (text w)
    → count_tokens false (text w ++ rest) ≡ suc (count_tokens true rest)
unfolding count_tokens
count_text w rest (s, z, h) = rw s (ap suc (count-++ w.others rest h))

-- The first text, and what is left.
placed-text :
    (w : Word) (n : ℕ) (rest : List ℕ)
    → IsPlain (text w)
    → placed (suc n) (text w ++ 0 ∷ rest) ≡ text w ∷ placed n rest
placed-text w n rest h = rw (text_of-++ (text w) rest h, text_after-++ (text w) rest h)

append_nil : (xs : List ℕ) → xs ++ [] ≡ xs
append_nil [] = refl
append_nil (x ∷ xs) = ap (λ l. x ∷ l) (append_nil xs)

cut_last : (w : Word) → IsPlain (text w) → cut false (text w) ≡ text w
unfolding cut
cut_last w (s, z, h) =
    let inner : cut true w.others ≡ w.others =
      ap (λ l. cut true l) (sym (append_nil w.others))
      ∙ cut-++ w.others [] h
      ∙ append_nil w.others in
    rw s (ap (λ l. w.first ∷ l) inner)

count_last : (w : Word) → IsPlain (text w) → count_tokens false (text w) ≡ 1
unfolding count_tokens
count_last w (s, z, h) =
    let inner : count_tokens true w.others ≡ 0 =
      ap (λ l. count_tokens true l) (sym (append_nil w.others)) ∙ count-++ w.others [] h in
    rw s (ap suc inner)

cut-space : (rest : List ℕ) → cut true (space ∷ rest) ≡ 0 ∷ cut false rest
unfolding cut
cut-space rest = refl

count_space : (rest : List ℕ) → count_tokens true (space ∷ rest) ≡ count_tokens false rest
unfolding count_tokens
count_space rest = refl

empty_lem : placed (count_tokens false []) (cut false [] ++ 0 ∷ []) ≡ []
unfolding count_tokens cut
empty_lem = refl

-- The arguments that are joined by single spaces are found again: as many tokens as there are words
-- and, as the texts that are placed, the words.
pub placed-joined :
    (ws : List Word)
    → ArePlain ws
    → placed (count_tokens false (joined ws)) (cut false (joined ws) ++ 0 ∷ []) ≡ as_texts ws
placed-joined [] h = empty_lem
placed-joined (w ∷ []) (h, hs) =
    ap (λ n. placed n (cut false (text w) ++ 0 ∷ [])) (count_last w h)
    ∙ ap (λ l. placed 1 (l ++ 0 ∷ [])) (cut_last w h)
    ∙ placed-text w 0 [] h
placed-joined (w ∷ v ∷ ws) (h, hs) =
    let rest : List ℕ = joined (v ∷ ws) in
    let n : ℕ = count_tokens false rest in
    let tail : List ℕ = cut false rest ++ 0 ∷ [] in
    let counted : count_tokens false (joined (w ∷ v ∷ ws)) ≡ suc n =
      count_text w (space ∷ rest) h ∙ ap suc (count_space rest) in
    let split : cut false (joined (w ∷ v ∷ ws)) ++ 0 ∷ [] ≡ text w ++ 0 ∷ tail =
      ap (λ l. l ++ 0 ∷ []) (cut-text w (space ∷ rest) h ∙ ap (λ l. text w ++ l) (cut-space rest))
      ∙ append_assoc (text w) (0 ∷ cut false rest) (0 ∷ []) in
    ap (λ k. placed k (cut false (joined (w ∷ v ∷ ws)) ++ 0 ∷ [])) counted
    ∙ ap (λ l. placed (suc n) l) split
    ∙ placed-text w n tail h
    ∙ ap (λ l. text w ∷ l) (placed-joined (v ∷ ws) hs)
