-- ===== src/Text/Order.antt =====
-- JavaScript's `<` on strings, by code units, and the default `sort`.
use mathlib.Core.List.{Perm, Permᴰ}
use mathlib.Core.Logic.{∥∥₁_elim}
use ghoststake.Prelude.{◌≡◌, refl, ◌∙◌, Bool, true, false, List, [], ◌∷◌, arith, ltb, if◌then◌else◌}
use ghoststake.Text.{Text}

unfoldable pub text_ltb : Text → Text → Bool
text_ltb [] [] = false
text_ltb [] (d ∷ t) = true
text_ltb (c ∷ s) [] = false
text_ltb (c ∷ s) (d ∷ t) =
    let rest = text_ltb s t in if ltb c d then true else if ltb d c then false else rest

insert_text : Text → List Text → List Text
insert_text k [] = k ∷ []
insert_text k (x ∷ xs) =
    let rest = insert_text k xs in if text_ltb x k then x ∷ rest else k ∷ x ∷ xs

unfoldable pub sort_texts : List Text → List Text
unfolding insert_text
sort_texts [] = []
sort_texts (x ∷ xs) = insert_text x (sort_texts xs)

pub text_ltb_asym : (s t : Text) → text_ltb s t ≡ true → text_ltb t s ≡ false
unfolding text_ltb
text_ltb_asym [] [] h = refl
text_ltb_asym [] (d ∷ t) h = refl
text_ltb_asym (c ∷ s) [] h = cc
text_ltb_asym (c ∷ s) (d ∷ t) h = let rest = text_ltb_asym s t in ground arith

pub text_ltb_trans :
    (s t u : Text) → text_ltb s t ≡ true → text_ltb t u ≡ true → text_ltb s u ≡ true
unfolding text_ltb
text_ltb_trans [] [] u h k = k
text_ltb_trans [] (d ∷ t) [] h k = k
text_ltb_trans [] (d ∷ t) (e ∷ u) h k = refl
text_ltb_trans (c ∷ s) [] u h k = cc
text_ltb_trans (c ∷ s) (d ∷ t) [] h k = k
text_ltb_trans (c ∷ s) (d ∷ t) (e ∷ u) h k = let rest = text_ltb_trans s t u in ground arith

pub eq_of_not_text_ltb : (s t : Text) → text_ltb s t ≡ false → text_ltb t s ≡ false → s ≡ t
unfolding text_ltb
eq_of_not_text_ltb [] [] h k = refl
eq_of_not_text_ltb [] (d ∷ t) h k = cc
eq_of_not_text_ltb (c ∷ s) [] h k = cc
eq_of_not_text_ltb (c ∷ s) (d ∷ t) h k = let rest = eq_of_not_text_ltb s t in ground arith

insert_text_comm :
    (a b : Text) (xs : List Text)
    → insert_text a (insert_text b xs) ≡ insert_text b (insert_text a xs)
unfolding insert_text
insert_text_comm a b [] =
    let x = text_ltb_asym a b in let y = eq_of_not_text_ltb a b in ground arith
insert_text_comm a b (x ∷ xs) =
    let rest = insert_text_comm a b xs in
    let e = text_ltb_asym a b in
    let f = eq_of_not_text_ltb a b in
    let g = text_ltb_trans x a b in let h = text_ltb_trans x b a in ground arith

sort_texts_of_arranged : {xs ys : List Text} → Permᴰ xs ys → sort_texts xs ≡ sort_texts ys
unfolding sort_texts
sort_texts_of_arranged Permᴰ.nil = refl
sort_texts_of_arranged (Permᴰ.cons e p) = let rest = sort_texts_of_arranged p in cc
sort_texts_of_arranged (Permᴰ.swap {a} {b} {l = xs} e f) = insert_text_comm a b (sort_texts xs) ∙ cc
sort_texts_of_arranged (Permᴰ.trans p q) = sort_texts_of_arranged p ∙ sort_texts_of_arranged q

-- The default sort does not depend on the order that it was given.
pub sort_texts_of_perm : (xs ys : List Text) → Perm xs ys → sort_texts xs ≡ sort_texts ys
sort_texts_of_perm xs ys p =
    ∥∥₁_elim p (texts_set (sort_texts xs) (sort_texts ys)) sort_texts_of_arranged
  where
    texts_set : IsSet (List Text)
    texts_set = hlevel
