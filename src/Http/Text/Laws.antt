-- ===== src/Http/Text/Laws.antt =====
-- Texts that are laid out with separators are split and trimmed again.
use mqtt_server.Prelude.{
  ℕ, ◌-◌, ◌≡◌, refl, sym, ap, ◌∙◌, List, [], ◌∷◌, ◌++◌, Bool, true, false, ◌==◌, append_assoc,
  append-nil, All, if◌then◌else◌,
}
use mqtt_server.Http.Text.{
  is_one_of, push_piece, split_from, is_space, trim_front, keep_last, trim_back, trim,
}

-- No byte of the text passes the test.
abbrev pub Without : (ℕ → Bool) → List ℕ → Type 0
Without f xs = All (λ x. f x ≡ false) xs

pub split_from-last :
    (separator : List ℕ) (left : ℕ) (piece xs : List ℕ)
    → Without (is_one_of separator) xs
    → split_from separator left piece xs ≡ push_piece (piece ++ xs) []
unfolding split_from
split_from-last separator left piece [] _ =
    ap (λ (l : List ℕ). push_piece l []) (sym (append-nil piece))
split_from-last separator left piece (x ∷ xs) (not_sep, rest) = rw not_sep (
    split_from-last separator left (piece ++ x ∷ []) xs rest
    ∙ ap (λ (l : List ℕ). push_piece l []) (append_assoc piece (x ∷ []) xs))

pub split_from-next :
    (separator : List ℕ) (left : ℕ) (piece xs : List ℕ) (s : ℕ) (str : List ℕ)
    → Without (is_one_of separator) xs
    → is_one_of separator s ≡ true
    → split_from separator left piece (xs ++ s ∷ str)
      ≡ push_piece
          (piece ++ xs)
          (if left == 1 then push_piece str [] else split_from separator (left - 1) [] str)
unfolding split_from
split_from-next separator left piece [] s str _ is_sep = rw (is_sep, append-nil piece) refl
split_from-next separator left piece (x ∷ xs) s str (not_sep, rest) is_sep = rw not_sep (
    split_from-next separator left (piece ++ x ∷ []) xs s str rest is_sep
    ∙ ap
        (λ (l : List ℕ).
          push_piece l
            (if left == 1 then push_piece str [] else split_from separator (left - 1) [] str))
        (append_assoc piece (x ∷ []) xs))

trim_back-All : (f : ℕ → Bool) (xs : List ℕ) → All (λ x. f x ≡ true) xs → trim_back f xs ≡ []
unfolding trim_back
trim_back-All f [] _ = refl
trim_back-All f (x ∷ xs) (h, hs) = rw (trim_back-All f xs hs, h) refl

keep-cons : (b : Bool) (x c : ℕ) (cs : List ℕ) → keep_last b x (c ∷ cs) ≡ x ∷ c ∷ cs
keep-cons true x c cs = refl
keep-cons false x c cs = refl

-- Behind its last byte that is no space a text is cut off, whatever stands before that byte.
trim_back-prefix :
    (f : ℕ → Bool) (xs t : List ℕ) (c : ℕ) (cs : List ℕ)
    → trim_back f t ≡ c ∷ cs
    → trim_back f (xs ++ t) ≡ xs ++ c ∷ cs
unfolding trim_back
trim_back-prefix f [] t c cs h = h
trim_back-prefix f (x ∷ []) t c cs h = rw h (keep-cons (f x) x c cs)
trim_back-prefix f (x ∷ y ∷ ys) t c cs h =
    rw (trim_back-prefix f (y ∷ ys) t c cs h) (keep-cons (f x) x y (ys ++ c ∷ cs))

trim_back-Without :
    (f : ℕ → Bool) (v : ℕ) (vs t : List ℕ)
    → Without f (v ∷ vs)
    → All (λ x. f x ≡ true) t
    → trim_back f (v ∷ vs ++ t) ≡ v ∷ vs
unfolding trim_back
trim_back-Without f v [] t (h, _) ht = rw (trim_back-All f t ht, h) refl
trim_back-Without f v (u ∷ us) t (h, hs) ht =
    rw (trim_back-Without f u us t hs ht) (keep-cons (f v) v u us)

-- A line that starts with a byte that is no space, and ends with a word before the spaces `t`.
pub trim-line :
    (x : ℕ) (xs : List ℕ) (v : ℕ) (vs t : List ℕ)
    → is_space x ≡ false
    → Without is_space (v ∷ vs)
    → All (λ y. is_space y ≡ true) t
    → trim (x ∷ xs ++ (v ∷ vs ++ t)) ≡ x ∷ xs ++ v ∷ vs
unfolding trim trim_front
trim-line x xs v vs t hx hv ht = rw hx (
    trim_back-prefix is_space (x ∷ xs) (v ∷ vs ++ t) v vs (trim_back-Without is_space v vs t hv ht))

module _ {f g : ℕ → Bool} (weaker : (x : ℕ) → f x ≡ false → g x ≡ false) where
  pub Without-weaken : (xs : List ℕ) → Without f xs → Without g xs
  Without-weaken [] _ = tt
  Without-weaken (x ∷ xs) (h, hs) = (weaker x h, Without-weaken xs hs)

pub Without-append :
    (f : ℕ → Bool) (xs ys : List ℕ) → Without f xs → Without f ys → Without f (xs ++ ys)
Without-append f [] ys _ h = h
Without-append f (x ∷ xs) ys (h, hs) k = (h, Without-append f xs ys hs k)
