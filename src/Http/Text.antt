-- ===== src/Http/Text.antt =====
-- `split`, `trim` and `remove_space` of src/common/str_tools.cpp. A text is the list of its bytes.
pub mod Laws
use mqtt_server.Prelude.{
  ℕ, ◌+◌, ◌-◌, List, [], ◌∷◌, ◌++◌, Bool, true, false, ◌==◌, ◌&&◌, ◌||◌, leb, if◌then◌else◌,
}

abbrev pub is_one_of : List ℕ → ℕ → Bool
is_one_of [] ch = false
is_one_of (s ∷ separators) ch = s == ch || is_one_of separators ch

-- A piece that is empty is left out.
abbrev pub push_piece : List ℕ → List (List ℕ) → List (List ℕ)
push_piece [] pieces = pieces
push_piece (ch ∷ piece) pieces = (ch ∷ piece) ∷ pieces

-- The loop of `split` with the piece so far. `left` counts the separators that are still looked
-- for, and 0 is no bound; what is behind the last of them is one piece.
unfoldable pub split_from : (separator : List ℕ) → (left : ℕ) → (piece str : List ℕ) → List (List ℕ)
split_from separator left piece [] = push_piece piece []
split_from separator left piece (ch ∷ str) =
    let next = split_from separator (left - 1) [] str in
    let rest = if left == 1 then push_piece str [] else next in
    let longer = split_from separator left (piece ++ ch ∷ []) str in
    if is_one_of separator ch then push_piece piece rest else longer

-- `split(str, separator, max, results)`: a `max` that is 0 or negative is no bound.
unfoldable pub split : (str separator : List ℕ) → (max : ℕ) → List (List ℕ)
split str separator max = split_from separator max [] str

-- `isspace`
abbrev pub is_space : ℕ → Bool
is_space ch = ch == 32 || (leb 9 ch && leb ch 13)

unfoldable pub trim_front : (ℕ → Bool) → List ℕ → List ℕ
trim_front f [] = []
trim_front f (ch ∷ s) = let rest = trim_front f s in if f ch then rest else ch ∷ s

abbrev pub keep_last : Bool → ℕ → List ℕ → List ℕ
keep_last true ch [] = []
keep_last false ch [] = ch ∷ []
keep_last drops ch (c ∷ cs) = ch ∷ c ∷ cs

unfoldable pub trim_back : (ℕ → Bool) → List ℕ → List ℕ
trim_back f [] = []
trim_back f (ch ∷ s) = keep_last (f ch) ch (trim_back f s)

unfoldable pub trim : List ℕ → List ℕ
trim s = trim_back is_space (trim_front is_space s)

-- The source does not look at a text of spaces only.
unfoldable pub remove_space : List ℕ → List ℕ
remove_space s = trim_back (λ ch. ch == 32) (trim_front (λ ch. ch == 32) s)
