-- ===== src/Http/Headers/Words.antt =====
-- The words of a request, and the text of its parameters, which `split` takes apart again.
use mqtt_server.Prelude.{
  ℕ, ◌-◌, ◌≡◌, refl, ap, ◌∙◌, arith, List, [], ◌∷◌, ◌++◌, Bool, true, false, ◌==◌, ◌||◌, map, All,
}
use mqtt_server.Prelude.Keyed.{put_key}
use mqtt_server.Http.Text.{is_one_of, push_piece, split_from, split, is_space}
use mqtt_server.Http.Text.Laws.{
  Without, split_from-last, split_from-next, Without-weaken, Without-append,
}
use mqtt_server.Http.Publish.{Query}
use mqtt_server.Http.Headers.{read_query, put_pair}

-- The bytes that a request is laid out with: a zero, the spaces, `=`, `&` and `?`.
abbrev pub is_mark : ℕ → Bool
is_mark ch = ch == 0 || (is_space ch || (ch == 61 || (ch == 38 || ch == 63)))

-- A word has a byte, and no mark.
abbrev pub Word : List ℕ → Type 0
Word [] = ⊥
Word (x ∷ xs) = Without is_mark (x ∷ xs)

pub Word-Without : (w : List ℕ) → Word w → Without is_mark w
Word-Without [] h = absurd h
Word-Without (x ∷ xs) h = h

pub push-Word : (w : List ℕ) (pieces : List (List ℕ)) → Word w → push_piece w pieces ≡ w ∷ pieces
push-Word [] pieces h = absurd h
push-Word (x ∷ xs) pieces h = refl

pub no_lf : (x : ℕ) → is_mark x ≡ false → is_one_of (10 ∷ []) x ≡ false
no_lf x h = ground arith

pub no_blank : (x : ℕ) → is_mark x ≡ false → is_one_of (32 ∷ []) x ≡ false
no_blank x h = ground arith

no_and : (x : ℕ) → is_mark x ≡ false → is_one_of (38 ∷ []) x ≡ false
no_and x h = ground arith

no_equal : (x : ℕ) → is_mark x ≡ false → is_one_of (61 ∷ []) x ≡ false
no_equal x h = ground arith

pub no_space : (x : ℕ) → is_mark x ≡ false → is_space x ≡ false
no_space x h = ground arith

pub no_zero : (x : ℕ) → is_mark x ≡ false → (x == 0) ≡ false
no_zero x h = ground arith

pub no_question : (x : ℕ) → is_mark x ≡ false → (x == 63) ≡ false
no_question x h = ground arith

abbrev pub pair_text : List ℕ × List ℕ → List ℕ
pair_text (name, value) = name ++ 61 ∷ value

-- `name=value&name=value`
abbrev pub query_text : List ℕ × List ℕ → Query → List ℕ
query_text p [] = pair_text p
query_text p (q ∷ qs) = pair_text p ++ 38 ∷ query_text q qs

abbrev pub WordPair : List ℕ × List ℕ → Type 0
WordPair (name, value) = Word name × Word value

abbrev pub put_all : Query → Query → Query
put_all [] query = query
put_all ((name, value) ∷ ps) query = put_all ps (put_key name value query)

-- The first word, a blank and the rest of the line.
pub split-Word :
    (separator : List ℕ) (left : ℕ) (w : List ℕ) (s : ℕ) (str : List ℕ)
    → ((x : ℕ) → is_mark x ≡ false → is_one_of separator x ≡ false)
    → Word w
    → is_one_of separator s ≡ true
    → (left == 1) ≡ false
    → split_from separator left [] (w ++ s ∷ str) ≡ w ∷ split_from separator (left - 1) [] str
split-Word separator left w s str free word is_sep more =
    split_from-next separator left [] w s str (Without-weaken free w (Word-Without w word)) is_sep
    ∙ push-Word w _ word
    ∙ ap (◌∷◌ w) (rw more refl)

split-pair : (p : List ℕ × List ℕ) → WordPair p → split (pair_text p) (61 ∷ []) 0 ≡ p.0 ∷ p.1 ∷ []
unfolding split
split-pair (name, value) (hn, hv) =
    split-Word (61 ∷ []) 0 name 61 value no_equal hn refl refl
    ∙ ap (◌∷◌ name) (
        split_from-last (61 ∷ []) 0 [] value (Without-weaken no_equal value (Word-Without value hv))
        ∙ push-Word value [] hv)

pair_text-Without :
    (f : ℕ → Bool) (p : List ℕ × List ℕ)
    → ((x : ℕ) → is_mark x ≡ false → f x ≡ false)
    → f 61 ≡ false
    → WordPair p
    → Without f (pair_text p)
pair_text-Without f (name, value) weaker equal (hn, hv) =
    Without-append f name (61 ∷ value) (Without-weaken weaker name (Word-Without name hn))
      (equal, Without-weaken weaker value (Word-Without value hv))

push-pair :
    (p : List ℕ × List ℕ) (pieces : List (List ℕ))
    → WordPair p
    → push_piece (pair_text p) pieces ≡ pair_text p ∷ pieces
push-pair ([], value) pieces h = absurd (h.0)
push-pair (x ∷ xs, value) pieces h = refl

pub split-params :
    (p : List ℕ × List ℕ) (ps : Query)
    → WordPair p
    → All WordPair ps
    → split_from (38 ∷ []) 0 [] (query_text p ps) ≡ pair_text p ∷ map pair_text ps
split-params p [] h _ =
    split_from-last (38 ∷ []) 0 [] (pair_text p) (pair_text-Without _ p no_and refl h)
    ∙ push-pair p [] h
split-params p (q ∷ qs) h (hq, hs) =
    split_from-next (38 ∷ []) 0 [] (pair_text p) 38 (query_text q qs)
      (pair_text-Without _ p no_and refl h) refl
    ∙ push-pair p _ h
    ∙ ap (◌∷◌ (pair_text p)) (split-params q qs hq hs)

pub read_query-pairs :
    (ps query : Query) → All WordPair ps → read_query (map pair_text ps) query ≡ put_all ps query
unfolding read_query
read_query-pairs [] query _ = refl
read_query-pairs ((name, value) ∷ ps) query (h, hs) =
    ap (λ (l : List (List ℕ)). read_query (map pair_text ps) (put_pair l query))
      (split-pair (name, value) h)
    ∙ read_query-pairs ps (put_key name value query) hs

pub query_text-Without :
    (f : ℕ → Bool) (p : List ℕ × List ℕ) (ps : Query)
    → ((x : ℕ) → is_mark x ≡ false → f x ≡ false)
    → f 61 ≡ false
    → f 38 ≡ false
    → WordPair p
    → All WordPair ps
    → Without f (query_text p ps)
query_text-Without f p [] weaker equal also h _ = pair_text-Without f p weaker equal h
query_text-Without f p (q ∷ qs) weaker equal also h (hq, hs) =
    Without-append f (pair_text p) (38 ∷ query_text q qs) (pair_text-Without f p weaker equal h)
      (also, query_text-Without f q qs weaker equal also hq hs)
