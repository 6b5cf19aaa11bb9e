-- ===== src/Http/Headers/RoundTrip.antt =====
-- A request that is written out is read back.
use mqtt_server.Prelude.{
  ℕ, ◌≡◌, refl, sym, ap, ◌∙◌, arith, List, [], ◌∷◌, ◌++◌, Bool, true, false, ◌==◌, some, map,
  append_assoc, All,
}
use mqtt_server.Http.Text.{
  is_one_of, push_piece, split_from, split, is_space, trim, trim_front, trim_back,
}
use mqtt_server.Http.Text.Laws.{
  Without, split_from-last, split_from-next, trim-line, Without-weaken, Without-append,
}
use mqtt_server.Http.Publish.{Query}
use mqtt_server.Http.Headers.{
  Request, new_request, c_string, lines, at_question, read_query, request_line, parse_lines,
  more_lines, parse_headers,
}
use mqtt_server.Http.Headers.Words.{
  is_mark, Word, Word-Without, push-Word, no_lf, no_blank, no_space, no_zero, no_question,
  pair_text, query_text, WordPair, put_all, split-Word, split-params, read_query-pairs,
  query_text-Without,
}

at_question-path :
    (path params : List ℕ)
    → Without (λ x. x == 63) path
    → at_question (path ++ 63 ∷ params) ≡ (path, some params)
unfolding at_question
at_question-path [] params _ = refl
at_question-path (x ∷ xs) params (h, hs) = rw (h, at_question-path xs params hs) refl

-- `path?name=value&name=value`
abbrev pub target : (path : List ℕ) → List ℕ × List ℕ → Query → List ℕ
target path p ps = path ++ 63 ∷ query_text p ps

target-Without :
    (f : ℕ → Bool) (path : List ℕ) (p : List ℕ × List ℕ) (ps : Query)
    → ((x : ℕ) → is_mark x ≡ false → f x ≡ false)
    → All (λ x. f x ≡ false) (61 ∷ 38 ∷ 63 ∷ [])
    → Word path
    → WordPair p
    → All WordPair ps
    → Without f (target path p ps)
target-Without f path p ps weaker (equal, (also, (question, _))) hp h hs =
    Without-append f path (63 ∷ query_text p ps) (Without-weaken weaker path (Word-Without path hp))
      (question, query_text-Without f p ps weaker equal also h hs)

push-target :
    (path : List ℕ) (p : List ℕ × List ℕ) (ps : Query) (pieces : List (List ℕ))
    → Word path
    → push_piece (target path p ps) pieces ≡ target path p ps ∷ pieces
push-target [] p ps pieces h = absurd h
push-target (x ∷ xs) p ps pieces h = refl

-- The request line, without its end.
abbrev pub line_text :
    (method path : List ℕ) → List ℕ × List ℕ → Query → (version : List ℕ) → List ℕ
line_text method path p ps version = method ++ 32 ∷ (target path p ps ++ 32 ∷ version)

split-line :
    (method path : List ℕ) (p : List ℕ × List ℕ) (ps : Query) (version : List ℕ)
    → Word method
    → Word path
    → WordPair p
    → All WordPair ps
    → Word version
    → split (line_text method path p ps version) (32 ∷ []) 3
      ≡ method ∷ target path p ps ∷ version ∷ []
unfolding split
split-line method path p ps version hm hp h hs hv =
    split-Word (32 ∷ []) 3 method 32 (target path p ps ++ 32 ∷ version) no_blank hm refl refl
    ∙ ap (◌∷◌ method) (
        split_from-next (32 ∷ []) 2 [] (target path p ps) 32 version
          (target-Without _ path p ps no_blank (refl, (refl, (refl, tt))) hp h hs) refl
        ∙ push-target path p ps _ hp
        ∙ ap (◌∷◌ (target path p ps)) (
            split_from-last (32 ∷ []) 1 [] version
              (Without-weaken no_blank version (Word-Without version hv))
            ∙ push-Word version [] hv))

request_line-read :
    (method path : List ℕ) (p : List ℕ × List ℕ) (ps : Query) (version : List ℕ)
    → Word method
    → Word path
    → WordPair p
    → All WordPair ps
    → Word version
    → request_line (line_text method path p ps version) new_request
      ≡ (true, record { method = method; path = path; headers = []; query = put_all (p ∷ ps) [] })
unfolding request_line
request_line-read method path p ps version hm hp h hs hv =
    let found =
      at_question-path path (query_text p ps)
        (Without-weaken no_question path (Word-Without path hp)) in
    let params : read_query (split (query_text p ps) (38 ∷ []) 0) [] ≡ put_all (p ∷ ps) [] =
      ap (λ (l : List (List ℕ)). read_query l []) (split_params_lem)
      ∙ read_query-pairs (p ∷ ps) [] (h, hs) in
    rw (split-line method path p ps version hm hp h hs hv, found, params) refl
  where
    split_params_lem : split (query_text p ps) (38 ∷ []) 0 ≡ pair_text p ∷ map pair_text ps
    split_params_lem = split-params p ps h hs

c_string-Without : (xs : List ℕ) → Without (λ x. x == 0) xs → c_string xs ≡ xs
unfolding c_string
c_string-Without [] _ = refl
c_string-Without (x ∷ xs) (h, hs) = rw (h, c_string-Without xs hs) refl

line_text-Without :
    (f : ℕ → Bool) (method path : List ℕ) (p : List ℕ × List ℕ) (ps : Query) (version : List ℕ)
    → ((x : ℕ) → is_mark x ≡ false → f x ≡ false)
    → All (λ x. f x ≡ false) (32 ∷ 61 ∷ 38 ∷ 63 ∷ [])
    → Word method
    → Word path
    → WordPair p
    → All WordPair ps
    → Word version
    → Without f (line_text method path p ps version)
line_text-Without f method path p ps version weaker (blank, marks) hm hp h hs hv =
    Without-append f method (32 ∷ (target path p ps ++ 32 ∷ version))
      (Without-weaken weaker method (Word-Without method hm))
      (
        blank,
        Without-append f (target path p ps) (32 ∷ version)
            (target-Without f path p ps weaker marks hp h hs)
            (blank, Without-weaken weaker version (Word-Without version hv)),
      )

-- A request without headers and body.
abbrev pub request_text :
    (method path : List ℕ) → List ℕ × List ℕ → Query → (version : List ℕ) → List ℕ
request_text method path p ps version = line_text method path p ps version ++ 13 ∷ 10 ∷ 13 ∷ 10 ∷ []

lines-request :
    (x : ℕ) (xs : List ℕ)
    → Without (λ y. y == 0) (x ∷ xs)
    → Without (is_one_of (10 ∷ [])) (x ∷ xs)
    → lines (x ∷ xs ++ 13 ∷ 10 ∷ 13 ∷ 10 ∷ []) ≡ (x ∷ xs ++ 13 ∷ []) ∷ (13 ∷ []) ∷ []
unfolding lines split_from
lines-request x xs zeros feeds =
    let l = x ∷ xs in
    let whole =
      c_string-Without (l ++ 13 ∷ 10 ∷ 13 ∷ 10 ∷ [])
        (Without-append _ l (13 ∷ 10 ∷ 13 ∷ 10 ∷ []) zeros (refl, (refl, (refl, (refl, tt))))) in
    let apart : l ++ 13 ∷ 10 ∷ 13 ∷ 10 ∷ [] ≡ (l ++ 13 ∷ []) ++ 10 ∷ 13 ∷ 10 ∷ [] =
      sym (append_assoc l (13 ∷ []) (10 ∷ 13 ∷ 10 ∷ [])) in
    ap (λ (s : List ℕ). split s (10 ∷ []) 0) (whole ∙ apart)
    ∙ split_from-next (10 ∷ []) 0 [] (l ++ 13 ∷ []) 10 (13 ∷ 10 ∷ [])
        (Without-append _ l (13 ∷ []) feeds (refl, tt)) refl

trim-request :
    (x : ℕ) (xs rest : List ℕ) (v : ℕ) (vs : List ℕ)
    → is_space x ≡ false
    → Without is_space (v ∷ vs)
    → trim ((x ∷ xs ++ (rest ++ 32 ∷ v ∷ vs)) ++ 13 ∷ []) ≡ x ∷ xs ++ (rest ++ 32 ∷ v ∷ vs)
trim-request x xs rest v vs hx hv =
    let pre = xs ++ (rest ++ 32 ∷ []) in
    let before : (x ∷ xs ++ (rest ++ 32 ∷ v ∷ vs)) ++ 13 ∷ [] ≡ x ∷ pre ++ (v ∷ vs ++ 13 ∷ []) =
      simp append_assoc in
    let after : x ∷ pre ++ v ∷ vs ≡ x ∷ xs ++ (rest ++ 32 ∷ v ∷ vs) = simp append_assoc in
    ap trim before ∙ trim-line x pre v vs (13 ∷ []) hx hv (refl, tt) ∙ after

more_lines-blank : (req : Request) → more_lines ((13 ∷ []) ∷ []) req ≡ some req
unfolding more_lines trim trim_front trim_back
more_lines-blank req = refl

parse_lines-first :
    (raw : List ℕ) (x : ℕ) (xs : List ℕ) (req : Request)
    → trim raw ≡ x ∷ xs
    → request_line (x ∷ xs) new_request ≡ (true, req)
    → parse_lines (raw ∷ (13 ∷ []) ∷ []) new_request ≡ some (true, req)
unfolding parse_lines
parse_lines-first raw x xs req t r = ground (arith, t, r, more_lines-blank req)

-- A request whose method, path and version are words, with a parameter at least whose names and
-- values are words, is read to its method, its path and its parameters, of which the last of a
-- name counts. A word has a byte, and no zero, space, `=`, `&` or `?`.
pub parse_headers-request_text :
    (method path : List ℕ) (p : List ℕ × List ℕ) (ps : Query) (version : List ℕ)
    → Word method
    → Word path
    → WordPair p
    → All WordPair ps
    → Word version
    → parse_headers (request_text method path p ps version)
      ≡ some
          (true, record { method = method; path = path; headers = []; query = put_all (p ∷ ps) [] })
unfolding parse_headers
parse_headers-request_text [] path p ps version hm hp h hs hv = absurd hm
parse_headers-request_text (x ∷ xs) path p ps [] hm hp h hs hv = absurd hv
parse_headers-request_text (x ∷ xs) path p ps (v ∷ vs) hm hp h hs hv =
    let apart =
      lines-request x (xs ++ 32 ∷ (target path p ps ++ 32 ∷ v ∷ vs))
        (line_text-Without _ (x ∷ xs) path p ps (v ∷ vs) no_zero (refl, (refl, (refl, (refl, tt))))
          hm hp h hs hv)
        (line_text-Without _ (x ∷ xs) path p ps (v ∷ vs) no_lf (refl, (refl, (refl, (refl, tt)))) hm
          hp h hs hv) in
    let trimmed =
      trim-request x xs (32 ∷ target path p ps) v vs (no_space x hm.0)
        (Without-weaken no_space (v ∷ vs) hv) in
    ap (λ (l : List (List ℕ)). parse_lines l new_request) apart
    ∙ parse_lines-first _ x (xs ++ 32 ∷ (target path p ps ++ 32 ∷ v ∷ vs)) _ trimmed
        (request_line-read (x ∷ xs) path p ps (v ∷ vs) hm hp h hs hv)
