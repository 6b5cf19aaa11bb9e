-- ===== src/Http/Headers.antt =====
-- `HttpConnection::parse_headers` of src/http_server/http_connection.cpp: the request line, the
-- header lines and the lines of a POST body. A text ends at its first zero byte, and `strtok`
-- leaves out empty lines. Reading a piece that is not there has no result.
pub mod Words
pub mod RoundTrip
use mqtt_server.Prelude.{
  ℕ, List, [], ◌∷◌, Option, none, some, Bool, true, false, ◌==◌, if◌then◌else◌,
}
use mqtt_server.Prelude.Keyed.{same, put_key}
use mqtt_server.Http.Text.{split, trim, remove_space}
use mqtt_server.Http.Publish.{Query}

-- HTTPRequest; nothing sets its other fields.
pub record Request : Type 0 where
  pub method : List ℕ
  pub path : List ℕ
  pub headers : List (List ℕ × List ℕ)
  pub query : Query

abbrev pub new_request : Request
new_request = record { method = []; path = []; headers = []; query = [] }

-- "POST"
abbrev pub post : List ℕ
post = 80 ∷ 79 ∷ 83 ∷ 84 ∷ []

unfoldable pub c_string : List ℕ → List ℕ
c_string [] = []
c_string (ch ∷ s) = let rest = c_string s in if ch == 0 then [] else ch ∷ rest

unfoldable pub lines : List ℕ → List (List ℕ)
unfolding c_string split
lines s = split (c_string s) (10 ∷ []) 0

-- `find('?')`: what is before it, and what is behind it if it is there.
unfoldable pub at_question : List ℕ → List ℕ × Option (List ℕ)
at_question [] = ([], none)
at_question (ch ∷ s) =
    let (before, behind) = at_question s in if ch == 63 then ([], some s) else (ch ∷ before, behind)

-- The parameters of a path: one that is not `name=value` is left out.
abbrev pub put_pair : List (List ℕ) → Query → Query
put_pair (name ∷ value ∷ []) query = put_key name value query
put_pair _ query = query

unfoldable pub read_query : List (List ℕ) → Query → Query
read_query [] query = query
read_query (pair ∷ pairs) query = read_query pairs (put_pair (split pair (61 ∷ []) 0) query)

abbrev pub with_path : Request → List ℕ × Option (List ℕ) → Request
with_path req (before, some params) = record req {
  path = before;
  query = read_query (split params (38 ∷ []) 0) req.query;
}
with_path req (before, none) =
    if same req.method post then record req { path = remove_space req.path } else req

-- `R.size() != 3` answers -1, which is `false`.
abbrev pub with_words : List (List ℕ) → Request → Bool × Request
with_words (method ∷ path ∷ version ∷ []) req =
    (true, with_path (record req { method = method; path = path }) (at_question path))
with_words _ req = (false, req)

unfoldable pub request_line : List ℕ → Request → Bool × Request
unfolding split at_question read_query remove_space
request_line line req = with_words (split line (32 ∷ []) 3) req

-- The parameters of a POST body: `data[0]` and `data[1]`, which must be there.
abbrev pub put_data : List (List ℕ) → Query → Option Query
put_data (name ∷ value ∷ _) query = some (put_key name value query)
put_data _ query = none

unfoldable pub read_body : List (List ℕ) → Query → Option Query
read_body [] query = some query
read_body (pair ∷ pairs) query = elim (put_data (split pair (61 ∷ []) 2) query) [
  | none ↦ none
  | some q ↦ read_body pairs q
]

abbrev pub body_line : List ℕ → Request → Option Request
body_line line req =
    if same req.method post
    then elim (read_body (split line (38 ∷ []) 3) req.query) as (λ _. Option Request) [
      | none ↦ none
      | some q ↦ some (record req { query = q })
    ]
    else some req

-- A line behind the first one: of two pieces it is a header, whatever line it is.
abbrev pub with_pieces : List ℕ → List (List ℕ) → Request → Option Request
with_pieces line (name ∷ value ∷ []) req =
    some (record req { headers = put_key name value req.headers })
with_pieces line _ req = body_line line req

unfoldable pub header_line : List ℕ → Request → Option Request
unfolding split read_body
header_line line req = with_pieces line (split line (58 ∷ 32 ∷ []) 2) req

-- The lines behind the request line.
unfoldable pub more_lines : List (List ℕ) → Request → Option Request
more_lines [] req = some req
more_lines (line ∷ rest) req = elim (trim line) [
  | [] ↦ more_lines rest req
  | ch ∷ s ↦ elim (header_line (ch ∷ s) req) [ none ↦ none | some req' ↦ more_lines rest req' ]
]

abbrev pub after_first : Bool × Request → (Request → Option Request) → Option (Bool × Request)
after_first (false, req) more = some (false, req)
after_first (true, req) more = elim (more req) [ none ↦ none | some req' ↦ some (true, req') ]

-- `i` is 0 as long as no line was taken for the request line.
unfoldable pub parse_lines : List (List ℕ) → Request → Option (Bool × Request)
parse_lines [] req = some (true, req)
parse_lines (line ∷ rest) req = elim (trim line) [
  | [] ↦ parse_lines rest req
  | ch ∷ s ↦ after_first (request_line (ch ∷ s) req) (more_lines rest)
]

unfoldable pub parse_headers : List ℕ → Option (Bool × Request)
unfolding lines parse_lines more_lines request_line header_line trim
parse_headers text = parse_lines (lines text) new_request
