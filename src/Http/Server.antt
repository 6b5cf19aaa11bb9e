-- ===== src/Http/Server.antt =====
-- `HttpConnection::process` of src/http_server/http_connection.cpp: from the text of a request to
-- the code of its answer. `alloc` is the memory that `new` gives for a size.
pub mod Delivery
use mqtt_server.Prelude.{ℕ, List, [], ◌∷◌, Option, none, some, Bool, true, false, if◌then◌else◌}
use mqtt_server.Prelude.Keyed.{same, find_key}
use mqtt_server.Broker.{M, ◌>>=◌, pure}
use mqtt_server.Broker.Notify.{Reactor}
use mqtt_server.Http.Publish.{Query, Complaint, topic_param, msg_param, value_or, buf_len}
use mqtt_server.Http.Headers.{Request, parse_headers}
use mqtt_server.Http.Request.{publish_request}

-- "/favicon.ico"
abbrev pub favicon_path : List ℕ
favicon_path = 47 ∷ 102 ∷ 97 ∷ 118 ∷ 105 ∷ 99 ∷ 111 ∷ 110 ∷ 46 ∷ 105 ∷ 99 ∷ 111 ∷ []

-- "/publish"
abbrev pub publish_path : List ℕ
publish_path = 47 ∷ 112 ∷ 117 ∷ 98 ∷ 108 ∷ 105 ∷ 115 ∷ 104 ∷ []

-- `m_http_response.code`, and the text of `error`, which goes into the body.
pub record Response : Type 0 where
  pub code : ℕ
  pub error : List Complaint

abbrev pub response_of : List Complaint → Response
response_of [] = record { code = 200; error = [] }
response_of (c ∷ cs) = record { code = 400; error = c ∷ cs }

-- The parameters of the request that give the size of the buffer.
abbrev pub request_size : Query → ℕ
request_size query =
    buf_len (value_or [] (find_key topic_param query)) (value_or [] (find_key msg_param query))

module _ (atoi : List ℕ → ℕ) (alloc : ℕ → List ℕ) (dup wake : Bool) where
  -- `none` is -1, without an answer.
  unfoldable pub answer : Bool → Request → Reactor → M (Option Response × Reactor)
  answer res req r =
      if same req.path favicon_path
      then pure (none, r)
      else if (if res then same req.path publish_path else false)
      then (do
        (errors, r') ← publish_request atoi dup wake (alloc (request_size req.query)) req.query r
        pure (some (response_of errors), r'))
      else pure (some (record { code = 404; error = [] }), r)

  unfoldable pub process : List ℕ → Reactor → M (Option Response × Reactor)
  process text r = elim (parse_headers text) [
    | none ↦ λ w. none
    | some (res, req) ↦ answer res req r
  ]
