-- ===== src/Web/Parse.antt =====
-- `parseRequest` of src/CrossPointWebServer.cpp: a request from the socket. Its lines, words and headers are
-- taken apart by the same library calls as in src/WebServer.cpp, whose functions serve here.
use crosspoint_simulator_ios.Base.{
  ℕ, ◌||◌, List, [], ◌∷◌, ◌++◌, Option, none, some, if◌then◌else◌, ltb, Bytes, length, take,
}
use crosspoint_simulator_ios.Base.Search.{find}
use crosspoint_simulator_ios.Web.Path.{empty, normalize_path}
use crosspoint_simulator_ios.Web.Request.{Request, parse_query}
use crosspoint_simulator_ios.Web.Multipart.{crlf}
use crosspoint_simulator_ios.Http.Head.{
  lines, RequestHead, parse_request_line, body_length, target_parts,
}
use crosspoint_simulator_ios.Http.Receive.{Arrivals, max_head_size}

abbrev pub max_body_size : ℕ
max_body_size = 268435456

-- The loop up to the empty line; `none` is a failure, also when more than 1 MB have come.
unfoldable pub read_request_head : Bytes → Arrivals → Option (Bytes × Arrivals)
read_request_head raw [] = elim (find (crlf ++ crlf) raw) [
  | some found ↦ some (raw, [])
  | none ↦ none
]
read_request_head raw ([] ∷ s) = elim (find (crlf ++ crlf) raw) [
  | some found ↦ some (raw, [] ∷ s)
  | none ↦ none
]
read_request_head raw ((b ∷ bs) ∷ s) =
    let next = read_request_head (raw ++ (b ∷ bs)) s in
    elim (find (crlf ++ crlf) raw) [
      | some found ↦ some (raw, (b ∷ bs) ∷ s)
      | none ↦ if ltb max_head_size (length (raw ++ (b ∷ bs))) then none else next
    ]

-- The request line and the headers; a method and a target have to be there.
unfoldable pub request_head : List Bytes → Option RequestHead
request_head [] = none
request_head (l ∷ ls) =
    let h = parse_request_line l ls in
    if empty h.method_text || empty h.target then none else some h

-- The loop over the body, and the cut to the announced length.
unfoldable pub read_request_body : ℕ → Bytes → Arrivals → Option Bytes
read_request_body want body [] = if ltb (length body) want then none else some (take want body)
read_request_body want body ([] ∷ s) =
    if ltb (length body) want then none else some (take want body)
read_request_body want body ((b ∷ bs) ∷ s) =
    let next = read_request_body want (body ++ (b ∷ bs)) s in
    if ltb (length body) want then next else some (take want body)

-- What `parseRequest` makes of the head and the body.
unfoldable pub make_request : RequestHead → Bytes → Request
make_request h body =
    let parts = target_parts h.target in
    record {
      method = h.method_text;
      path = normalize_path parts.0;
      query = elim parts.1 [ none ↦ [] | some query ↦ parse_query query ];
      headers = h.headers;
      body = body;
    }

-- The body behind the head, with its first bytes.
unfoldable pub finish_request : RequestHead → Bytes → Arrivals → Option Request
finish_request h first s =
    if ltb max_body_size (body_length h)
    then none
    else elim (read_request_body (body_length h) first s) [
      | none ↦ none
      | some body ↦ some (make_request h body)
    ]

unfoldable pub parse_from : Option (Bytes × Arrivals) → Option Request
parse_from none = none
parse_from (some (raw, s)) = elim (find (crlf ++ crlf) raw) [
  | none ↦ none
  | some (head, first) ↦ elim (request_head (lines [] head)) [
    | none ↦ none
    | some h ↦ finish_request h first s
  ]
]

-- `parseRequest`
unfoldable pub parse_request : Arrivals → Option Request
parse_request s = parse_from (read_request_head [] s)
