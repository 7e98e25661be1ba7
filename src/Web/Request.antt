-- ===== src/Web/Request.antt =====
-- Requests of src/CrossPointWebServer.cpp: queries, forms, and the headers that the handlers read.
use crosspoint_simulator_ios.Base.{
  Bool, true, not, ◌&&◌, [], ◌∷◌, ◌++◌, Option, none, some, if◌then◌else◌, ◌==◌, leb, ◌+◌, Bytes,
  bytes_eq, map,
}
use crosspoint_simulator_ios.Base.Search.{Texts, find_text, split_at, find}
use crosspoint_simulator_ios.Base.Text.{codes}
use crosspoint_simulator_ios.Web.Decode.{url_decode}
use crosspoint_simulator_ios.Web.Path.{root, normalize_path}

-- One item of `parseQuery`.
unfoldable pub query_item : Bytes → Bytes × Bytes
query_item item = elim (split_at 61 item) [
  | none ↦ (url_decode item, [])
  | some (k, v) ↦ (url_decode k, url_decode v)
]

-- The loop of `parseQuery`, `item` having been read.
unfoldable pub query_items : Bytes → Bytes → Texts → Texts
query_items item [] out = query_item item ∷ out
query_items item (c ∷ cs) out =
    let next = query_items [] cs (query_item item ∷ out) in
    let more = query_items (item ++ (c ∷ [])) cs out in if c == 38 then next else more

-- `parseQuery`
unfoldable pub parse_query : Bytes → Texts
parse_query query = query_items [] query []

-- `Request`; a header's name is in lower case.
pub record Request : Type 0 where
  pub method : Bytes
  pub path : Bytes
  pub query : Texts
  pub headers : Texts
  pub body : Bytes

abbrev pub or_else : Option Bytes → Bytes → Bytes
or_else none fallback = fallback
or_else (some v) fallback = v

-- `queryValue`
unfoldable pub query_value : Request → Bytes → Bytes → Bytes
query_value req key fallback = or_else (find_text key req.query) fallback

-- `readFormValue`
unfoldable pub read_form_value : Bytes → Bytes → Bytes
read_form_value body key = or_else (find_text key (parse_query body)) []

-- `std::tolower` on a text.
abbrev pub lower : Bytes → Bytes
lower = map (λ c. if leb 65 c && leb c 90 then c + 32 else c)

-- `destinationPath`
unfoldable pub destination_path : Request → Bytes
destination_path req = elim (find_text (codes "destination") req.headers) [
  | none ↦ []
  | some header ↦
      let value : Bytes = elim (find (codes "://") header) [
        | none ↦ header
        | some (a, rest) ↦ elim (split_at 47 rest) [ none ↦ root | some (host, path) ↦ 47 ∷ path ]
      ] in
      elim (split_at 63 value) [ none ↦ normalize_path value | some (p, q) ↦ normalize_path p ]
]

-- `shouldOverwriteDestination`
unfoldable pub should_overwrite_destination : Request → Bool
should_overwrite_destination req = elim (find_text (codes "overwrite") req.headers) [
  | none ↦ true
  | some v ↦ not (bytes_eq (lower v) (codes "f"))
]
