-- ===== src/Http/Text.antt =====
-- The functions on texts of src/WebServer.cpp: percent-encoding, status lines, methods, arguments.
use crosspoint_simulator_ios.Base.{
  ℕ, zero, suc, ◌+◌, ◌-◌, ◌*◌, ◌/◌, ◌%◌, ltb, ◌&&◌, List, [], ◌∷◌, ◌++◌, Option, none, some,
  if◌then◌else◌, leb, ◌==◌, Bytes, bytes_eq,
}
use crosspoint_simulator_ios.Base.Search.{Texts, lowered, is_space, split_at}
use crosspoint_simulator_ios.Base.Text.{codes}

-- `lower`
unfoldable pub lower : Bytes → Bytes
lower value = lowered value

unfoldable pub trim_front : Bytes → Bytes
trim_front [] = []
trim_front (c ∷ cs) = let rest = trim_front cs in if is_space c then rest else c ∷ cs

unfoldable pub trim_back : Bytes → Bytes
trim_back [] = []
trim_back (c ∷ cs) = elim (trim_back cs) [
  | [] ↦ if is_space c then [] else c ∷ []
  | d ∷ ds ↦ c ∷ d ∷ ds
]

-- `trim`
unfoldable pub trim : Bytes → Bytes
trim value = trim_back (trim_front value)

-- `hexValue`; `none` is -1.
unfoldable pub hex_value : ℕ → Option ℕ
hex_value c =
    if leb 48 c && leb c 57
    then some (c - 48)
    else if leb 97 c && leb c 102
    then some (c - 97 + 10)
    else if leb 65 c && leb c 70
    then some (c - 65 + 10)
    else none

abbrev pub plus_to_space : ℕ → ℕ
plus_to_space c = if c == 43 then 32 else c

-- `urlDecodeStd`
unfoldable pub url_decode : Bytes → Bytes
url_decode [] = []
url_decode (c ∷ []) = plus_to_space c ∷ []
url_decode (c ∷ d ∷ []) = plus_to_space c ∷ plus_to_space d ∷ []
url_decode (c ∷ d ∷ e ∷ cs) =
    let decoded = url_decode cs in
    let kept = url_decode (d ∷ e ∷ cs) in
    if c == 37
    then elim (hex_value d) [
      | none ↦ c ∷ kept
      | some hi ↦ elim (hex_value e) [ none ↦ c ∷ kept | some lo ↦ (hi * 16 + lo) ∷ decoded ]
    ]
    else plus_to_space c ∷ kept

-- `reasonForStatus`
unfoldable pub reason_for_status : ℕ → Bytes
reason_for_status status =
    if status == 200
    then codes "OK"
    else if status == 201
    then codes "Created"
    else if status == 204
    then codes "No Content"
    else if status == 207
    then codes "Multi-Status"
    else if status == 400
    then codes "Bad Request"
    else if status == 403
    then codes "Forbidden"
    else if status == 404
    then codes "Not Found"
    else if status == 405
    then codes "Method Not Allowed"
    else if status == 409
    then codes "Conflict"
    else if status == 412
    then codes "Precondition Failed"
    else if status == 413
    then codes "Payload Too Large"
    else if status == 415
    then codes "Unsupported Media Type"
    else if status == 500
    then codes "Internal Server Error"
    else if status == 501
    then codes "Not Implemented"
    else codes "OK"

-- `HTTPMethod`
pub data HttpMethod : Type 0 where
  get post put patch delete options propfind head mkcol move copy lock unlock any : HttpMethod

-- The texts that `methodFromString` knows, in its order.
abbrev pub methods : List (Bytes × HttpMethod)
methods =
    (codes "GET", get)
    ∷ (codes "POST", post)
    ∷ (codes "PUT", put)
    ∷ (codes "PATCH", patch)
    ∷ (codes "DELETE", delete)
    ∷ (codes "OPTIONS", options)
    ∷ (codes "PROPFIND", propfind)
    ∷ (codes "HEAD", head)
    ∷ (codes "MKCOL", mkcol)
    ∷ (codes "MOVE", move)
    ∷ (codes "COPY", copy)
    ∷ (codes "LOCK", lock)
    ∷ (codes "UNLOCK", unlock)
    ∷ []

unfoldable pub method_among : List (Bytes × HttpMethod) → Bytes → HttpMethod
method_among [] text = any
method_among ((name, m) ∷ ms) text = if bytes_eq text name then m else method_among ms text

-- `methodFromString`
unfoldable pub method_from_string : Bytes → HttpMethod
method_from_string text = method_among methods text

-- One item of `parseArgs`.
unfoldable pub arg_item : Bytes → Texts
arg_item [] = []
arg_item (c ∷ cs) = elim (split_at 61 (c ∷ cs)) [
  | none ↦ (url_decode (c ∷ cs), []) ∷ []
  | some (k, v) ↦ (url_decode k, url_decode v) ∷ []
]

-- The loop of `parseArgs`, `item` having been read.
unfoldable pub arg_items : Bytes → Bytes → Texts
arg_items item [] = arg_item item
arg_items item (c ∷ cs) =
    let next = arg_items [] cs in
    let more = arg_items (item ++ (c ∷ [])) cs in if c == 38 then arg_item item ++ next else more

-- `parseArgs`: the arguments that it appends.
unfoldable pub parse_args : Bytes → Texts
parse_args encoded = arg_items [] encoded

-- What `operator<<` writes for an unsigned number, with one round of fuel for each digit.
unfoldable pub digits : ℕ → ℕ → Bytes → Bytes
digits zero n out = out
digits (suc fuel) n out =
    let rest = digits fuel (n / 10) ((48 + n % 10) ∷ out) in
    if ltb n 10 then (48 + n) ∷ out else rest

unfoldable pub decimal : ℕ → Bytes
decimal n = digits (suc n) n []
