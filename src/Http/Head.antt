-- ===== src/Http/Head.antt =====
-- The head of a request in src/WebServer.cpp: the request line and the headers, from the text up to the
-- empty line.
use crosspoint_simulator_ios.Base.{
  ℕ, ◌+◌, ◌-◌, ◌*◌, ◌%◌, ◌^◌, Bool, true, false, ◌&&◌, ◌||◌, List, [], ◌∷◌, ◌++◌, Option, none,
  some, if◌then◌else◌, leb, ltb, ◌==◌, Bytes, bytes_eq,
}
use crosspoint_simulator_ios.Base.Search.{c_str, Texts, find_text, is_space, split_at}
use crosspoint_simulator_ios.Base.Text.{codes}
use crosspoint_simulator_ios.Http.Text.{lower, trim, url_decode, parse_args, method_from_string}
use crosspoint_simulator_ios.Http.State.{Connection, reset_request}

-- The lines that `std::getline` gives, `line` having been read.
unfoldable pub lines : Bytes → Bytes → List Bytes
lines [] [] = []
lines (l ∷ ls) [] = (l ∷ ls) ∷ []
lines line (c ∷ cs) =
    let next = lines [] cs in
    let more = lines (line ++ (c ∷ [])) cs in if c == 10 then line ∷ next else more

unfoldable pub drop_cr : Bytes → Bytes
drop_cr [] = []
drop_cr (c ∷ []) = if c == 13 then [] else c ∷ []
drop_cr (c ∷ d ∷ cs) = c ∷ drop_cr (d ∷ cs)

unfoldable pub skip_space : Bytes → Bytes
skip_space [] = []
skip_space (c ∷ cs) = let rest = skip_space cs in if is_space c then rest else c ∷ cs

unfoldable pub word : Bytes → Bytes × Bytes
word [] = ([], [])
word (c ∷ cs) = let rest = word cs in if is_space c then ([], c ∷ cs) else (c ∷ rest.0, rest.1)

-- `stream >> text`: the next word, and what is behind it.
unfoldable pub next_word : Bytes → Bytes × Bytes
next_word text = word (skip_space text)

-- The order of the keys of a `std::map<std::string, …>`.
unfoldable pub bytes_lt : Bytes → Bytes → Bool
bytes_lt [] [] = false
bytes_lt [] (y ∷ ys) = true
bytes_lt (x ∷ xs) [] = false
bytes_lt (x ∷ xs) (y ∷ ys) = ltb x y || ((x == y) && bytes_lt xs ys)

-- `headers[key] = value`
unfoldable pub set_header : Bytes → Bytes → Texts → Texts
set_header key value [] = (key, value) ∷ []
set_header key value ((k, v) ∷ hs) =
    let rest = set_header key value hs in
    if bytes_eq k key
    then (key, value) ∷ hs
    else if bytes_lt key k
    then (key, value) ∷ (k, v) ∷ hs
    else (k, v) ∷ rest

-- One round of the loop over the header lines; a line without a colon is skipped.
unfoldable pub add_header_line : Bytes → Texts → Texts
add_header_line line hs = elim (split_at 58 (drop_cr line)) [
  | none ↦ hs
  | some (name, value) ↦ set_header (lower name) (trim value) hs
]

unfoldable pub parse_headers : List Bytes → Texts → Texts
parse_headers [] hs = hs
parse_headers (l ∷ ls) hs = parse_headers ls (add_header_line l hs)

-- The value of the digits in front of a text.
unfoldable pub digits_value : ℕ → Bytes → ℕ
digits_value acc [] = acc
digits_value acc (c ∷ cs) =
    let rest = digits_value (acc * 10 + (c - 48)) cs in if leb 48 c && leb c 57 then rest else acc

abbrev pub saturate : ℕ → ℕ
saturate n = if ltb n (2 ^ 64) then n else 2 ^ 64 - 1

-- `std::strtoull(text, nullptr, 10)`: a value out of range is the greatest number, and a minus sign
-- negates a value in range modulo 2 ^ 64.
unfoldable pub strtoull_sign : Bytes → ℕ
strtoull_sign [] = 0
strtoull_sign (c ∷ cs) =
    if c == 43
    then saturate (digits_value 0 cs)
    else if c == 45
    then (if ltb (digits_value 0 cs) (2 ^ 64)
        then (2 ^ 64 - digits_value 0 cs) % 2 ^ 64
        else 2 ^ 64 - 1)
    else saturate (digits_value 0 (c ∷ cs))

unfoldable pub strtoull : Bytes → ℕ
strtoull text = strtoull_sign (skip_space text)

-- What the worker has read of a request before it handles it.
pub record RequestHead : Type 0 where
  pub method_text : Bytes
  pub target : Bytes
  pub headers : Texts

unfoldable pub parse_request_line : Bytes → List Bytes → RequestHead
parse_request_line line rest =
    let first = next_word (drop_cr line) in
    record {
      method_text = first.0;
      target = (next_word first.1).0;
      headers = parse_headers rest [];
    }

unfoldable pub parse_head_lines : List Bytes → RequestHead
parse_head_lines [] = parse_request_line [] []
parse_head_lines (l ∷ ls) = parse_request_line l ls

unfoldable pub parse_head : Bytes → RequestHead
parse_head text = parse_head_lines (lines [] text)

abbrev pub header_or_empty : Bytes → RequestHead → Bytes
header_or_empty name h = elim (find_text name h.headers) [ none ↦ [] | some v ↦ v ]

unfoldable pub body_length : RequestHead → ℕ
body_length h = elim (find_text (codes "content-length") h.headers) [
  | none ↦ 0
  | some v ↦ strtoull v
]

abbrev pub uri_of : Bytes → Bytes
uri_of [] = codes "/"
uri_of (c ∷ cs) = c_str (c ∷ cs)

abbrev pub target_parts : Bytes → Bytes × Option Bytes
target_parts target = elim (split_at 63 target) [
  | none ↦ (target, none)
  | some (path, query) ↦ (path, some query)
]

-- The reset, and what the worker sets from the head.
unfoldable pub begin_request : {App : Type 0} → RequestHead → Connection App → Connection App
begin_request h c =
    let parts = target_parts h.target in
    record (reset_request c) {
      connected = true;
      method = method_from_string h.method_text;
      uri = uri_of (url_decode parts.0);
      request_length = body_length h;
      headers = h.headers;
      args = elim parts.1 [ none ↦ [] | some query ↦ parse_args query ];
    }
