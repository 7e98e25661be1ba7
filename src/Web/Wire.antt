-- ===== src/Web/Wire.antt =====
-- How a request reaches src/CrossPointWebServer.cpp does not matter.
use crosspoint_simulator_ios.Base.{
  ◌+◌, ◌-◌, ◌≤◌, ◌<◌, ◌≡◌, ◌≢◌, refl, sym, ap, ◌∙◌, subst, false, [], ◌∷◌, ◌++◌, Option, none, some,
  arith, ltb, Bytes, All, flatten, length, take, length-append, take-append, take-length_append,
  append_assoc, append-nil, Bool-cases, Option-cases, inl, inr,
}
use crosspoint_simulator_ios.Base.Search.{find}
use crosspoint_simulator_ios.Web.Multipart.{crlf}
use crosspoint_simulator_ios.Http.Head.{lines, RequestHead, body_length}
use crosspoint_simulator_ios.Http.Receive.{Arrivals, max_head_size}
use crosspoint_simulator_ios.Http.Search.{find-front, find-append}
use crosspoint_simulator_ios.Web.Parse.{
  max_body_size, read_request_head, request_head, read_request_body, make_request, finish_request,
  parse_from, parse_request,
}

-- Every `recv` gives something, at most the buffer's size, until the connection ends.
abbrev pub IsOpen : Arrivals → Type 0
IsOpen = All (λ (c : Bytes). (c ≢ []) × (length c ≤ 8192))

-- A text without the empty line is shorter than what leads to it.
short-lem :
    (raw t head rest : Bytes)
    → find (crlf ++ crlf) raw ≡ none
    → find (crlf ++ crlf) (raw ++ t) ≡ some (head, rest)
    → length raw < length head + 4
short-lem raw t head rest lost e = elim (Bool-cases (ltb (length raw) (length head + 4))) [
  | inl short ↦ ground arith
  | inr long ↦
      let (q, f, g) = find-front (crlf ++ crlf) raw t head rest (omega arith) e (ground arith) in
      absurd (cc)
]

-- What the loop over the head gives.
record HeadRead (r : Option (Bytes × Arrivals)) (head rest : Bytes) : Type 0 where
  raw : Bytes
  left : Arrivals
  first : Bytes
  result : r ≡ some (raw, left)
  found : find (crlf ++ crlf) raw ≡ some (head, first)
  remains : rest ≡ first ++ flatten left
  is_open : IsOpen left

read_request_head-lem :
    (raw : Bytes) (s : Arrivals) (head rest : Bytes)
    → IsOpen s
    → find (crlf ++ crlf) (raw ++ flatten s) ≡ some (head, rest)
    → length head + 8195 ≤ max_head_size
    → HeadRead (read_request_head raw s) head rest
unfolding read_request_head
read_request_head-lem raw [] head rest o e h =
    let e' = subst (λ (z : Bytes). find (crlf ++ crlf) z ≡ some (head, rest)) (append-nil raw) e in
    record {
      raw = raw;
      left = [];
      first = rest;
      result = rw (e', read_request_head) refl;
      found = e';
      remains = sym (append-nil rest);
      is_open = tt;
    }
read_request_head-lem raw ([] ∷ s) head rest o e h = absurd (o.0.0 refl)
read_request_head-lem raw ((b ∷ bs) ∷ s) head rest o e h =
    let whole : find (crlf ++ crlf) ((raw ++ (b ∷ bs)) ++ flatten s) ≡ some (head, rest) =
      rw append_assoc e in
    elim (Option-cases (find (crlf ++ crlf) raw)) [
      | inr ((a, first), there) ↦
          let kept =
            find-append (crlf ++ crlf) raw (flatten ((b ∷ bs) ∷ s)) a first (omega arith) there in
          let ea : a ≡ head = cc in
          record {
            raw = raw;
            left = (b ∷ bs) ∷ s;
            first = first;
            result = rw (there, read_request_head) refl;
            found = rw (← ea) there;
            remains = cc;
            is_open = o;
          }
      | inl lost ↦
          let short = short-lem raw (flatten ((b ∷ bs) ∷ s)) head rest lost e in
          let l = length-append raw (b ∷ bs) in
          let m = o.0.1 in
          let room : ltb max_head_size (length (raw ++ (b ∷ bs))) ≡ false =
            let n : length (raw ++ (b ∷ bs)) ≤ max_head_size = omega arith in ground arith in
          rw (lost, room, read_request_head)
            (read_request_head-lem (raw ++ (b ∷ bs)) s head rest o.1 whole h)
    ]

-- The front of a body that has been read whole.
cut-lem :
    (body extra first t : Bytes)
    → body ++ extra ≡ first ++ t
    → length body ≤ length first
    → take (length body) first ≡ body
cut-lem body extra first t e h =
    let z : length body - length first ≡ 0 = omega arith in
    let split = take-append (length body) first t in
    let front : take (length body) (first ++ t) ≡ body = rw (← e) (take-length_append body extra) in
    let cut : take (length body) (first ++ t) ≡ take (length body) first =
      split ∙ (rw z (append-nil _)) in
    sym cut ∙ front

read_request_body-lem :
    (body extra first : Bytes) (s : Arrivals)
    → IsOpen s
    → body ++ extra ≡ first ++ flatten s
    → read_request_body (length body) first s ≡ some body
unfolding read_request_body
read_request_body-lem body extra first [] o e =
    let l1 = length-append body extra in
    let l2 = length-append first [] in
    let enough : length body ≤ length first = let l3 = ap length e in omega arith in
    let read : ltb (length first) (length body) ≡ false = ground arith in
    rw (read, cut-lem body extra first [] e enough) refl
read_request_body-lem body extra first ([] ∷ s) o e = absurd (o.0.0 refl)
read_request_body-lem body extra first ((b ∷ bs) ∷ s) o e =
    elim (Bool-cases (ltb (length first) (length body))) [
      | inl more ↦
          rw (more, read_request_body)
            (read_request_body-lem body extra (first ++ (b ∷ bs)) s o.1
              (e ∙ sym (append_assoc first (b ∷ bs) (flatten s))))
      | inr done ↦
          rw
            (
              done,
              cut-lem body extra first (flatten ((b ∷ bs) ∷ s)) e (ground arith),
              read_request_body,
            )
            refl
    ]

-- A request whose head is well below 1 MB and has a method and a target, and whose body is the announced
-- one of at most 256 MB, is parsed in whatever pieces it arrives, and into the same request: what the head
-- says and exactly the announced body, with nothing of what follows it.
pub parse_request-whole :
    (head body extra : Bytes) (h : RequestHead) (s : Arrivals)
    → IsOpen s
    → find (crlf ++ crlf) (flatten s) ≡ some (head, body ++ extra)
    → length head + 8195 ≤ max_head_size
    → request_head (lines [] head) ≡ some h
    → body_length h ≡ length body
    → length body ≤ max_body_size
    → parse_request s ≡ some (make_request h body)
unfolding parse_request parse_from finish_request
parse_request-whole head body extra h s o e small given n fits =
    let r = read_request_head-lem [] s head (body ++ extra) o e small in
    let room : ltb max_body_size (length body) ≡ false = ground arith in
    let read = read_request_body-lem body extra r.first r.left r.is_open r.remains in
    rw (r.result, parse_from) (rw (r.found, given) (rw (n, room, read) refl))
