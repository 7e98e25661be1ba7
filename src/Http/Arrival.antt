-- ===== src/Http/Arrival.antt =====
-- How a request arrives does not matter: proofs about the reading loops of src/WebServer.cpp.
use crosspoint_simulator_ios.Base.{
  ℕ, zero, suc, ◌+◌, ◌-◌, ◌≤◌, ◌<◌, ◌≡◌, ◌≢◌, refl, sym, ap, ◌∙◌, subst, List, [], ◌∷◌, ◌++◌, some,
  arith, ltb, Bytes, All, All-append, flatten, flatten-append, length, take, drop, length-append,
  length-take, length-drop, take-append-drop, take-append, take-nil, append_assoc, append-nil,
  Bool-cases, Option-cases, inl, inr,
}
use crosspoint_simulator_ios.Base.Search.{find}
use crosspoint_simulator_ios.Web.Multipart.{crlf}
use crosspoint_simulator_ios.Http.State.{Connection}
use crosspoint_simulator_ios.Http.Search.{find-front, find-append}
use crosspoint_simulator_ios.Http.Receive.{
  Arrivals, max_head_size, read_head, RequestHandler, pieces, chunks, emit_writes, read_body,
}

-- Every `recv` gives something until the connection ends.
abbrev pub IsOpen : Arrivals → Type 0
IsOpen = All (λ (c : Bytes). c ≢ [])

-- A piece that a handler gets.
abbrev pub IsPiece : ℕ → Bytes → Type 0
IsPiece size p = (1 ≤ length p) × (length p ≤ size)

pieces-flatten :
    (fuel size : ℕ) (text : Bytes)
    → length text ≤ fuel
    → 0 < size
    → flatten (pieces fuel size text) ≡ text
unfolding pieces
pieces-flatten zero size [] h k = refl
pieces-flatten zero size (b ∷ bs) h k = absurd (omega arith)
pieces-flatten (suc fuel) size [] h k = refl
pieces-flatten (suc fuel) size (b ∷ bs) h k =
    let e =
      pieces-flatten fuel size (drop size (b ∷ bs))
        (let l = length-drop size (b ∷ bs) in omega arith) k in
    rw e (take-append-drop size (b ∷ bs))

pieces-IsPiece :
    (fuel size : ℕ) (text : Bytes) → 0 < size → All (IsPiece size) (pieces fuel size text)
unfolding pieces
pieces-IsPiece zero size text k = tt
pieces-IsPiece (suc fuel) size [] k = tt
pieces-IsPiece (suc fuel) size (b ∷ bs) k =
    let l = length-take size (b ∷ bs) in
    ((omega arith, omega arith), pieces-IsPiece fuel size (drop size (b ∷ bs)) k)

pub chunks-flatten : (text : Bytes) → flatten (chunks text) ≡ text
unfolding chunks
chunks-flatten text = pieces-flatten (length text) 4096 text (omega arith) (omega arith)

pub chunks-IsPiece : (text : Bytes) → All (IsPiece 4096) (chunks text)
unfolding chunks
chunks-IsPiece text = pieces-IsPiece (length text) 4096 text (omega arith)

-- The head is read whole, and what was read behind it and what is still to come are the rest.
pub read_head-lem :
    (raw : Bytes) (s : Arrivals) (head rest : Bytes)
    → IsOpen s
    → find (crlf ++ crlf) (raw ++ flatten s) ≡ some (head, rest)
    → length head + 4 ≤ max_head_size
    → (first : Bytes) × (find (crlf ++ crlf) (read_head raw s).0 ≡ some (head, first))
      × (rest ≡ first ++ flatten (read_head raw s).1)
      × IsOpen (read_head raw s).1
unfolding read_head
read_head-lem raw [] head rest o e h = (
  rest,
  subst (λ (z : Bytes). find (crlf ++ crlf) z ≡ some (head, rest)) (append-nil raw) e,
  sym (append-nil rest),
  tt,
)
read_head-lem raw ([] ∷ s) head rest o e h = absurd (o.0 refl)
read_head-lem raw ((b ∷ bs) ∷ s) head rest o e h =
    let whole : find (crlf ++ crlf) ((raw ++ (b ∷ bs)) ++ flatten s) ≡ some (head, rest) =
      rw append_assoc e in
    elim (Option-cases (find (crlf ++ crlf) raw)) [
      | inr ((a, first), there) ↦
          let kept =
            find-append (crlf ++ crlf) raw (flatten ((b ∷ bs) ∷ s)) a first (omega arith) there in
          let ea : a ≡ head = cc in rw (there, read_head) (first, rw (← ea) there, cc, o)
      | inl lost ↦ elim (Bool-cases (ltb max_head_size (length (raw ++ (b ∷ bs))))) [
        | inl long ↦
            let (first, f, g) =
              find-front (crlf ++ crlf) (raw ++ (b ∷ bs)) (flatten s) head rest (omega arith) whole
                (ground arith) in
            rw (lost, long, read_head) (first, f, g, o.1)
        | inr short ↦
            rw (lost, short, read_head) (read_head-lem (raw ++ (b ∷ bs)) s head rest o.1 whole h)
      ]
    ]

module _ {App : Type 0} (hs : List (RequestHandler App)) where
  pub emit_writes-append :
      (ps qs : List Bytes) (c : Connection App)
      → emit_writes hs (ps ++ qs) c ≡ emit_writes hs qs (emit_writes hs ps c)
  unfolding emit_writes
  emit_writes-append [] qs c = refl
  emit_writes-append (p ∷ ps) qs c = emit_writes-append ps qs _

  -- The body is what arrives, up to the length that is wanted, and the handlers get it in order.
  pub read_body-lem :
      (want : ℕ) (body : Bytes) (s : Arrivals) (c : Connection App)
      → IsOpen s
      → (ps : List Bytes) × (read_body hs want body s c
          ≡ (body ++ take (want - length body) (flatten s), emit_writes hs ps c))
        × (flatten ps ≡ take (want - length body) (flatten s))
        × All (IsPiece 4096) ps
  unfolding read_body emit_writes
  read_body-lem want body [] c o =
      let e = take-nil {A = ℕ} (want - length body) in ([], rw e (rw append-nil refl), sym e, tt)
  read_body-lem want body ([] ∷ s) c o = absurd (o.0 refl)
  read_body-lem want body ((b ∷ bs) ∷ s) c o =
      let new = take (want - length body) (b ∷ bs) in
      let l = length-take (want - length body) (b ∷ bs) in
      let split = take-append (want - length body) (b ∷ bs) (flatten s) in
      let less : want - length (body ++ new) ≡ want - length body - length (b ∷ bs) =
        omega (arith, length-append body new, l) in
      let (ps, f, g, k) = read_body-lem want (body ++ new) s (emit_writes hs (chunks new) c) o.1 in
      elim (Bool-cases (ltb (length body) want)) [
        | inl more ↦ (
          chunks new ++ ps,
          rw more (
              f
              ∙ (rw split
                  (rw less (rw (append_assoc, emit_writes-append (chunks new) ps c) refl)))),
          rw (flatten-append (chunks new) ps, chunks-flatten new)
              (rw split (rw (← less) (ap (λ (z : Bytes). new ++ z) g))),
          All-append (IsPiece 4096) (chunks new) ps (chunks-IsPiece new) k,
        )
        | inr done ↦
            let z : want - length body ≡ 0 = ground arith in
            ([], rw done (rw z (rw append-nil refl)), rw z refl, tt)
      ]
