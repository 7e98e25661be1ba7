-- ===== src/Http/Whole.antt =====
-- What src/WebServer.cpp does with a request, said of the whole request and not of the pieces in which it
-- arrives.
use crosspoint_simulator_ios.Base.{
  ℕ, ◌+◌, ◌-◌, ◌≤◌, ◌≡◌, refl, sym, ap, ◌∙◌, subst, false, List, [], ◌++◌, some, arith,
  if◌then◌else◌, ltb, Bytes, All, All-append, flatten, flatten-append, length, take, length-take,
  take-append, take-length_append,
}
use crosspoint_simulator_ios.Base.Search.{find}
use crosspoint_simulator_ios.Base.Text.{codes}
use crosspoint_simulator_ios.Web.Multipart.{crlf}
use crosspoint_simulator_ios.Http.State.{Connection}
use crosspoint_simulator_ios.Http.Head.{
  RequestHead, parse_head, header_or_empty, body_length, begin_request,
}
use crosspoint_simulator_ios.Http.Receive.{
  Arrivals, max_head_size, read_head, RawStatus, RequestHandler, chunks, raw_handlers,
  emit_raw_event, emit_writes,
}
use crosspoint_simulator_ios.Http.Arrival.{
  IsOpen, IsPiece, chunks-flatten, chunks-IsPiece, read_head-lem, emit_writes-append, read_body-lem,
}
use crosspoint_simulator_ios.Http.Serve.{
  Site, max_body_size, complete_request, incomplete_request, serve_request, serve,
}

module _ {App : Type 0} (site : Site App) where
  -- The raw handlers of a request.
  abbrev pub raws_of : RequestHead → Connection App → List (RequestHandler App)
  raws_of h c = (raw_handlers site.request_handlers (begin_request h c)).0

  -- The server when the raw handlers have been told of the request.
  abbrev pub started : RequestHead → Connection App → Connection App
  started h c =
      emit_raw_event (raws_of h c) RawStatus.start []
        (raw_handlers site.request_handlers (begin_request h c)).1

  -- The raw handlers have got the text in order, in pieces of 1 to 4096 bytes, and the server stands where
  -- that leaves it.
  pub record Streamed (h : RequestHead) (c : Connection App) (text : Bytes) (after : Connection App)
      : Type 0 where
    pub parts : List Bytes
    pub in_order : flatten parts ≡ text
    pub sized : All (IsPiece 4096) parts
    pub reached : after ≡ emit_writes (raws_of h c) parts (started h c)

  -- The body that is read, and the branch that the request takes.
  serve_request-lem :
      (h : RequestHead) (first : Bytes) (s : Arrivals) (c : Connection App)
      → IsOpen s
      → body_length h ≤ max_body_size
      → (after : Connection App) × Streamed h c (take (body_length h) (first ++ flatten s)) after
        × (serve_request site h first s c ≡ (
            if ltb (length (take (body_length h) (first ++ flatten s))) (body_length h)
            then incomplete_request site
                (raws_of h c)
                (header_or_empty (codes "content-type") h)
                after
            else complete_request site
                (raws_of h c)
                (header_or_empty (codes "content-type") h)
                (take (body_length h) (first ++ flatten s))
                after))
  unfolding serve_request
  serve_request-lem h first s c o small =
      let want = body_length h in
      let begun = take want first in
      let raws = raws_of h c in
      let told = emit_writes raws (chunks begun) (started h c) in
      let (ps, f, g, k) = read_body-lem raws want begun s told o in
      let less : want - length begun ≡ want - length first =
        omega (arith, length-take want first) in
      let whole : take want (first ++ flatten s) ≡ begun ++ take (want - length begun) (flatten s) =
        take-append want first (flatten s)
        ∙ ap (λ (n : ℕ). begun ++ take n (flatten s)) (sym less) in
      let fits : ltb max_body_size want ≡ false = ground arith in
      (
        emit_writes raws ps told,
        record {
          parts = chunks begun ++ ps;
          in_order =
              flatten-append (chunks begun) ps
              ∙ (rw (chunks-flatten begun, whole) (ap (λ (z : Bytes). begun ++ z) g));
          sized = All-append (IsPiece 4096) (chunks begun) ps (chunks-IsPiece begun) k;
          reached = sym (emit_writes-append raws (chunks begun) ps (started h c));
        },
        rw (fits, f, whole) refl,
      )

  serve-head :
      (s : Arrivals) (c : Connection App) (head first : Bytes)
      → find (crlf ++ crlf) (read_head [] s).0 ≡ some (head, first)
      → serve site s c ≡ serve_request site (parse_head head) first (read_head [] s).1 c
  unfolding serve
  serve-head s c head first f = rw (f, serve) refl

  -- A request whose head is at most 1 MB long, and whose body is the announced one of at most 256 MB, is
  -- handled the same in whatever pieces it arrives: the raw handlers get the body in order, in pieces of
  -- 1 to 4096 bytes between a start and an end, and the dispatch gets it whole.
  pub serve_whole :
      (head body extra : Bytes) (s : Arrivals) (c : Connection App)
      → IsOpen s
      → find (crlf ++ crlf) (flatten s) ≡ some (head, body ++ extra)
      → length head + 4 ≤ max_head_size
      → body_length (parse_head head) ≡ length body
      → length body ≤ max_body_size
      → (after : Connection App) × Streamed (parse_head head) c body after
        × (serve site s c
            ≡ complete_request site
                (raws_of (parse_head head) c)
                (header_or_empty (codes "content-type") (parse_head head))
                body
                after)
  serve_whole head body extra s c o e small n fits =
      let (first, f, g, r) = read_head-lem [] s head (body ++ extra) o e small in
      let h = parse_head head in
      let (after, streamed, served) =
        serve_request-lem h first (read_head [] s).1 c r (omega arith) in
      let b : take (body_length h) (first ++ flatten (read_head [] s).1) ≡ body =
        rw (n, ← g) (take-length_append body extra) in
      let whole : ltb (length body) (body_length h) ≡ false = ground arith in
      (
        after,
        subst (λ (z : Bytes). Streamed h c z after) b streamed,
        serve-head s c head first f ∙ (served ∙ rw (b, whole) refl),
      )
