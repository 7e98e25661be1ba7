-- ===== src/Http/Serve.antt =====
-- The handling of one client in the worker thread of src/WebServer.cpp, from `accept` to `close`.
use crosspoint_simulator_ios.Base.{
  ℕ, Bool, true, false, ◌==◌, ◌&&◌, ◌||◌, List, [], ◌∷◌, ◌++◌, Option, none, some, if◌then◌else◌,
  ltb, Bytes, bytes_eq, length, take,
}
use crosspoint_simulator_ios.Base.Search.{c_str, find}
use crosspoint_simulator_ios.Base.Text.{codes}
use crosspoint_simulator_ios.Web.Multipart.{crlf}
use crosspoint_simulator_ios.Http.Text.{HttpMethod, parse_args}
use crosspoint_simulator_ios.Http.Multipart.{MultipartPart, parse_multipart}
use crosspoint_simulator_ios.Http.State.{
  UploadStatus, Connection, transmit, reset_request, send, simple_response,
}
use crosspoint_simulator_ios.Http.Head.{
  RequestHead, parse_head, header_or_empty, body_length, begin_request,
}
use crosspoint_simulator_ios.Http.Receive.{
  Arrivals, read_head, RawStatus, RequestHandler, chunks, raw_handlers, emit_raw_event, emit_writes,
  read_body,
}

abbrev pub max_body_size : ℕ
max_body_size = 268435456

-- `Impl::Route`
pub record Route (App : Type 0) : Type 0 where
  pub uri : Bytes
  pub method : HttpMethod
  pub handler : Connection App → Connection App
  pub upload_handler : Option (Connection App → Connection App)

-- The firmware's part of `Impl`.
pub record Site (App : Type 0) : Type 0 where
  pub routes : List (Route App)
  pub request_handlers : List (RequestHandler App)
  pub not_found : Option (Connection App → Connection App)

abbrev pub contains : Bytes → Bytes → Bool
contains pattern text = elim (find pattern text) [ none ↦ false | some found ↦ true ]

abbrev pub method_number : HttpMethod → ℕ
method_number HttpMethod.get = 0
method_number HttpMethod.post = 1
method_number HttpMethod.put = 2
method_number HttpMethod.patch = 3
method_number HttpMethod.delete = 4
method_number HttpMethod.options = 5
method_number HttpMethod.propfind = 6
method_number HttpMethod.head = 7
method_number HttpMethod.mkcol = 8
method_number HttpMethod.move = 9
method_number HttpMethod.copy = 10
method_number HttpMethod.lock = 11
method_number HttpMethod.unlock = 12
method_number HttpMethod.any = 13

abbrev pub same_method : HttpMethod → HttpMethod → Bool
same_method a b = method_number a == method_number b

module _ {App : Type 0} where
  abbrev pub set_upload : UploadStatus → ℕ → Bytes → Connection App → Connection App
  set_upload status total buf c = record c {
    upload = record c.upload { status = status; total_size = total; buf = buf };
  }

  -- `emitMultipartAbort`
  unfoldable pub emit_multipart_abort : List (Route App) → Connection App → Connection App
  emit_multipart_abort [] c = c
  emit_multipart_abort (r ∷ rs) c =
      let rest = emit_multipart_abort rs c in
      elim r.upload_handler [
        | none ↦ rest
        | some upload ↦
            if bytes_eq r.uri c.uri
              && (same_method r.method c.method || same_method r.method HttpMethod.any)
            then upload (set_upload UploadStatus.aborted c.request_length [] c)
            else rest
      ]

  -- The test of the loop over the routes.
  unfoldable pub route_matches : Route App → Connection App → Bool
  route_matches r c =
      bytes_eq r.uri c.uri
      && (same_method r.method c.method
          || same_method r.method HttpMethod.any
          || (same_method c.method HttpMethod.head && same_method r.method HttpMethod.get))

  -- The parts of a form that are no files become arguments.
  unfoldable pub field_args : List MultipartPart → Connection App → Connection App
  field_args [] c = c
  field_args (p ∷ ps) c = elim p.filename [
    | [] ↦ field_args ps (record c { args = c.args ++ ((p.name, p.content) ∷ []) })
    | b ∷ bs ↦ field_args ps c
  ]

  -- An upload event for each piece of a file.
  unfoldable pub upload_writes :
      (Connection App → Connection App) → List Bytes → Connection App → Connection App
  upload_writes upload [] c = c
  upload_writes upload (p ∷ ps) c =
      upload_writes upload ps (upload (set_upload UploadStatus.write c.upload.total_size p c))

  -- The events of one file.
  unfoldable pub upload_file :
      (Connection App → Connection App) → MultipartPart → Connection App → Connection App
  upload_file upload p c =
      let named = record c {
        upload = record {
          name = c_str p.name;
          filename = c_str p.filename;
          total_size = length p.content;
          status = UploadStatus.start;
          buf = [];
        };
      } in
      let written = upload_writes upload (chunks p.content) (upload named) in
      upload (set_upload UploadStatus.end written.upload.total_size [] written)

  unfoldable pub upload_files :
      (Connection App → Connection App) → List MultipartPart → Connection App → Connection App
  upload_files upload [] c = c
  upload_files upload (p ∷ ps) c = elim p.filename [
    | [] ↦ upload_files upload ps c
    | b ∷ bs ↦ upload_files upload ps (upload_file upload p c)
  ]

  -- What a matching route does with the request.
  unfoldable pub run_route : Route App → Bytes → Bytes → Connection App → Connection App
  run_route r content_type body c = elim r.upload_handler [
    | none ↦ r.handler c
    | some upload ↦
        if contains (codes "multipart/form-data") content_type
        then (let parts = parse_multipart content_type body in
            r.handler (upload_files upload parts (field_args parts c)))
        else r.handler c
  ]

  -- The loop over the routes, and whether one handled the request.
  unfoldable pub run_routes :
      List (Route App) → Bytes → Bytes → Connection App → Bool × Connection App
  run_routes [] content_type body c = (false, c)
  run_routes (r ∷ rs) content_type body c =
      let rest = run_routes rs content_type body c in
      if route_matches r c then (true, run_route r content_type body c) else rest

  -- The loop over the request handlers.
  unfoldable pub run_handlers : List (RequestHandler App) → Connection App → Bool × Connection App
  run_handlers [] c = (false, c)
  run_handlers (h ∷ hs) c =
      let asked = h.can_handle c in
      let handled = h.handle asked.1 in
      let refused = run_handlers hs asked.1 in
      let declined = run_handlers hs handled.1 in
      if asked.0 then (if handled.0 then handled else declined) else refused

  -- Routes, then request handlers, then the answer 404.
  unfoldable pub dispatch : Site App → Bytes → Bytes → Connection App → Connection App
  dispatch site content_type body c =
      let routed = run_routes site.routes content_type body c in
      let handled = run_handlers site.request_handlers routed.1 in
      if routed.0 then routed.1 else if handled.0 then handled.1 else elim site.not_found [
        | none ↦ send 404 (codes "text/plain") (codes "Not Found") handled.1
        | some handler ↦ handler handled.1
      ]

  -- The arguments that a body holds.
  unfoldable pub body_args : Bytes → Bytes → Connection App → Connection App
  body_args content_type [] c =
      if contains (codes "application/x-www-form-urlencoded") content_type
      then record c { args = c.args ++ parse_args [] }
      else c
  body_args content_type (b ∷ bs) c =
      if contains (codes "application/x-www-form-urlencoded") content_type
      then record c { args = c.args ++ parse_args (b ∷ bs) }
      else if contains (codes "multipart/form-data") content_type
      then c
      else record c { args = c.args ++ ((codes "plain", b ∷ bs) ∷ []) }

  -- The request when its whole body is there, and the reset behind it.
  unfoldable pub complete_request :
      Site App → List (RequestHandler App) → Bytes → Bytes → Connection App → Connection App
  complete_request site raws content_type body c = reset_request (
      dispatch site content_type body
        (body_args content_type body (emit_raw_event raws RawStatus.end [] c)))

  -- The request when its body is cut off.
  unfoldable pub incomplete_request :
      Site App → List (RequestHandler App) → Bytes → Connection App → Connection App
  incomplete_request site raws content_type c =
      let told = emit_raw_event raws RawStatus.aborted [] c in
      let aborted = emit_multipart_abort site.routes told in
      transmit (simple_response 400 (codes "Incomplete request body"))
        (if contains (codes "multipart/form-data") content_type then aborted else told)

  -- The request from its head on, with the first bytes of the body and what arrives after them.
  unfoldable pub serve_request :
      Site App → RequestHead → Bytes → Arrivals → Connection App → Connection App
  serve_request site h first s c =
      let asked = raw_handlers site.request_handlers (begin_request h c) in
      let started = emit_raw_event asked.0 RawStatus.start [] asked.1 in
      let want = body_length h in
      let body = take want first in
      let received = read_body asked.0 want body s (emit_writes asked.0 (chunks body) started) in
      let content_type = header_or_empty (codes "content-type") h in
      if ltb max_body_size want
      then transmit (simple_response 413 (codes "Payload Too Large"))
          (emit_raw_event asked.0 RawStatus.aborted [] started)
      else if ltb (length received.0) want
      then incomplete_request site asked.0 content_type received.1
      else complete_request site asked.0 content_type received.0 received.1

  -- A client from `accept` to `close`. A client whose head does not arrive is closed without an answer. The
  -- state of the request is not reset on the ways out before a handler ran.
  unfoldable pub serve : Site App → Arrivals → Connection App → Connection App
  serve site s c =
      let read = read_head [] s in
      elim (find (crlf ++ crlf) read.0) [
        | none ↦ c
        | some (head, first) ↦ serve_request site (parse_head head) first read.1 c
      ]
