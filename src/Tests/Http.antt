-- ===== src/Tests/Http.antt =====
-- Instances of the theorems on the HTTP server, with a firmware that counts and logs.
use crosspoint_simulator_ios.Base.{
  some, ◌≡◌, refl, true, false, List, [], ◌∷◌, ◌++◌, none, arith, Bytes,
}
use crosspoint_simulator_ios.Base.Text.{codes}
use crosspoint_simulator_ios.Web.Multipart.{crlf}
use crosspoint_simulator_ios.Web.Parse.{request_head, make_request, parse_request}
use crosspoint_simulator_ios.Web.Wire.{parse_request-whole}
use crosspoint_simulator_ios.Http.Text.{
  HttpMethod, lower, trim, trim_front, trim_back, url_decode, method_from_string, method_among,
  parse_args, reason_for_status, decimal, digits,
}
use crosspoint_simulator_ios.Http.State.{
  Connection, no_upload, send, reset_request, emit_headers, header_block, header_lines, send_all,
  send_body, transmit,
}
use crosspoint_simulator_ios.Http.Head.{
  RequestHead, lines, drop_cr, skip_space, word, next_word, bytes_lt, set_header, add_header_line,
  parse_headers, digits_value, strtoull_sign, strtoull, parse_request_line, parse_head_lines,
  parse_head, header_or_empty, body_length, begin_request,
}
use crosspoint_simulator_ios.Http.Receive.{
  Arrivals, RequestHandler, read_head, read_body, raw_handlers, emit_raw_event, emit_writes, chunks,
  pieces,
}
use crosspoint_simulator_ios.Http.Serve.{
  Site, serve, complete_request, serve_request, dispatch, run_routes, run_route, route_matches,
  run_handlers, body_args,
}
use crosspoint_simulator_ios.Http.Whole.{raws_of, Streamed, serve_whole}
use crosspoint_simulator_ios.Http.Forms.{Piece}

-- A handler that logs what the raw events bring, and a page.
abbrev logger : RequestHandler (List Bytes)
logger = record {
  can_handle = λ c. (false, c);
  handle = λ c. (false, c);
  can_raw = λ c. (true, c);
  raw = λ e c. record c { app = c.app ++ (e.buf ∷ []) };
}

abbrev page : Connection (List Bytes) → Connection (List Bytes)
page c = send 200 (codes "text/plain") (codes "done") c

abbrev pub_site : Site (List Bytes)
pub_site = record {
  routes =
      record { uri = codes "/a"; method = HttpMethod.post; handler = page; upload_handler = none }
      ∷ [];
  request_handlers = logger ∷ [];
  not_found = none;
}

abbrev accepted : Connection (List Bytes)
accepted = record {
  connected = true;
  method = HttpMethod.get;
  uri = codes "/";
  args = [];
  headers = [];
  pending = [];
  request_length = 0;
  response_length = 0;
  length_set = false;
  length_unknown = false;
  headers_sent = false;
  upload = no_upload;
  accepts = 10000 ∷ 10000 ∷ [];
  output = [];
  app = [];
}

abbrev head_text : Bytes
head_text = codes "POST /a HTTP/1.1" ++ (crlf ++ codes "Content-Length: 5")

-- The request in pieces that cut the empty line and the body.
abbrev in_pieces : Arrivals
in_pieces = (head_text ++ (13 ∷ 10 ∷ 13 ∷ [])) ∷ (10 ∷ codes "he") ∷ codes "llo and more" ∷ []

abbrev cut : Arrivals
cut = (head_text ++ (13 ∷ 10 ∷ 13 ∷ [])) ∷ (10 ∷ codes "he") ∷ []

head_length : body_length (parse_head head_text) ≡ 5
unfolding body_length parse_head parse_head_lines parse_request_line lines drop_cr skip_space word
    next_word bytes_lt set_header add_header_line parse_headers digits_value strtoull_sign strtoull
    lower trim trim_front trim_back
head_length = refl

serve_whole_example :
    (after : Connection (List Bytes)) × Streamed pub_site
      (parse_head head_text)
      accepted
      (codes "hello")
      after
    × (serve pub_site in_pieces accepted
        ≡ complete_request pub_site
            (raws_of pub_site (parse_head head_text) accepted)
            (header_or_empty (codes "content-type") (parse_head head_text))
            (codes "hello")
            after)
serve_whole_example =
    serve_whole pub_site head_text (codes "hello") (codes " and more") in_pieces accepted
      (λ e. cc, (λ e. cc, (λ e. cc, tt))) refl (omega arith) head_length (omega arith)

-- A form with a field and an empty file, as a browser writes it.
abbrev two_parts : List Piece
two_parts =
    record { name = codes "path"; filename = none; content = codes "/books" }
    ∷ record { name = codes "file"; filename = some (codes "a.txt"); content = [] }
    ∷ []

-- What the log of the raw handler holds when the request has been served: the start, the body in the two
-- pieces in which it arrived, and the end.
served_log : (serve pub_site in_pieces accepted).app ≡ [] ∷ codes "he" ∷ codes "llo" ∷ [] ∷ []
unfolding body_length parse_head parse_head_lines parse_request_line lines drop_cr skip_space word
    next_word bytes_lt set_header add_header_line parse_headers digits_value strtoull_sign strtoull
    lower trim trim_front trim_back url_decode method_from_string method_among parse_args
    reason_for_status decimal digits send reset_request emit_headers header_block header_lines
    send_all send_body transmit begin_request read_head read_body raw_handlers emit_raw_event
    emit_writes chunks pieces serve_request serve complete_request dispatch run_routes run_route
    route_matches run_handlers body_args
served_log = refl

-- The same request, taken apart by the file transfer server.
abbrev parsed_head : RequestHead
parsed_head = record {
  method_text = codes "POST";
  target = codes "/a";
  headers = (codes "content-length", codes "5") ∷ [];
}

head_given : request_head (lines [] head_text) ≡ some parsed_head
unfolding request_head lines parse_request_line drop_cr skip_space word next_word bytes_lt
    set_header add_header_line parse_headers lower trim trim_front trim_back
head_given = refl

length_given : body_length parsed_head ≡ 5
unfolding body_length digits_value strtoull_sign strtoull skip_space
length_given = refl

parse_request-whole_example :
    parse_request in_pieces ≡ some (make_request parsed_head (codes "hello"))
parse_request-whole_example =
    parse_request-whole head_text (codes "hello") (codes " and more") parsed_head in_pieces
      ((λ e. cc, omega arith), ((λ e. cc, omega arith), ((λ e. cc, omega arith), tt))) refl
      (omega arith) head_given length_given (omega arith)
