-- ===== src/Http/State.antt =====
-- The state of a request in src/WebServer.cpp and the calls that a handler makes of the server.
use crosspoint_simulator_ios.Base.{
  ℕ, ◌%◌, Bool, true, false, not, ◌&&◌, ◌||◌, List, [], ◌∷◌, ◌++◌, Option, none, some,
  if◌then◌else◌, ltb, ◌==◌, Bytes, bytes_eq, length, take, drop,
}
use crosspoint_simulator_ios.Base.Search.{Texts, find_text}
use crosspoint_simulator_ios.Base.Text.{codes}
use crosspoint_simulator_ios.Web.Multipart.{crlf}
use crosspoint_simulator_ios.Http.Text.{HttpMethod, lower, reason_for_status, decimal}

-- `HTTPUploadStatus`
pub data UploadStatus : Type 0 where
  start write end aborted : UploadStatus

-- `HTTPUpload`; `buf` is what the pointer and `currentSize` span.
pub record HttpUpload : Type 0 where
  pub filename : Bytes
  pub name : Bytes
  pub status : UploadStatus
  pub total_size : ℕ
  pub buf : Bytes

-- The request's part of `Impl`, with what the sockets and the firmware hold. `accepts` is what the coming
-- `::send` calls on the client will take, 0 for an error; `output` is what the client has been sent;
-- `app` is the state of the firmware's handlers. A client's descriptor is only tested for being there.
pub record Connection (App : Type 0) : Type 0 where
  pub connected : Bool
  pub method : HttpMethod
  pub uri : Bytes
  pub args : Texts
  pub headers : Texts
  pub pending : Texts
  pub request_length : ℕ
  pub response_length : ℕ
  pub length_set : Bool
  pub length_unknown : Bool
  pub headers_sent : Bool
  pub upload : HttpUpload
  pub accepts : List ℕ
  pub output : Bytes
  pub app : App

abbrev pub no_upload : HttpUpload
no_upload = record {
  filename = [];
  name = [];
  status = UploadStatus.start;
  total_size = 0;
  buf = [];
}

-- The bytes that `sendAll` gets out, and what the socket will take afterwards.
unfoldable pub send_all : List ℕ → Bytes → Bytes × List ℕ
send_all accepts [] = ([], accepts)
send_all [] (b ∷ bs) = ([], [])
send_all (n ∷ ns) (b ∷ bs) =
    let rest = send_all ns (drop n (b ∷ bs)) in
    if n == 0 then ([], ns) else (take n (b ∷ bs) ++ rest.0, rest.1)

-- A header line of a response.
abbrev pub header_line : Bytes → Bytes → Bytes
header_line name value = name ++ codes ": " ++ value ++ crlf

unfoldable pub header_lines : Texts → Bytes
header_lines [] = []
header_lines ((name, value) ∷ hs) = header_line name value ++ header_lines hs

abbrev pub status_line : ℕ → Bytes
status_line code = codes "HTTP/1.1 " ++ decimal code ++ codes " " ++ reason_for_status code ++ crlf

abbrev pub is_head : HttpMethod → Bool
is_head HttpMethod.head = true
is_head _ = false

-- The loop of `headerByName` and `hasHeaderName`.
unfoldable pub find_header : Bytes → Texts → Option Bytes
find_header wanted [] = none
find_header wanted ((k, v) ∷ hs) =
    if bytes_eq (lower k) wanted then some v else find_header wanted hs

module _ {App : Type 0} where
  -- `sendAll(currentClient, …)`, which fails at once with no client.
  unfoldable pub transmit : Bytes → Connection App → Connection App
  transmit bytes c =
      let sent = send_all c.accepts bytes in
      if c.connected then record c { output = c.output ++ sent.0; accepts = sent.1 } else c

  -- `resetRequest`
  unfoldable pub reset_request : Connection App → Connection App
  reset_request c = record c {
    connected = false;
    method = HttpMethod.get;
    uri = codes "/";
    args = [];
    headers = [];
    pending = [];
    request_length = 0;
    response_length = 0;
    length_set = false;
    length_unknown = false;
    headers_sent = false;
    upload = no_upload;
  }

  -- The header block that `emitHeaders` writes.
  unfoldable pub header_block : ℕ → Bytes → ℕ → Connection App → Bytes
  header_block code content_type body_len c =
      let length_lines : Bytes =
        if c.length_unknown
        then []
        else header_line (codes "Content-Length")
            (decimal (if c.length_set then c.response_length else body_len)) in
      status_line code
      ++ (length_lines
          ++ (header_line (codes "Connection") (codes "close")
              ++ (header_line (codes "Content-Type") content_type
                  ++ (header_line (codes "Access-Control-Allow-Origin") (codes "*")
                      ++ (header_lines c.pending ++ crlf)))))

  -- `emitHeaders`
  unfoldable pub emit_headers : ℕ → Bytes → ℕ → Connection App → Connection App
  emit_headers code content_type body_len c =
      if c.headers_sent || not c.connected
      then c
      else record (transmit (header_block code content_type body_len c) c) { headers_sent = true }

  -- The body of a response, which an answer to HEAD does not have.
  unfoldable pub send_body : Bytes → Connection App → Connection App
  send_body body c = if not (is_head c.method) && ltb 0 (length body) then transmit body c else c

  -- `WebServer::send` and `send_P`
  unfoldable pub send : ℕ → Bytes → Bytes → Connection App → Connection App
  send code content_type content c =
      send_body content (emit_headers code content_type (length content) c)

  -- `WebServer::sendContent`
  unfoldable pub send_content : Bytes → Connection App → Connection App
  send_content content c =
      let ready =
        if c.headers_sent then c else emit_headers 200 (codes "text/plain") (length content) c in
      send_body content ready

  -- `WebServer::sendHeader`
  unfoldable pub send_header : Bytes → Bytes → Bool → Connection App → Connection App
  send_header name value first c = record c {
    pending = if first then (name, value) ∷ c.pending else c.pending ++ ((name, value) ∷ []);
  }

  -- `WebServer::setContentLength`, which compares with -1 as an `int`.
  unfoldable pub set_content_length : ℕ → Connection App → Connection App
  set_content_length len c =
      let unknown = len % 4294967296 == 4294967295 in
      record c {
        length_unknown = unknown;
        length_set = not unknown;
        response_length = if unknown then c.response_length else len;
      }

  -- `argByName`, `hasArgName`
  unfoldable pub arg : Bytes → Connection App → Bytes
  arg name c = elim (find_text name c.args) [ none ↦ [] | some v ↦ v ]

  unfoldable pub has_arg : Bytes → Connection App → Bool
  has_arg name c = elim (find_text name c.args) [ none ↦ false | some v ↦ true ]

  unfoldable pub header : Bytes → Connection App → Bytes
  header name c = elim (find_header (lower name) c.headers) [ none ↦ [] | some v ↦ v ]

  unfoldable pub has_header : Bytes → Connection App → Bool
  has_header name c = elim (find_header (lower name) c.headers) [ none ↦ false | some v ↦ true ]

-- `sendSimpleResponse`
unfoldable pub simple_response : ℕ → Bytes → Bytes
simple_response code message =
    status_line code
    ++ (header_line (codes "Content-Length") (decimal (length message))
        ++ (header_line (codes "Content-Type") (codes "text/plain")
            ++ (header_line (codes "Connection") (codes "close") ++ (crlf ++ message))))
