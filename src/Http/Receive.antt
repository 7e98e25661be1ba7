-- ===== src/Http/Receive.antt =====
-- How src/WebServer.cpp reads a request: the loop up to the empty line, and the loop over the body,
-- whose pieces go to the raw handlers as they arrive.
use crosspoint_simulator_ios.Base.{
  ℕ, zero, suc, ◌-◌, Bool, List, [], ◌∷◌, ◌++◌, none, some, if◌then◌else◌, ltb, Bytes, length, take,
  drop,
}
use crosspoint_simulator_ios.Base.Search.{find}
use crosspoint_simulator_ios.Web.Multipart.{crlf}
use crosspoint_simulator_ios.Http.State.{Connection}

-- What the successive `recv` calls on a client return, each at most the buffer's 8192 bytes; an empty
-- one, or the end of the list, is an error, a timeout or the end of the connection.
abbrev pub Arrivals : Type 0
Arrivals = List Bytes

abbrev pub upload_chunk_size : ℕ
upload_chunk_size = 4096

abbrev pub max_head_size : ℕ
max_head_size = 1048576

-- The loop up to the empty line, `raw` having been read.
unfoldable pub read_head : Bytes → Arrivals → Bytes × Arrivals
read_head raw [] = (raw, [])
read_head raw ([] ∷ s) = elim (find (crlf ++ crlf) raw) [
  | some found ↦ (raw, [] ∷ s)
  | none ↦ (raw, s)
]
read_head raw ((b ∷ bs) ∷ s) =
    let next = read_head (raw ++ (b ∷ bs)) s in
    elim (find (crlf ++ crlf) raw) [
      | some found ↦ (raw, (b ∷ bs) ∷ s)
      | none ↦ if ltb max_head_size (length (raw ++ (b ∷ bs))) then (raw ++ (b ∷ bs), s) else next
    ]

-- `HTTPRawStatus` and `HTTPRaw`; `buf` is what the pointer and `currentSize` span.
pub data RawStatus : Type 0 where
  start write end aborted : RawStatus

pub record HttpRaw : Type 0 where
  pub status : RawStatus
  pub buf : Bytes
  pub total_size : ℕ

-- `RequestHandler`, whose methods are the firmware's: each may change the server and its own state.
pub record RequestHandler (App : Type 0) : Type 0 where
  pub can_handle : Connection App → Bool × Connection App
  pub handle : Connection App → Bool × Connection App
  pub can_raw : Connection App → Bool × Connection App
  pub raw : HttpRaw → Connection App → Connection App

-- The pieces of at most `size` bytes in which a loop hands on a text. A round hands on a byte or more, so
-- the text's length is fuel enough.
unfoldable pub pieces : ℕ → ℕ → Bytes → List Bytes
pieces zero size text = []
pieces (suc fuel) size [] = []
pieces (suc fuel) size (b ∷ bs) = take size (b ∷ bs) ∷ pieces fuel size (drop size (b ∷ bs))

unfoldable pub chunks : Bytes → List Bytes
chunks text = pieces (length text) upload_chunk_size text

module _ {App : Type 0} where
  -- `rawHandlers`
  unfoldable pub raw_handlers :
      List (RequestHandler App) → Connection App → List (RequestHandler App) × Connection App
  raw_handlers [] c = ([], c)
  raw_handlers (h ∷ hs) c =
      let asked = h.can_raw c in
      let rest = raw_handlers hs asked.1 in (if asked.0 then h ∷ rest.0 else rest.0, rest.1)

  -- `emitRawEvent`
  unfoldable pub emit_raw_event :
      List (RequestHandler App) → RawStatus → Bytes → Connection App → Connection App
  emit_raw_event [] status buf c = c
  emit_raw_event (h ∷ hs) status buf c =
      emit_raw_event hs status buf
        (h.raw (record { status = status; buf = buf; total_size = c.request_length }) c)

  -- A `RAW_WRITE` event for each piece.
  unfoldable pub emit_writes :
      List (RequestHandler App) → List Bytes → Connection App → Connection App
  emit_writes hs [] c = c
  emit_writes hs (p ∷ ps) c = emit_writes hs ps (emit_raw_event hs RawStatus.write p c)

  -- The loop that reads a body of `want` bytes, `body` having been read.
  unfoldable pub read_body :
      List (RequestHandler App) → ℕ → Bytes → Arrivals → Connection App → Bytes × Connection App
  read_body hs want body [] c = (body, c)
  read_body hs want body ([] ∷ s) c = (body, c)
  read_body hs want body ((b ∷ bs) ∷ s) c =
      let new = take (want - length body) (b ∷ bs) in
      let next = read_body hs want (body ++ new) s (emit_writes hs (chunks new) c) in
      if ltb (length body) want then next else (body, c)
