-- ===== src/WebSocket/Session.antt =====
-- The loop of a client's thread in `WebSocketsServer::begin` of src/WebSocketsServer.cpp, after the
-- handshake: the events that it pushes and the bytes that it sends.
use crosspoint_simulator_ios.Base.{
  ℕ, zero, suc, ◌+◌, Bool, if◌then◌else◌, ◌==◌, List, [], ◌∷◌, ◌++◌, Option, none, some, Bytes,
  length,
}
use crosspoint_simulator_ios.WebSocket.Socket.{Socket}
use crosspoint_simulator_ios.WebSocket.Frame.{WsFrame, read_ws_frame, pong_frame}
use crosspoint_simulator_ios.WebSocket.Clients.{Event, MessageType}

-- What a thread did.
pub record Trace : Type 0 where
  pub events : List Event
  pub sent : Bytes

-- What one frame makes the thread do; `none` breaks the loop.
unfoldable pub handle_frame : ℕ → WsFrame → Option Trace
handle_frame num f =
    if f.opcode == 0x1
    then some (record {
      events =
          record {
            num = num;
            type' = MessageType.text;
            payload = f.payload ++ (0 ∷ []);
            length' = length f.payload;
          }
          ∷ [];
      sent = [];
    })
    else if f.opcode == 0x2
    then some (record {
      events =
          record {
            num = num;
            type' = MessageType.bin;
            payload = f.payload;
            length' = length f.payload;
          }
          ∷ [];
      sent = [];
    })
    else if f.opcode == 0x8
    then none
    else if f.opcode == 0x9
    then some
        (record { events = []; sent = elim (pong_frame f.payload) [ none ↦ [] | some bs ↦ bs ] })
    else some (record { events = []; sent = [] })

-- One trace after another; `none` is a loop that ran out of fuel.
unfoldable pub join : Trace → Option Trace → Option Trace
join t none = none
join t (some u) = some (record { events = t.events ++ u.events; sent = t.sent ++ u.sent })

-- The loop from its round i on; `active i` is what the round finds in the flag.
unfoldable pub session_rounds : ℕ → (ℕ → Bool) → ℕ → ℕ → Socket → Option Trace
session_rounds zero active i num s = none
session_rounds (suc fuel) active i num s =
    let stop : Trace = record { events = []; sent = [] } in
    let run : Option Trace = elim (read_ws_frame s) [
      | none ↦ some stop
      | some (f, s') ↦
          let rest : Option Trace = session_rounds fuel active (i + 1) num s' in
          elim (handle_frame num f) [ none ↦ some stop | some t ↦ join t rest ]
    ] in
    if active i then run else some stop

-- `{num, WStype_CONNECTED, {}, 0}` and `{num, WStype_DISCONNECTED, {}, 0}`
unfoldable pub signal : MessageType → ℕ → Event
signal t num = record { num = num; type' = t; payload = []; length' = 0 }

-- From the connected event to the disconnected event.
unfoldable pub session : ℕ → (ℕ → Bool) → ℕ → Socket → Option Trace
session fuel active num s =
    join (record { events = signal MessageType.connected num ∷ []; sent = [] })
      (elim (session_rounds fuel active 0 num s) [
        | none ↦ none
        | some t ↦
            join t (some (record { events = signal MessageType.disconnected num ∷ []; sent = [] }))
      ])
