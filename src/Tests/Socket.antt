-- ===== src/Tests/Socket.antt =====
-- Instances of the theorems on the WebSocket server.
use crosspoint_simulator_ios.Base.{
  ℕ, ◌+◌, ◌%◌, ◌<◌, ◌≡◌, ◌≢◌, refl, true, [], ◌∷◌, ◌++◌, some, none, arith, Bytes, All,
}
use crosspoint_simulator_ios.WebSocket.Socket.{Socket, IsOpen, Reads}
use crosspoint_simulator_ios.WebSocket.Frame.{text_frame, read_ws_frame}
use crosspoint_simulator_ios.WebSocket.RoundTrip.{read_ws_frame-text_frame}
use crosspoint_simulator_ios.WebSocket.Clients.{Server, MessageType, add_client, client_fd}
use crosspoint_simulator_ios.WebSocket.Numbers.{Stored, add_client-free, add_client-full}
use crosspoint_simulator_ios.WebSocket.Session.{session, signal}
use crosspoint_simulator_ios.WebSocket.Delivery.{
  Message, IsValid, IsOrdinary, client_frame, frames, all_seen, replies, read_ws_frame-client_frame,
  session-messages,
}

-- Two chunks that cut the frame of the text "hi" in the middle.
abbrev chunks : Socket
chunks = (0x81 ∷ 2 ∷ 104 ∷ []) ∷ (105 ∷ 7 ∷ []) ∷ []

chunks-IsOpen : IsOpen chunks
chunks-IsOpen = ((λ e. cc), ((λ e. cc), tt))

abbrev first_three : Bytes
first_three = 0x81 ∷ 2 ∷ 104 ∷ []

abbrev hi : Bytes
hi = 104 ∷ 105 ∷ []

hi-in_chunks : 0x81 ∷ 2 ∷ 104 ∷ 105 ∷ 7 ∷ [] ≡ text_frame hi ++ (7 ∷ [])
unfolding text_frame
hi-in_chunks = refl

read_ws_frame-text_frame_example :
    Reads (read_ws_frame chunks) (record { opcode = 1; payload = hi }) (7 ∷ [])
read_ws_frame-text_frame_example =
    read_ws_frame-text_frame hi (7 ∷ []) chunks (omega arith) chunks-IsOpen hi-in_chunks

abbrev empty : Server
empty = record { clients = λ k. none; pending_events = []; next_client = 9 }

free : client_fd 12 empty ≡ none
unfolding client_fd
free = refl

add_client-free_example :
    Stored 40 empty (add_client 40 empty).0 (add_client 40 empty).1
    × (client_fd (add_client 40 empty).0 empty ≡ none)
add_client-free_example = add_client-free 40 12 empty (omega arith) (omega arith) free

abbrev full : Server
full = record { clients = λ k. some (k + 3); pending_events = []; next_client = 9 }

all_taken : (k : ℕ) → k < 256 → client_fd k full ≢ none
unfolding client_fd
all_taken k h e = cc

add_client-full_example :
    ((add_client 40 full).0 ≡ (9 + 255) % 256)
    × (client_fd (add_client 40 full).0 full ≢ none)
    × (client_fd (add_client 40 full).0 (add_client 40 full).1 ≡ some 40)
add_client-full_example = add_client-full 40 full (omega arith) all_taken

abbrev text : Message
text = record { opcode = 1; key_0 = 17; key_1 = 34; key_2 = 51; key_3 = 68; payload = hi }

abbrev ping : Message
ping = record { opcode = 9; key_0 = 17; key_1 = 34; key_2 = 51; key_3 = 68; payload = 200 ∷ [] }

text-IsValid : IsValid text
text-IsValid = record {
  opcode = omega arith;
  key_0 = omega arith;
  key_1 = omega arith;
  key_2 = omega arith;
  key_3 = omega arith;
  payload_bytes = (omega arith, (omega arith, tt));
  payload_size = omega arith;
}

ping-IsValid : IsValid ping
ping-IsValid = record {
  opcode = omega arith;
  key_0 = omega arith;
  key_1 = omega arith;
  key_2 = omega arith;
  key_3 = omega arith;
  payload_bytes = (omega arith, tt);
  payload_size = omega arith;
}

text_and_ping : All IsOrdinary (text ∷ ping ∷ [])
text_and_ping = (
  record { valid = text-IsValid; not_close = refl; ping_size = refl },
  (record { valid = ping-IsValid; not_close = refl; ping_size = refl }, tt),
)

abbrev masked : Socket
masked =
    (0x81 ∷ 0x82 ∷ 17 ∷ [])
    ∷ (34 ∷ 51 ∷ 68 ∷ 121 ∷ 75 ∷ 0x89 ∷ 0x81 ∷ [])
    ∷ (17 ∷ 34 ∷ 51 ∷ 68 ∷ 217 ∷ [])
    ∷ []

masked-IsOpen : IsOpen masked
masked-IsOpen = ((λ e. cc), ((λ e. cc), ((λ e. cc), tt)))

abbrev ping_frame : Bytes
ping_frame = 0x89 ∷ 0x81 ∷ (17 ∷ 34 ∷ 51 ∷ 68 ∷ 217 ∷ [])

masked-text :
    0x81 ∷ 0x82 ∷ 17 ∷ 34 ∷ 51 ∷ 68 ∷ 121 ∷ 75 ∷ ping_frame ≡ client_frame text ++ ping_frame
masked-text = refl

read_ws_frame-client_frame_example :
    Reads (read_ws_frame masked) (record { opcode = 1; payload = hi }) ping_frame
read_ws_frame-client_frame_example =
    read_ws_frame-client_frame text ping_frame masked text-IsValid masked-IsOpen masked-text

masked-both : 0x81 ∷ 0x82 ∷ 17 ∷ 34 ∷ 51 ∷ 68 ∷ 121 ∷ 75 ∷ ping_frame ≡ frames (text ∷ ping ∷ [])
masked-both = refl

session-messages_example :
    session 3 (λ j. true) 5 masked
    ≡ some (record {
      events =
          signal MessageType.connected 5
          ∷ (all_seen 5 (text ∷ ping ∷ []) ++ (signal MessageType.disconnected 5 ∷ []));
      sent = replies (text ∷ ping ∷ []);
    })
session-messages_example =
    session-messages (text ∷ ping ∷ []) (λ j. true) 5 masked text_and_ping (λ j. refl) masked-IsOpen
      masked-both
