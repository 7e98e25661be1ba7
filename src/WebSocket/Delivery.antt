-- ===== src/WebSocket/Delivery.antt =====
-- What a client sends, in the masked frames of RFC 6455, reaches the callback of
-- src/WebSocketsServer.cpp in order.
use crosspoint_simulator_ios.Base.{
  flatten, ℕ, suc, ◌+◌, ◌/◌, ◌%◌, ◌≤◌, ◌<◌, ◌≡◌, refl, ◌∙◌, ap, subst, Bool, true, false, List, [],
  ◌∷◌, ◌++◌, none, some, arith, if◌then◌else◌, leb, ltb, ◌==◌, Bytes, length, All, append_assoc,
  append-nil, not, ◌||◌,
}
use crosspoint_simulator_ios.WebSocket.Socket.{
  Socket, pure, recv_all, recv_rounds, recv_all-Reads, IsOpen, Reads, >>=-Reads,
}
use crosspoint_simulator_ios.WebSocket.Frame.{
  max_ws_payload, unmask, read_length, read_payload, read_ws_frame, pong_frame,
}
use crosspoint_simulator_ios.WebSocket.RoundTrip.{
  length_bits, length_ext, read_length-Reads, pure-Reads,
}
use crosspoint_simulator_ios.WebSocket.Mask.{masked, length-masked, unmask-masked}
use crosspoint_simulator_ios.WebSocket.Clients.{Event, MessageType}
use crosspoint_simulator_ios.WebSocket.Session.{handle_frame, join, session_rounds, signal, session}

-- A message of a client: its opcode, the key that it is masked with, and its payload.
pub record Message : Type 0 where
  pub opcode : ℕ
  pub key_0 : ℕ
  pub key_1 : ℕ
  pub key_2 : ℕ
  pub key_3 : ℕ
  pub payload : Bytes

pub record IsValid (m : Message) : Type 0 where
  pub opcode : m.opcode < 16
  pub key_0 : m.key_0 < 256
  pub key_1 : m.key_1 < 256
  pub key_2 : m.key_2 < 256
  pub key_3 : m.key_3 < 256
  pub payload_bytes : All (λ b. b < 256) m.payload
  pub payload_size : length m.payload ≤ max_ws_payload

abbrev pub key : Message → Bytes
key m = m.key_0 ∷ m.key_1 ∷ m.key_2 ∷ m.key_3 ∷ []

abbrev pub body : Message → Bytes
body m = masked m.key_0 m.key_1 m.key_2 m.key_3 m.payload

-- The frame of RFC 6455 for a message.
abbrev pub client_frame : Message → Bytes
client_frame m =
    (0x80 + m.opcode)
    ∷ (0x80 + length_bits (length m.payload))
    ∷ (length_ext (length m.payload) ++ (key m ++ body m))

read_masked-Reads :
    (m : Message) (s : Socket) (rest : Bytes)
    → IsValid m
    → IsOpen s
    → flatten s ≡ key m ++ (body m ++ rest)
    → Reads (read_payload true (length m.payload) s) m.payload rest
unfolding read_payload
read_masked-Reads m s rest v o e =
    let fits : leb (length m.payload) max_ws_payload ≡ true = ground (arith, v.payload_size) in
    let same = length-masked m.key_0 m.key_1 m.key_2 m.key_3 m.payload in
    let plain =
      unmask-masked m.key_0 m.key_1 m.key_2 m.key_3 v.key_0 v.key_1 v.key_2 v.key_3 m.payload
        v.payload_bytes in
    rw fits (
      >>=-Reads (recv_all 4) _ s (recv_all-Reads s (key m) (body m ++ rest) o e) (λ s₁ o₁ e₁.
        >>=-Reads (recv_all (length m.payload)) _ s₁
          (subst (λ j. Reads (recv_all j s₁) (body m) rest) same
            (recv_all-Reads s₁ (body m) rest o₁ e₁))
          (λ s₂ o₂ e₂.
            subst (λ p. Reads (pure (unmask (key m) 0 (body m)) s₂) p rest) plain
              (pure-Reads (unmask (key m) 0 (body m)) s₂ o₂ e₂))))

-- A masked frame, followed by anything and delivered in any chunks, is read as its opcode and its
-- unmasked payload, and what follows is left unread.
pub read_ws_frame-client_frame :
    (m : Message) (rest : Bytes) (s : Socket)
    → IsValid m
    → IsOpen s
    → flatten s ≡ client_frame m ++ rest
    → Reads (read_ws_frame s) (record { opcode = m.opcode; payload = m.payload }) rest
unfolding read_ws_frame
read_ws_frame-client_frame m rest s v o e =
    let n = length m.payload in
    let small = v.opcode in
    let fits = v.payload_size in
    let bits : (0x80 + length_bits n) % 128 ≡ length_bits n = ground arith in
    let masked : ((0x80 + length_bits n) / 128 % 2 == 1) ≡ true = ground arith in
    let op : (0x80 + m.opcode) % 16 ≡ m.opcode = omega arith in
    >>=-Reads (recv_all 2) _ s
      (recv_all-Reads s ((0x80 + m.opcode) ∷ (0x80 + length_bits n) ∷ []) _ o e)
      (λ s₁ o₁ e₁.
        rw (bits, masked, op)
          (>>=-Reads (read_length (length_bits n)) _ s₁
            (read_length-Reads n s₁ (key m ++ (body m ++ rest)) (omega arith) o₁ (
              e₁
              ∙ append_assoc (length_ext n) (key m ++ body m) rest
              ∙ ap (λ (z : Bytes). length_ext n ++ z) (append_assoc (key m) (body m) rest)))
            (λ s₂ o₂ e₂.
              >>=-Reads (read_payload true n) _ s₂ (read_masked-Reads m s₂ rest v o₂ e₂)
                (λ s₃ o₃ e₃. pure-Reads _ s₃ o₃ e₃))))

-- The bytes of one message after another.
abbrev pub frames : List Message → Bytes
frames [] = []
frames (m ∷ ms) = client_frame m ++ frames ms

-- What the callback is to see of a message, and what the client is to get back.
abbrev pub seen : ℕ → Message → List Event
seen num m =
    if m.opcode == 1
    then record {
      num = num;
      type' = MessageType.text;
      payload = m.payload ++ (0 ∷ []);
      length' = length m.payload;
    }
      ∷ []
    else if m.opcode == 2
    then record {
      num = num;
      type' = MessageType.bin;
      payload = m.payload;
      length' = length m.payload;
    }
      ∷ []
    else []

abbrev pub reply : Message → Bytes
reply m = if m.opcode == 9 then 0x8a ∷ length m.payload ∷ m.payload else []

abbrev pub all_seen : ℕ → List Message → List Event
all_seen num [] = []
all_seen num (m ∷ ms) = seen num m ++ all_seen num ms

abbrev pub replies : List Message → Bytes
replies [] = []
replies (m ∷ ms) = reply m ++ replies ms

-- A valid message that does not close; a ping has at most 125 bytes, as RFC 6455 has it.
pub record IsOrdinary (m : Message) : Type 0 where
  pub valid : IsValid m
  pub not_close : (m.opcode == 8) ≡ false
  pub ping_size : (not (m.opcode == 9) || ltb (length m.payload) 126) ≡ true

handle_frame_lem :
    (num : ℕ) (m : Message)
    → IsOrdinary m
    → handle_frame num (record { opcode = m.opcode; payload = m.payload })
      ≡ some (record { events = seen num m; sent = reply m })
unfolding handle_frame pong_frame
handle_frame_lem num m o = ground (arith, o.not_close, o.ping_size)

end_of_socket : (s : Socket) → IsOpen s → flatten s ≡ [] → read_ws_frame s ≡ none
unfolding read_ws_frame recv_all recv_rounds
end_of_socket [] o e = refl
end_of_socket ([] ∷ s) o e = absurd (o.0 refl)
end_of_socket ((b ∷ c) ∷ s) o e = absurd (cc)

rounds-messages :
    (ms : List Message) (active : ℕ → Bool) (i num : ℕ) (s : Socket)
    → All IsOrdinary ms
    → ((j : ℕ) → active j ≡ true)
    → IsOpen s
    → flatten s ≡ frames ms
    → session_rounds (suc (length ms)) active i num s
      ≡ some (record { events = all_seen num ms; sent = replies ms })
unfolding session_rounds join
rounds-messages [] active i num s v a o e = rw (a i, end_of_socket s o e) refl
rounds-messages (m ∷ ms) active i num s v a o e =
    let r = read_ws_frame-client_frame m (frames ms) s (v.0).valid o e in
    let rest = rounds-messages ms active (i + 1) num r.socket v.1 a r.is_open r.remains in
    rw (a i, r.result, handle_frame_lem num m v.0, rest) refl

-- Messages that a client sends in masked frames, delivered in any chunks and followed by the end of
-- the connection, give the connected event, the text and binary messages in their order under the
-- client's number, each with its length and a text with a zero byte behind it, and the disconnected
-- event. Every ping is answered with its payload, in order. As many rounds as messages and one more are
-- enough.
pub session-messages :
    (ms : List Message) (active : ℕ → Bool) (num : ℕ) (s : Socket)
    → All IsOrdinary ms
    → ((j : ℕ) → active j ≡ true)
    → IsOpen s
    → flatten s ≡ frames ms
    → session (suc (length ms)) active num s
      ≡ some (record {
        events =
            signal MessageType.connected num
            ∷ (all_seen num ms ++ (signal MessageType.disconnected num ∷ []));
        sent = replies ms;
      })
unfolding session join
session-messages ms active num s v a o e =
    rw (rounds-messages ms active 0 num s v a o e, append-nil (replies ms)) refl
