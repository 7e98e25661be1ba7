-- ===== src/WebSocket/RoundTrip.antt =====
-- A frame that `sendWsTextFrame` sends is the frame that `readWsFrame` reads.
use crosspoint_simulator_ios.Base.{
  flatten, ℕ, ◌/◌, ◌%◌, ◌^◌, ◌≤◌, ◌<◌, ◌≡◌, refl, ◌∙◌, ap, true, false, [], ◌∷◌, ◌++◌, arith,
  if◌then◌else◌, leb, ltb, ◌==◌, Bytes, length, Bool-cases, inl, inr, append_assoc, subst,
}
use crosspoint_simulator_ios.WebSocket.Socket.{
  Socket, ◌>>=◌, pure, recv_all, recv_all-Reads, IsOpen, Reads, >>=-Reads,
}
use crosspoint_simulator_ios.WebSocket.Frame.{
  max_ws_payload, big_endian_2, big_endian_8, text_frame, fold_length, read_length, read_payload,
  read_ws_frame,
}

pub pure-Reads :
    {A : Type 0} (a : A) (s : Socket) {rest : Bytes}
    → IsOpen s
    → flatten s ≡ rest
    → Reads (pure a s) a rest
pure-Reads a s o e = record { socket = s; result = refl; is_open = o; remains = e }

fold-big_endian_2 : (n : ℕ) → n ≤ 0xffff → fold_length 0 (big_endian_2 n) ≡ n
unfolding fold_length
fold-big_endian_2 n h = omega arith

fold-big_endian_8 : (n : ℕ) → n < 2 ^ 64 → fold_length 0 (big_endian_8 n) ≡ n
unfolding fold_length
fold-big_endian_8 n h = omega arith

-- The seven bits and the extended bytes of the length field of `sendWsTextFrame`.
abbrev pub length_bits : ℕ → ℕ
length_bits n = if ltb n 126 then n else if leb n 0xffff then 126 else 127

abbrev pub length_ext : ℕ → Bytes
length_ext n = if ltb n 126 then [] else if leb n 0xffff then big_endian_2 n else big_endian_8 n

text_frame_parts :
    (m : Bytes) → text_frame m ≡ 0x81 ∷ length_bits (length m) ∷ (length_ext (length m) ++ m)
unfolding text_frame
text_frame_parts m = ground arith

-- A length that is decoded from extended bytes.
ext-Reads :
    (k : ℕ) (ext rest : Bytes) (s : Socket) {n : ℕ}
    → length ext ≡ k
    → fold_length 0 ext ≡ n
    → IsOpen s
    → flatten s ≡ ext ++ rest
    → Reads ((do b ← recv_all k; pure (fold_length 0 b)) s) n rest
ext-Reads k ext rest s {n} l d o e =
    >>=-Reads (recv_all k) (λ b. pure (fold_length 0 b)) s
      (subst (λ j. Reads (recv_all j s) ext rest) l (recv_all-Reads s ext rest o e))
      (λ t o' e'. rw d (pure-Reads n t o' e'))

pub read_length-Reads :
    (n : ℕ) (s : Socket) (rest : Bytes)
    → n < 2 ^ 64
    → IsOpen s
    → flatten s ≡ length_ext n ++ rest
    → Reads (read_length (length_bits n) s) n rest
unfolding read_length
read_length-Reads n s rest h o e = elim (Bool-cases (ltb n 126)) [
  | inl short ↦
      let a : (n == 126) ≡ false = ground arith in
      let b : (n == 127) ≡ false = ground arith in
      rw (short, a, b) (pure-Reads n s o (e ∙ rw short))
  | inr long ↦ elim (Bool-cases (leb n 0xffff)) [
    | inl mid ↦
        let d = fold-big_endian_2 n (ground arith) in
        rw (long, mid) (ext-Reads 2 (big_endian_2 n) rest s refl d o (e ∙ rw (long, mid)))
    | inr big ↦
        let d = fold-big_endian_8 n h in
        rw (long, big) (ext-Reads 8 (big_endian_8 n) rest s refl d o (e ∙ rw (long, big)))
  ]
]

read_payload-Reads :
    (m : Bytes) (s : Socket) (rest : Bytes)
    → length m ≤ max_ws_payload
    → IsOpen s
    → flatten s ≡ m ++ rest
    → Reads (read_payload false (length m) s) m rest
unfolding read_payload
read_payload-Reads m s rest h o e =
    let fits : leb (length m) max_ws_payload ≡ true = ground arith in
    rw fits (
      >>=-Reads (recv_all (length m)) (λ b. pure b) s (recv_all-Reads s m rest o e)
        (λ t o' e'. pure-Reads m t o' e'))

-- What `sendWsTextFrame` sends for a text within the limit, followed by anything and delivered in any
-- chunks, is read by `readWsFrame` as a text frame with that text, and the bytes that follow are left
-- unread.
pub read_ws_frame-text_frame :
    (m rest : Bytes) (s : Socket)
    → length m ≤ max_ws_payload
    → IsOpen s
    → flatten s ≡ text_frame m ++ rest
    → Reads (read_ws_frame s) (record { opcode = 1; payload = m }) rest
unfolding read_ws_frame
read_ws_frame-text_frame m rest s h o e =
    let n = length m in
    let bits : length_bits n % 128 ≡ length_bits n = ground arith in
    let plain : (length_bits n / 128 % 2 == 1) ≡ false = ground arith in
    let all = e ∙ ap (λ (z : Bytes). z ++ rest) (text_frame_parts m) in
    >>=-Reads (recv_all 2) _ s (recv_all-Reads s (0x81 ∷ length_bits n ∷ []) _ o all) (λ s₁ o₁ e₁.
      rw (bits, plain)
        (>>=-Reads (read_length (length_bits n)) _ s₁
          (read_length-Reads n s₁ (m ++ rest) (omega arith) o₁
            (e₁ ∙ append_assoc (length_ext n) m rest))
          (λ s₂ o₂ e₂.
            >>=-Reads (read_payload false n) _ s₂ (read_payload-Reads m s₂ rest h o₂ e₂)
              (λ s₃ o₃ e₃. pure-Reads _ s₃ o₃ e₃))))
