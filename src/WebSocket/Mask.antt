-- ===== src/WebSocket/Mask.antt =====
-- Masking twice with the same key gives the payload back (`frame.payload[i] ^= mask[i % 4]` in
-- src/WebSocketsServer.cpp).
use crosspoint_simulator_ios.Base.{
  ℕ, zero, suc, ◌+◌, ◌%◌, ◌<◌, ◌≡◌, refl, ap, Bool, true, false, [], ◌∷◌, ◌==◌, Bytes, All,
  if◌then◌else◌, get_or, length, bit_xor, arith,
}
use crosspoint_simulator_ios.WebSocket.Frame.{unmask}

-- Whether every pair of a byte and a key byte below the bounds is restored; a table that evaluates.
restored : ℕ → ℕ → Bool
restored key zero = true
restored key (suc byte) =
    if bit_xor (bit_xor byte key) key == byte then restored key byte else false

restored_for : ℕ → ℕ → Bool
restored_for bytes zero = true
restored_for bytes (suc key) = if restored key bytes then restored_for bytes key else false

restored_at :
    (key bound byte : ℕ)
    → restored key bound ≡ true
    → byte < bound
    → bit_xor (bit_xor byte key) key ≡ byte
unfolding restored
restored_at key zero byte h k = absurd (omega arith)
restored_at key (suc last) byte h k = ground (arith, restored_at key last byte)

restored_for_at :
    (bytes bound key : ℕ)
    → restored_for bytes bound ≡ true
    → key < bound
    → restored key bytes ≡ true
unfolding restored_for
restored_for_at bytes zero key h k = absurd (omega arith)
restored_for_at bytes (suc last) key h k = ground (arith, restored_for_at bytes last key)

pub xor_twice : (x m : ℕ) → x < 256 → m < 256 → bit_xor (bit_xor x m) m ≡ x
unfolding restored_for restored
xor_twice x m hx hm = restored_at m 256 x (restored_for_at 256 256 m refl hm) hx

-- The masking of RFC 6455 by a key of four bytes, which are used in turn.
abbrev pub masked : ℕ → ℕ → ℕ → ℕ → Bytes → Bytes
masked a b c d [] = []
masked a b c d (x ∷ xs) = bit_xor x a ∷ masked b c d a xs

pub length-masked : (a b c d : ℕ) (xs : Bytes) → length (masked a b c d xs) ≡ length xs
length-masked a b c d [] = refl
length-masked a b c d (x ∷ xs) = ap suc (length-masked b c d a xs)

module _ (a b c d : ℕ) (ha : a < 256) (hb : b < 256) (hc : c < 256) (hd : d < 256) where
  abbrev key : Bytes
  key = a ∷ b ∷ c ∷ d ∷ []

  -- One byte at position i, by the remainder of i, and the bytes behind it.
  unmask-step :
      (i r k : ℕ) (x : ℕ) (xs ys : Bytes)
      → i % 4 ≡ r
      → get_or key r 0 ≡ k
      → k < 256
      → x < 256
      → unmask key (i + 1) ys ≡ xs
      → unmask key i (bit_xor x k ∷ ys) ≡ x ∷ xs
  unfolding unmask
  unmask-step i r k x xs ys e f hk hx rest =
      let first = xor_twice x k hx hk in rw (e, f, first, rest) refl

  -- The server's unmasking from a position with each remainder undoes the masking from there.
  record Restores (xs : Bytes) : Type 0 where
    at_0 : (i : ℕ) → i % 4 ≡ 0 → unmask key i (masked a b c d xs) ≡ xs
    at_1 : (i : ℕ) → i % 4 ≡ 1 → unmask key i (masked b c d a xs) ≡ xs
    at_2 : (i : ℕ) → i % 4 ≡ 2 → unmask key i (masked c d a b xs) ≡ xs
    at_3 : (i : ℕ) → i % 4 ≡ 3 → unmask key i (masked d a b c xs) ≡ xs

  masked-Restores : (xs : Bytes) → All (λ x. x < 256) xs → Restores xs
  unfolding unmask
  masked-Restores [] h = record {
    at_0 = λ i e. refl;
    at_1 = λ i e. refl;
    at_2 = λ i e. refl;
    at_3 = λ i e. refl;
  }
  masked-Restores (x ∷ xs) h =
      let r = masked-Restores xs h.1 in
      record {
        at_0 = λ i e. unmask-step i 0 a x xs _ e refl ha h.0 (r.at_1 (i + 1) (omega arith));
        at_1 = λ i e. unmask-step i 1 b x xs _ e refl hb h.0 (r.at_2 (i + 1) (omega arith));
        at_2 = λ i e. unmask-step i 2 c x xs _ e refl hc h.0 (r.at_3 (i + 1) (omega arith));
        at_3 = λ i e. unmask-step i 3 d x xs _ e refl hd h.0 (r.at_0 (i + 1) (omega arith));
      }

  -- The server's unmasking undoes the masking of RFC 6455.
  pub unmask-masked : (xs : Bytes) → All (λ x. x < 256) xs → unmask key 0 (masked a b c d xs) ≡ xs
  unmask-masked xs h = (masked-Restores xs h).at_0 0 refl
