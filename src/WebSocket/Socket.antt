-- ===== src/WebSocket/Socket.antt =====
-- `recvAll` of src/WebSocketsServer.cpp over a socket. The socket is the list of what its successive
-- `recv` calls find: a call returns at most what it asks for, the rest of the chunk stays, and an
-- empty chunk or the end of the list is an error or the end of the connection.
use crosspoint_simulator_ios.Base.{
  ℕ, zero, suc, ◌-◌, ◌≤◌, ◌<◌, ◌≡◌, ◌≢◌, refl, sym, ◌∙◌, ap, List, [], ◌∷◌, ◌++◌, Option, none,
  some, arith, if◌then◌else◌, leb, Bytes, All, flatten, length, take, drop, Bool-cases, inl, inr,
  length-append, subst, take-length_append, drop-length_append,
}

abbrev pub Socket : Type 0
Socket = List Bytes

-- Reading from a socket; `none` is a failed read.
abbrev pub Reader : Type 0 → Type 0
Reader A = Socket → Option (A × Socket)

infixl 5 ◌>>=◌ ◌>>◌
abbrev pub ◌>>=◌ : {A B : Type 0} → Reader A → (A → Reader B) → Reader B
◌>>=◌ m f s = elim (m s) [ none ↦ none | some (a, s') ↦ f a s' ]

abbrev pub ◌>>◌ : {B : Type 0} → Reader (Unit {0}) → Reader B → Reader B
m >> k = m >>= λ _. k

abbrev pub pure : {A : Type 0} → A → Reader A
pure a s = some (a, s)

abbrev pub fail : {A : Type 0} → Reader A
fail s = none

abbrev prepend : Bytes → Option (Bytes × Socket) → Option (Bytes × Socket)
prepend c none = none
prepend c (some (bs, s)) = some (c ++ bs, s)

-- The rounds of `recvAll` with `len` bytes still wanted.
unfoldable pub recv_rounds : Socket → ℕ → Option (Bytes × Socket)
recv_rounds s zero = some ([], s)
recv_rounds [] (suc n) = none
recv_rounds ([] ∷ s) (suc n) = none
recv_rounds ((b ∷ c) ∷ s) (suc n) =
    let rest = prepend (b ∷ c) (recv_rounds s (suc n - length (b ∷ c))) in
    if leb (length (b ∷ c)) (suc n)
    then rest
    else some (take (suc n) (b ∷ c), drop (suc n) (b ∷ c) ∷ s)

-- `recvAll`
unfoldable pub recv_all : ℕ → Reader Bytes
unfolding recv_rounds
recv_all len s = recv_rounds s len

-- Every `recv` finds something until the end.
abbrev pub IsOpen : Socket → Type 0
IsOpen = All (λ (c : Bytes). c ≢ [])

-- What a read leaves, and what it gives.
pub record Reads {A : Type 0} (m : Option (A × Socket)) (a : A) (rest : Bytes) : Type 0 where
  pub socket : Socket
  pub result : m ≡ some (a, socket)
  pub is_open : IsOpen socket
  pub remains : flatten socket ≡ rest

drop-ne-nil : (n : ℕ) (c : Bytes) → n < length c → drop n c ≢ []
drop-ne-nil zero [] h = absurd (omega arith)
drop-ne-nil zero (b ∷ c) h = λ e. cc
drop-ne-nil (suc n) [] h = absurd (omega arith)
drop-ne-nil (suc n) (b ∷ c) h = drop-ne-nil n c (omega arith)

-- Of two decompositions of a list, the one with the shorter front is refined by the other.
append-split :
    (c t xs rest : Bytes)
    → c ++ t ≡ xs ++ rest
    → length c ≤ length xs
    → (ys : Bytes) × (xs ≡ c ++ ys) × (t ≡ ys ++ rest)
append-split [] t xs rest e h = (xs, refl, e)
append-split (b ∷ c) t [] rest e h = absurd (omega arith)
append-split (b ∷ c) t (x ∷ xs) rest e h =
    let (ys, p, q) = append-split c t xs rest (cc) (omega arith) in (ys, cc, q)

prepend-Reads :
    (c ys rest : Bytes) (m : Option (Bytes × Socket))
    → Reads m ys rest
    → Reads (prepend c m) (c ++ ys) rest
prepend-Reads c ys rest m r = record {
  socket = r.socket;
  result = rw r.result;
  is_open = r.is_open;
  remains = r.remains;
}

-- A read of as many bytes as `xs` has, from a socket that delivers `xs` and then `rest` in any
-- chunks, gives `xs` and leaves `rest`.
recv_rounds-Reads :
    (s : Socket) (xs rest : Bytes)
    → IsOpen s
    → flatten s ≡ xs ++ rest
    → Reads (recv_rounds s (length xs)) xs rest
unfolding recv_rounds
recv_rounds-Reads s [] rest o e = record { socket = s; result = refl; is_open = o; remains = e }
recv_rounds-Reads [] (x ∷ xs) rest o e = absurd (cc)
recv_rounds-Reads ([] ∷ s) (x ∷ xs) rest o e = absurd (o.0 refl)
recv_rounds-Reads ((b ∷ c) ∷ s) (x ∷ xs) rest o e =
    elim (Bool-cases (leb (length (b ∷ c)) (length (x ∷ xs)))) [
      | inl whole ↦
          let (ys, p, q) = append-split (b ∷ c) (flatten s) (x ∷ xs) rest e (ground arith) in
          let n : length (x ∷ xs) - length (b ∷ c) ≡ length ys =
            omega (arith, ap length p, length-append (b ∷ c) ys) in
          rw whole (rw (n, p) (prepend-Reads (b ∷ c) ys rest _ (recv_rounds-Reads s ys rest o.1 q)))
      | inr part ↦
          let (ys, p, q) = append-split (x ∷ xs) rest (b ∷ c) (flatten s) (sym e) (ground arith) in
          let front = ap (take (length (x ∷ xs))) p ∙ take-length_append (x ∷ xs) ys in
          let back = ap (drop (length (x ∷ xs))) p ∙ drop-length_append (x ∷ xs) ys in
          rw part (record {
            socket = drop (length (x ∷ xs)) (b ∷ c) ∷ s;
            result = ap (λ (z : Bytes). some (z, drop (length (x ∷ xs)) (b ∷ c) ∷ s)) front;
            is_open = (drop-ne-nil (length (x ∷ xs)) (b ∷ c) (ground arith), o.1);
            remains = ap (λ (z : Bytes). z ++ flatten s) back ∙ sym q;
          })
    ]

-- `recvAll` for as many bytes as `xs` has, on a connection that delivers `xs` and then `rest` in any
-- chunks, gives `xs` and leaves exactly `rest` to be read.
pub recv_all-Reads :
    (s : Socket) (xs rest : Bytes)
    → IsOpen s
    → flatten s ≡ xs ++ rest
    → Reads (recv_all (length xs) s) xs rest
unfolding recv_all
recv_all-Reads = recv_rounds-Reads

-- What a reader gives is handed on, with the bytes that it leaves.
pub >>=-Reads :
    {A B : Type 0} (m : Reader A) (f : A → Reader B) (s : Socket) {a : A} {b : B} {mid rest : Bytes}
    → Reads (m s) a mid
    → ((t : Socket) → IsOpen t → flatten t ≡ mid → Reads (f a t) b rest)
    → Reads ((m >>= f) s) b rest
>>=-Reads {B = B} m f s {b = b} {rest = rest} r k =
    subst (λ (o : Option (_ × Socket)). Reads (elim o [ none ↦ none | some (a, t) ↦ f a t ]) b rest)
      (sym r.result) (k r.socket r.is_open r.remains)
