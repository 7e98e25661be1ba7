-- ===== src/WebSocket/Numbers.antt =====
-- The numbers that `addClient` of src/WebSocketsServer.cpp gives to its clients.
use crosspoint_simulator_ios.Base.{
  ℕ, zero, suc, ◌+◌, ◌-◌, ◌%◌, ◌≤◌, ◌<◌, ◌≡◌, ◌≢◌, sym, ◌∙◌, ap, none, some, arith, Option-cases,
  inl, inr,
}
use crosspoint_simulator_ios.Base.Words.{u8}
use crosspoint_simulator_ios.WebSocket.Clients.{Server, add_client_rounds, add_client, client_fd}

-- `w` is `v` with the descriptor `fd` stored under `num`, and nothing else changed among the clients.
pub record Stored (fd : ℕ) (v : Server) (num : ℕ) (w : Server) : Type 0 where
  pub in_range : num < 256
  pub stored : client_fd num w ≡ some fd
  pub others : (k : ℕ) → k ≢ num → client_fd k w ≡ client_fd k v

rounds-Stored :
    (tries fd : ℕ) (v : Server)
    → v.next_client < 256
    → let (num, w) = add_client_rounds tries fd v in Stored fd v num w
unfolding add_client_rounds client_fd
rounds-Stored zero fd v h = record {
  in_range = h;
  stored = ground arith;
  others = λ k n. ground arith;
}
rounds-Stored (suc tries) fd v h = elim (Option-cases (v.clients v.next_client)) [
  | inl free ↦
      rw (add_client_rounds, free)
        (record { in_range = h; stored = ground arith; others = λ k n. ground arith })
  | inr (f, taken) ↦
      let s =
        rounds-Stored tries fd (record v { next_client = u8 (v.next_client + 1) }) (omega arith) in
      rw (add_client_rounds, taken)
        (record { in_range = s.in_range; stored = s.stored; others = s.others })
]

rounds-free :
    (tries fd k : ℕ) (v : Server)
    → k ≤ tries
    → v.next_client < 256
    → client_fd (u8 (v.next_client + k)) v ≡ none
    → client_fd (add_client_rounds tries fd v).0 v ≡ none
unfolding add_client_rounds client_fd
rounds-free zero fd k v h n free =
    let at : u8 (v.next_client + k) ≡ v.next_client = omega arith in ap v.clients (sym at) ∙ free
rounds-free (suc tries) fd zero v h n free =
    let at : u8 (v.next_client + 0) ≡ v.next_client = omega arith in
    let now = ap v.clients (sym at) ∙ free in rw (add_client_rounds, now) now
rounds-free (suc tries) fd (suc k) v h n free = elim (Option-cases (v.clients v.next_client)) [
  | inl now ↦ rw (add_client_rounds, now) now
  | inr (f, taken) ↦
      let at : u8 (u8 (v.next_client + 1) + k) ≡ u8 (v.next_client + suc k) = omega arith in
      rw (add_client_rounds, taken)
        (rounds-free tries fd k (record v { next_client = u8 (v.next_client + 1) }) (omega arith)
          (omega arith) (ap v.clients at ∙ free))
]

-- If any of the 256 numbers is free, a new client gets a number that was free, its descriptor is stored
-- under it, and the clients under all other numbers stay.
pub add_client-free :
    (fd k : ℕ) (v : Server)
    → v.next_client < 256
    → k < 256
    → client_fd k v ≡ none
    → let (num, w) = add_client fd v in Stored fd v num w × (client_fd num v ≡ none)
unfolding add_client
add_client-free fd k v h hk free =
    let j = (k + 256 - v.next_client) % 256 in
    let at : u8 (v.next_client + j) ≡ k = omega arith in
    (
      rounds-Stored 255 fd v h,
      rounds-free 255 fd j v (omega arith) h (ap (λ n. client_fd n v) at ∙ free),
    )

rounds-full :
    (tries fd : ℕ) (v : Server)
    → v.next_client < 256
    → ((k : ℕ) → k < 256 → client_fd k v ≢ none)
    → (add_client_rounds tries fd v).0 ≡ u8 (v.next_client + tries)
unfolding add_client_rounds client_fd
rounds-full zero fd v h full = omega arith
rounds-full (suc tries) fd v h full = elim (Option-cases (v.clients v.next_client)) [
  | inl free ↦ absurd (full v.next_client h free)
  | inr (f, taken) ↦
      rw (add_client_rounds, taken)
        (rounds-full tries fd (record v { next_client = u8 (v.next_client + 1) }) (omega arith) full
          ∙ omega arith)
]

-- When all 256 numbers are taken, a new client is stored over the client whose number is one below
-- the next one, whose descriptor the server then no longer has.
pub add_client-full :
    (fd : ℕ) (v : Server)
    → v.next_client < 256
    → ((k : ℕ) → k < 256 → client_fd k v ≢ none)
    → let (num, w) = add_client fd v in
      (num ≡ (v.next_client + 255) % 256) × (client_fd num v ≢ none) × (client_fd num w ≡ some fd)
unfolding add_client
add_client-full fd v h full =
    let s = rounds-Stored 255 fd v h in
    (rounds-full 255 fd v h full, full (add_client_rounds 255 fd v).0 s.in_range, s.stored)
