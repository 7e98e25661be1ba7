-- ===== src/WebSocket/Clients.antt =====
-- `WebSocketsServer::Impl` of src/WebSocketsServer.cpp: the clients by number and the pending events.
use crosspoint_simulator_ios.Base.{
  ℕ, zero, suc, ◌+◌, Bool, if◌then◌else◌, List, [], ◌∷◌, ◌++◌, Option, none, some, Bytes, update,
}
use crosspoint_simulator_ios.Base.Words.{u8}

-- `WStype_t`
pub data MessageType : Type 0 where
  disconnected connected text bin error : MessageType
  fragment_text_start fragment_bin_start fragment fragment_fin ping pong : MessageType

-- `Event`
pub record Event : Type 0 where
  pub num : ℕ
  pub type' : MessageType
  pub payload : Bytes
  pub length' : ℕ

-- `Impl`: `clients` is a `std::map` from a `uint8_t` to a descriptor.
pub record Server : Type 0 where
  pub clients : ℕ → Option ℕ
  pub pending_events : List Event
  pub next_client : ℕ

-- `addClient` with `tries` rounds of its loop left.
unfoldable pub add_client_rounds : ℕ → ℕ → Server → ℕ × Server
add_client_rounds zero fd v = (
  v.next_client,
  record v {
    clients = update v.clients v.next_client (some fd);
    next_client = u8 (v.next_client + 1);
  },
)
add_client_rounds (suc tries) fd v =
    let candidate = v.next_client in
    let v₁ = record v { next_client = u8 (candidate + 1) } in
    let rest = add_client_rounds tries fd v₁ in
    elim (v.clients candidate) [
      | none ↦ (candidate, record v₁ { clients = update v.clients candidate (some fd) })
      | some _ ↦ rest
    ]

-- `addClient`
unfoldable pub add_client : ℕ → Server → ℕ × Server
add_client fd v = add_client_rounds 255 fd v

-- `removeClient`
unfoldable pub remove_client : ℕ → Server → Server
remove_client num v = record v { clients = update v.clients num none }

-- `clientFd`: -1 is `none`.
unfoldable pub client_fd : ℕ → Server → Option ℕ
client_fd num v = v.clients num

-- `clientFds` over the numbers below `n`, in the order of the map; all of them are below 256.
unfoldable pub client_fds_from : ℕ → ℕ → Server → List ℕ
client_fds_from i zero v = []
client_fds_from i (suc n) v =
    let rest = client_fds_from (i + 1) n v in
    elim (v.clients i) [ none ↦ rest | some fd ↦ fd ∷ rest ]

unfoldable pub client_fds : Server → List ℕ
client_fds v = client_fds_from 0 256 v

-- `pushEvent`
unfoldable pub push_event : Event → Server → Server
push_event e v = record v { pending_events = v.pending_events ++ (e ∷ []) }

-- `drainEvents`
unfoldable pub drain_events : Server → List Event × Server
drain_events v = (v.pending_events, record v { pending_events = [] })

-- `loop`: the events that the callback is called with, in order.
unfoldable pub loop : Bool → Server → List Event × Server
loop has_callback v = if has_callback then drain_events v else ([], v)
