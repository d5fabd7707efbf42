-- ===== src/TcpServer/Accepting.antt =====
-- broker/src/TcpServer.cpp: `accept_loop`, with what `accept` returned in each round.
use message_driven_event_que.Prelude.{
  ◌≡◌, refl, Bool, true, false, not, ◌||◌, ◌&&◌, List, [], ◌∷◌, ◌++◌, map, All, arith, ◌==◌,
  if◌then◌else◌, append-nil, append_assoc, sym, eq_iff, ◌∙◌,
}
use message_driven_event_que.Prelude.Int.{int_eq}
use message_driven_event_que.Message.{ClientId}
use message_driven_event_que.TopicRouter.{contains}
use message_driven_event_que.TopicRouter.Reach.{contains-append}
use message_driven_event_que.TcpServer.Lifecycle.{Sock, invalid_sock}

-- One round of the accept loop: what it reads in running_, and what `accept` returns.
pub record Round : Type 0 where
  pub running : Bool
  pub sock : Sock

-- clients_ by its keys, and the readers that were started.
pub record Accepted : Type 0 where
  pub clients : List ClientId
  pub readers : List ClientId
  pub ended : Bool

-- `clients_[id] = conn`, and a thread for the client.
unfoldable pub take_in : Sock → Accepted → Accepted
take_in sock a = record a {
  clients = if contains sock a.clients then a.clients else a.clients ++ sock ∷ [];
  readers = a.readers ++ sock ∷ [];
}

-- After the last round the loop waits in `accept`.
unfoldable pub accept_loop : List Round → Accepted → Accepted
accept_loop [] a = a
accept_loop (r ∷ rounds) a =
    let later = accept_loop rounds (take_in r.sock a) in
    if not r.running || r.sock == invalid_sock then record a { ended = true } else later

abbrev pub is_good : Round → Bool
is_good r = r.running && not (r.sock == invalid_sock)

abbrev pub socks : List Round → List Sock
socks = map (λ r. r.sock)

serve :
    (good rounds : List Round) (a : Accepted)
    → All (λ r. is_good r ≡ true) good
    → accept_loop (good ++ rounds) a ≡ accept_loop rounds (accept_loop good a)
unfolding accept_loop
serve [] rounds a h = refl
serve (r ∷ good) rounds a h = ground (arith, h.0, serve good rounds (take_in r.sock a) h.1)

readers-accept_loop :
    (good : List Round) (a : Accepted)
    → All (λ r. is_good r ≡ true) good
    → ((accept_loop good a).readers ≡ a.readers ++ socks good)
      × ((accept_loop good a).ended ≡ a.ended)
unfolding accept_loop take_in
readers-accept_loop [] a h = (sym (append-nil a.readers), refl)
readers-accept_loop (r ∷ good) a h =
    let rest = readers-accept_loop good (take_in r.sock a) h.1 in
    let grouped = append_assoc a.readers (r.sock ∷ []) (socks good) in
    ground (arith, h.0, rest.0, rest.1, grouped)

contains-take_in :
    (sock : Sock) (a : Accepted) (id : ClientId)
    → contains id (take_in sock a).clients ≡ (contains id a.clients || (sock == id || false))
unfolding take_in contains
contains-take_in sock a id =
    ground (arith, contains-append id a.clients (sock ∷ []), eq_iff sock id)

clients-accept_loop :
    (good : List Round) (a : Accepted) (id : ClientId)
    → All (λ r. is_good r ≡ true) good
    → contains id (accept_loop good a).clients ≡ (contains id a.clients || contains id (socks good))
unfolding accept_loop contains
clients-accept_loop [] a id h = ground arith
clients-accept_loop (r ∷ good) a id h =
    ground
      (arith, h.0, clients-accept_loop good (take_in r.sock a) id h.1, contains-take_in r.sock a id)

-- The accept loop serves connections one after another, each with an entry in the table and a reader of
-- its own, until the first `accept` that fails or the first round that sees running_ cleared; that
-- ends it for good, also when the server is running, and no later connection is served.
pub accept_loop_lem :
    (good : List Round) (bad : Round) (rounds : List Round)
    → All (λ r. is_good r ≡ true) good
    → is_good bad ≡ false
    → let a =
        accept_loop (good ++ bad ∷ rounds) (record { clients = []; readers = []; ended = false }) in
      (a.readers ≡ socks good)
      × (a.ended ≡ true)
      × ((id : ClientId) → contains id a.clients ≡ contains id (socks good))
unfolding accept_loop contains
accept_loop_lem good bad rounds h halts =
    let fresh : Accepted = record { clients = []; readers = []; ended = false } in
    let served = accept_loop good fresh in
    let first : accept_loop (good ++ bad ∷ rounds) fresh ≡ record served { ended = true } =
      serve good (bad ∷ rounds) fresh h ∙ ground arith in
    rw first ((readers-accept_loop good fresh h).0, refl, λ id. clients-accept_loop good fresh id h)
