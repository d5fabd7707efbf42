-- ===== src/Broker/Descriptors.antt =====
-- A descriptor that the system gives out again between `CLOSE_SOCK` and `clients_.erase`.
use message_driven_event_que.Prelude.{
  ℕ, zero, suc, ◌≡◌, refl, true, false, List, [], ◌∷◌, ◌++◌, none, some, get_elem?, eq_refl, nat_eq,
  length,
}
use message_driven_event_que.Prelude.Int.{int_eq}
use message_driven_event_que.Message.{ClientId}
use message_driven_event_que.TopicRouter.{contains, remove}
use message_driven_event_que.TopicRouter.Membership.{contains-remove}
use message_driven_event_que.Broker.{Program, done, erases, advance}
use message_driven_event_que.Broker.Threads.{
  Connection, Broker, accepts, registers, reads, move, run, accept, register, replace, add_client,
}

abbrev pub newcomer : ClientId → Connection
newcomer id = record { id = id; alive = true; program = done }

contains_first : (id : ClientId) (ids : List ClientId) → contains id (id ∷ ids) ≡ true
unfolding contains
contains_first id ids = let same = eq_refl id in rw same refl

last_elem : (cs : List Connection) (c : Connection) → get_elem? (cs ++ c ∷ []) (length cs) ≡ some c
last_elem [] c = refl
last_elem (x ∷ cs) c = last_elem cs c

early_elem :
    (n : ℕ) (c d : Connection) (cs : List Connection)
    → get_elem? cs n ≡ some c
    → get_elem? (cs ++ d ∷ []) n ≡ some c
early_elem n c d [] e = absurd cc
early_elem zero c d (x ∷ cs) e = e
early_elem (suc n) c d (x ∷ cs) e = early_elem n c d cs e

last_stays :
    (n : ℕ) (c d x : Connection) (cs : List Connection)
    → get_elem? cs n ≡ some c
    → get_elem? (replace n x (cs ++ d ∷ [])) (length cs) ≡ some d
unfolding replace
last_stays n c d x [] e = absurd cc
last_stays zero c d x (y ∷ cs) e = last_elem cs d
last_stays (suc n) c d x (y ∷ cs) e = last_stays n c d x cs e

-- A reader has closed its socket and not yet erased it from clients_, and no other socket has the
-- descriptor. If a new connection gets the descriptor and is registered before the old reader goes on,
-- then afterwards the new connection is open and read, but is not in clients_: `send_to` drops
-- every frame for it.
pub reused_descriptor :
    (b : Broker) (n : ℕ) (c : Connection) (p : Program)
    → get_elem? b.connections n ≡ some c
    → c.program ≡ erases c.id p
    → b.accepted ≡ none
    → contains c.id b.shared.open_socks ≡ false
    → (b' : Broker) × (run (accepts c.id ∷ registers ∷ reads n ∷ []) b ≡ some b')
      × (get_elem? b'.connections (length b.connections) ≡ some (newcomer c.id))
      × (contains c.id b'.shared.open_socks ≡ true)
      × (contains c.id b'.shared.clients ≡ false)
unfolding run move accept register advance
reused_descriptor b n c p there program idle closed =
    let clients = add_client c.id b.shared.clients in
    let new = newcomer c.id in
    let after : Broker = record b {
      shared = record b.shared {
        open_socks = c.id ∷ b.shared.open_socks;
        clients = remove c.id clients;
      };
      accepted = none;
      connections = replace n (record c { program = p }) (b.connections ++ new ∷ []);
    } in
    (
      after,
      rw (idle, closed, early_elem n c new b.connections there, program) refl,
      last_stays n c new (record c { program = p }) b.connections there,
      contains_first c.id b.shared.open_socks,
      contains-remove c.id clients,
    )
