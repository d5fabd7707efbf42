-- ===== src/WalWriter/Replay.antt =====
-- What a replay recovers, against a description of the log by its records.
use message_driven_event_que.Prelude.{
  ℕ, zero, suc, ◌≤◌, ◌≡◌, inl, inr, refl, sym, ◌∙◌, Bool, false, ◌||◌, List, [], ◌∷◌, ◌++◌, length,
  append_assoc, arith, Option, none, some, Bool-cases, if◌then◌else◌, All, ◌==◌, nat_eq,
  nat_beq_iff, leb,
}
use message_driven_event_que.Prelude.Maps.{
  lookup, upsert, lookup-upsert, lookup-Lacks, IsMap, IsMap-upsert,
}
use message_driven_event_que.Message.{Bytes, Message}
use message_driven_event_que.SafeQueue.{create}
use message_driven_event_que.SafeQueue.Fifo.{push_all-some, push_all-none}
use message_driven_event_que.WalWriter.{
  Record, publish, ack, Tables, no_tables, apply, scan, read_record, is_acked, unacked, recovered,
  replay,
}
use message_driven_event_que.WalWriter.Format.{encode, Fits}
use message_driven_event_que.WalWriter.Reading.{read_record-encode, read_record-shrinks}

-- The bytes of a log.
abbrev pub log : List Record → Bytes
log [] = []
log (r ∷ rs) = encode r ++ log rs

apply_all : Tables → List Record → Tables
apply_all t [] = t
apply_all t (r ∷ rs) = apply_all (apply t r) rs

-- The loop reads the records of a log one by one and stops at what is no whole record.
scan-log :
    (fuel : ℕ) (rs : List Record) (torn : Bytes) (t : Tables)
    → All Fits rs
    → read_record torn ≡ none
    → length (log rs ++ torn) ≤ fuel
    → scan fuel (log rs ++ torn) t ≡ apply_all t rs
unfolding scan apply_all
scan-log zero [] torn t fits stop h = refl
scan-log (suc fuel) [] torn t fits stop h = rw (stop, scan)
scan-log zero (r ∷ rs) torn t fits stop h =
    let got = read_record-encode r (log rs ++ torn) fits.0 in
    let less = read_record-shrinks (encode r ++ (log rs ++ torn)) (log rs ++ torn) r got in
    let h' = rw (append_assoc (encode r) (log rs) torn) at h in absurd (omega arith)
scan-log (suc fuel) (r ∷ rs) torn t fits stop h =
    let got = read_record-encode r (log rs ++ torn) fits.0 in
    let less = read_record-shrinks (encode r ++ (log rs ++ torn)) (log rs ++ torn) r got in
    let h' = rw (append_assoc (encode r) (log rs) torn) at h in
    rw (append_assoc (encode r) (log rs) torn, got, scan)
      (scan-log fuel rs torn (apply t r) fits.1 stop (omega arith))

-- The last message published under an id, and whether the id was ever acknowledged.
unfoldable pub latest : ℕ → List Record → Option Message
latest id [] = none
latest id (publish msg ∷ rs) = elim (latest id rs) [
  | none ↦ if msg.msg_id == id then some msg else none
  | some later ↦ some later
]
latest id (ack a ∷ rs) = latest id rs

unfoldable pub ever_acked : ℕ → List Record → Bool
ever_acked id [] = false
ever_acked id (publish msg ∷ rs) = ever_acked id rs
ever_acked id (ack a ∷ rs) = a == id || ever_acked id rs

published-latest :
    (id : ℕ) (t : Tables) (rs : List Record)
    → lookup id (apply_all t rs).published
      ≡ (elim (latest id rs) [ none ↦ lookup id t.published | some m ↦ some m ])
unfolding apply_all apply latest
published-latest id t [] = refl
published-latest id t (publish msg ∷ rs) = ground (
  arith,
  published-latest id (apply t (publish msg)) rs,
  lookup-upsert msg.msg_id id msg (λ _. msg) t.published,
)
published-latest id t (ack a ∷ rs) = published-latest id (apply t (ack a)) rs

acked-ever_acked :
    (id : ℕ) (t : Tables) (rs : List Record)
    → is_acked id (apply_all t rs).acked ≡ (ever_acked id rs || is_acked id t.acked)
unfolding apply_all apply ever_acked is_acked
acked-ever_acked id t [] = refl
acked-ever_acked id t (publish msg ∷ rs) = acked-ever_acked id (apply t (publish msg)) rs
acked-ever_acked id t (ack a ∷ rs) = ground (arith, acked-ever_acked id (apply t (ack a)) rs)

-- Each message of the table stands under its own id, and each id once.
abbrev IsKeyed : List (ℕ × Message) → Type 0
IsKeyed [] = Unit {0}
IsKeyed ((id, msg) ∷ published) = (msg.msg_id ≡ id) × IsKeyed published

IsKeyed-upsert :
    (msg : Message) (published : List (ℕ × Message))
    → IsKeyed published
    → IsKeyed (upsert msg.msg_id msg (λ _. msg) published)
unfolding upsert
IsKeyed-upsert msg [] h = (refl, tt)
IsKeyed-upsert msg ((id, old) ∷ published) h = elim (Bool-cases (id == msg.msg_id)) [
  | inl hit ↦ rw hit (sym ((nat_beq_iff id msg.msg_id).0 hit), h.1)
  | inr miss ↦ rw miss (h.0, IsKeyed-upsert msg published h.1)
]

abbrev IsTable : List (ℕ × Message) → Type 0
IsTable published = IsMap published × IsKeyed published

apply_all-IsTable :
    (t : Tables) (rs : List Record) → IsTable t.published → IsTable (apply_all t rs).published
unfolding apply_all apply
apply_all-IsTable t [] h = h
apply_all-IsTable t (publish msg ∷ rs) h =
    apply_all-IsTable (apply t (publish msg)) rs
      (IsMap-upsert msg.msg_id msg (λ _. msg) t.published h.0, IsKeyed-upsert msg t.published h.1)
apply_all-IsTable t (ack a ∷ rs) h = apply_all-IsTable (apply t (ack a)) rs h

-- The message with an id among those recovered.
unfoldable pub find : ℕ → List Message → Option Message
find id [] = none
find id (msg ∷ msgs) = if msg.msg_id == id then some msg else find id msgs

-- No two messages have one id.
abbrev pub DistinctIds : List Message → Type 0
DistinctIds [] = Unit {0}
DistinctIds (msg ∷ msgs) = (find msg.msg_id msgs ≡ none) × DistinctIds msgs

find-unacked :
    (id : ℕ) (acked : List ℕ) (published : List (ℕ × Message))
    → IsKeyed published
    → find id (unacked acked published) ≡ (if is_acked id acked then none else lookup id published)
unfolding find unacked lookup
find-unacked id acked [] h = ground arith
find-unacked id acked ((k, msg) ∷ published) h = ground (arith, find-unacked id acked published h.1)

unacked-DistinctIds :
    (acked : List ℕ) (published : List (ℕ × Message))
    → IsTable published
    → DistinctIds (unacked acked published)
unfolding unacked
unacked-DistinctIds acked [] h = tt
unacked-DistinctIds acked ((k, msg) ∷ published) h =
    let rest = unacked-DistinctIds acked published (h.0.1, h.1.1) in
    let gone = find-unacked k acked published h.1.1 in
    let absent = lookup-Lacks k published h.0.0 in
    elim (Bool-cases (is_acked k acked)) [
      | inl old ↦ rw old rest
      | inr open_still ↦ rw open_still (rw (h.1.0) (ground (arith, gone, absent)), rest)
    ]

tables-latest :
    (id : ℕ) (rs : List Record)
    → (if is_acked id (apply_all no_tables rs).acked
        then none
        else lookup id (apply_all no_tables rs).published)
      ≡ (if ever_acked id rs then none else latest id rs)
unfolding lookup is_acked
tables-latest id rs =
    ground (arith, published-latest id no_tables rs, acked-ever_acked id no_tables rs)

-- A replay of a log of records that fit its fields, also where bytes that are no whole record follow
-- them, recovers under each id the last message published with it if the id was never acknowledged,
-- before or after, and no message otherwise; and it recovers no id twice.
pub recovered-log :
    (rs : List Record) (torn : Bytes) (id : ℕ)
    → All Fits rs
    → read_record torn ≡ none
    → (find id (recovered (log rs ++ torn)) ≡ (if ever_acked id rs then none else latest id rs))
      × DistinctIds (recovered (log rs ++ torn))
unfolding recovered
recovered-log rs torn id fits stop =
    let t = apply_all no_tables rs in
    let scanned = scan-log (length (log rs ++ torn)) rs torn no_tables fits stop (omega arith) in
    let table = apply_all-IsTable no_tables rs (tt, tt) in
    rw scanned (
      find-unacked id t.acked t.published table.1 ∙ tables-latest id rs,
      unacked-DistinctIds t.acked t.published table,
    )

-- With room for what a log holds the replay fills the queue with it; with less room it never returns,
-- since it pushes before any thread takes from the queue.
pub replay-create :
    (file : Bytes) (capacity : ℕ)
    → replay file (create capacity) ≡ (
        if leb (length (recovered file)) capacity
        then some (record { items = recovered file; capacity = capacity })
        else none)
unfolding replay create
replay-create file capacity = elim (Bool-cases (leb (length (recovered file)) capacity)) [
  | inl room ↦ rw room (push_all-some (recovered file) (create capacity) (ground arith))
  | inr full ↦
      rw full (push_all-none (recovered file) (create capacity) (omega arith) (ground arith))
]
