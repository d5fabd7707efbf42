-- ===== src/Broker/Acknowledging.antt =====
-- What an acknowledgement does, at once and at the next start.
use message_driven_event_que.Prelude.{
  ℕ, ◌≡◌, refl, sym, ap, ◌∙◌, true, false, List, [], ◌∷◌, ◌++◌, some, none, arith, All, nat_eq,
  pair_eq, ◌==◌, eq_refl, append-nil, append_assoc, if◌then◌else◌,
}
use message_driven_event_que.Prelude.Int.{int_eq}
use message_driven_event_que.Prelude.Maps.{lookup, erase, lookup-erase}
use message_driven_event_que.Message.{Bytes, ClientId, ack}
use message_driven_event_que.WalWriter.{
  WalWriter, Record, acknowledge, recovered, read_record, read_bytes,
}
use message_driven_event_que.WalWriter
use message_driven_event_que.WalWriter.Format.{Fits, encode, acknowledge-encode}
use message_driven_event_que.WalWriter.Flushing.{log_append}
use message_driven_event_que.WalWriter.Replay.{log, find, ever_acked, recovered-log}
use message_driven_event_que.AckEngine.{Key}
use message_driven_event_que.AckEngine
use message_driven_event_que.TcpServer.{Frame}
use message_driven_event_que.Broker.{
  done, calls, acks, acknowledges, Shared, advance, on_frame, event,
}
use message_driven_event_que.Broker.Dispatching.{drive}
use message_driven_event_que.Broker.Calls.{drive-calls, with_pushes}

on_frame-ack :
    (id : ClientId) (f : Frame)
    → f.type ≡ ack
    → on_frame id f ≡ calls (acks f.msg_id id) (acknowledges f.msg_id done)
unfolding on_frame
on_frame-ack id f type = rw type refl

ack_step :
    (now msg_id : ℕ) (id : ClientId) (e : AckEngine.AckEngine)
    → AckEngine.step (event now (acks msg_id id)) e
      ≡ ([], record e { in_flight = erase {K = Key} (msg_id, id) e.in_flight })
unfolding event AckEngine.step AckEngine.ack
ack_step now msg_id id e = refl

noted :
    (msg_id : ℕ) (s : Shared)
    → drive 1 (acknowledges msg_id done) s
      ≡ some (
        done,
        record s { wal = acknowledge msg_id s.wal; logged = s.logged ++ WalWriter.ack msg_id ∷ [] },
      )
unfolding drive advance
noted msg_id s = refl

acked_among :
    (id : ℕ) (before later : List Record)
    → ever_acked id (before ++ WalWriter.ack id ∷ later) ≡ true
unfolding ever_acked
acked_among id [] later = rw (eq_refl id) refl
acked_among id (WalWriter.publish msg ∷ before) later = acked_among id before later
acked_among id (WalWriter.ack a ∷ before) later = ground (arith, acked_among id before later)

nothing_torn : read_record [] ≡ none
unfolding read_record read_bytes
nothing_torn = refl

not_recovered :
    (id : ℕ) (before later : List Record)
    → All Fits (before ++ WalWriter.ack id ∷ later)
    → find id (recovered (log (before ++ WalWriter.ack id ∷ later))) ≡ none
not_recovered id before later fits =
    let rs = before ++ WalWriter.ack id ∷ later in
    let found = (recovered-log rs [] id fits nothing_torn).0 in
    rw (append-nil (log rs), acked_among id before later) at found

-- The bytes of the log, where they are: in the file, then in the buffer that is being written, then in
-- the active one.
abbrev pub bytes_of : WalWriter → Bytes
bytes_of w = w.file ++ (w.flush_buf ++ w.active_buf)

-- The log with the record of an acknowledgement behind it.
abbrev pub with_ack : ℕ → WalWriter → WalWriter
with_ack msg_id w = record w { active_buf = w.active_buf ++ encode (WalWriter.ack msg_id) }

bytes_of-with_ack :
    (id : ℕ) (w : WalWriter) (before later : List Record)
    → bytes_of w ≡ log before
    → bytes_of (with_ack id w) ++ log later ≡ log (before ++ WalWriter.ack id ∷ later)
bytes_of-with_ack id w before later held =
    let grown : bytes_of (with_ack id w) ++ log later
        ≡ bytes_of w ++ (encode (WalWriter.ack id) ++ log later) =
      simp append_assoc in
    grown
    ∙ ap (λ (l : Bytes). l ++ (encode (WalWriter.ack id) ++ log later)) held
    ∙ sym (log_append before (WalWriter.ack id ∷ later))

-- An acknowledgement, handled without interruption: the client's delivery of the message is no longer in
-- flight, every other one is as it was, and exactly the bytes of an acknowledgement of the message
-- are put behind those of the log. If the log held some records, in the file and its buffers together,
-- then a start over it, with any later records behind it, does not recover the message, all records
-- fitting the fields of the log.
pub ack-recovered :
    (id : ClientId) (f : Frame) (s : Shared) (before later : List Record)
    → f.type ≡ ack
    → s.locked ≡ false
    → bytes_of s.wal ≡ log before
    → All Fits (before ++ WalWriter.ack f.msg_id ∷ later)
    → (s' : Shared) × (drive 3 (on_frame id f) s ≡ some (done, s'))
      × ((k : Key)
          → lookup k s'.engine.in_flight
            ≡ (if (f.msg_id, id) == k then none else lookup k s.engine.in_flight))
      × (s'.wal ≡ with_ack f.msg_id s.wal)
      × (s'.logged ≡ s.logged ++ WalWriter.ack f.msg_id ∷ [])
      × (s'.locked ≡ false)
      × (find f.msg_id (recovered (bytes_of s'.wal ++ log later)) ≡ none)
ack-recovered id f s before later type free held fits =
    let engine = record s.engine {
      in_flight = erase {K = Key} (f.msg_id, id) s.engine.in_flight;
    } in
    let s1 = record s { engine = engine; locked = false } in
    let acked = acknowledges f.msg_id done in
    let handled =
      drive-calls 1 (acks f.msg_id id) acked s [] engine free
        (ack_step s.clock f.msg_id id s.engine) tt tt in
    (
      record s1 { wal = with_ack f.msg_id s.wal; logged = s.logged ++ WalWriter.ack f.msg_id ∷ [] },
      rw (on_frame-ack id f type) (
          handled
          ∙ noted f.msg_id (with_pushes [] s1)
          ∙ rw
              (
                acknowledge-encode f.msg_id s.wal,
                append-nil s.main_queue.items,
                append-nil s.dlq.items,
              )
              refl),
      λ k. lookup-erase {K = Key} (f.msg_id, id) k s.engine.in_flight,
      refl,
      refl,
      refl,
      rw (bytes_of-with_ack f.msg_id s.wal before later held)
          (not_recovered f.msg_id before later fits),
    )
