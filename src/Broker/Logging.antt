-- ===== src/Broker/Logging.antt =====
-- What the threads of the broker write to the log, and what the next start reads.
use message_driven_event_que.Prelude.{
  ℕ, ◌≡◌, ◌≢◌, refl, sym, ◌∙◌, true, List, [], ◌∷◌, ◌++◌, none, some, if◌then◌else◌, arith,
  append-nil, All,
}
use message_driven_event_que.Prelude.Int.{ℤ}
use message_driven_event_que.Message.{Bytes}
use message_driven_event_que.SafeQueue.{push, try_pop_for}
use message_driven_event_que.TopicRouter.{is_empty}
use message_driven_event_que.WalWriter.{
  Record, WalWriter, FlushPc, waiting, writing, finished, recovered, read_record, append,
  acknowledge, swap_buffers, write_out, final_flush,
}
use message_driven_event_que.WalWriter
use message_driven_event_que.WalWriter.Format.{Fits}
use message_driven_event_que.WalWriter.Replay.{
  log, find, latest, ever_acked, DistinctIds, recovered-log,
}
use message_driven_event_que.WalWriter.Cut.{RecoversFront}
use message_driven_event_que.WalWriter.Flushing.{open_file, Run-Holds, log_append, crash_recovery}
use message_driven_event_que.WalWriter.Flushing
use message_driven_event_que.AckEngine.{to_main, to_dlq}
use message_driven_event_que.Broker.{
  Program, done, pops_main, pops_dlq, reads_clock, subscribes, unsubscribes, closes, erases, routes,
  appends, takes_id, acknowledges, pushes, calls, unlocks, sends, Shared, advance, dispatcher_round,
  logger_round, scanner_round,
}
use message_driven_event_que.Broker.Threads.{Broker, Move, move, run, boot, or_round}
use message_driven_event_que.Broker.Steps.{
  Stepped, dispatcher_ran, logger_ran, scanner_ran, reader_ran, frame_came, hung_up, registered,
  accepted_one, flushed, wrote, ticked, move-Stepped, bind_some,
}
use message_driven_event_que.Broker.Custody.{calls_lem}
use message_driven_event_que.Broker.Restart.{boot-some}

-- The log as the threads left it: its steps are those of `WalWriter.Flushing.Run`, for the records that
-- the broker logged.
abbrev pub IsLogging : Bytes → Shared → Type 0
IsLogging file s = Flushing.Run file s.logged s.wal × (s.wal.pc ≢ finished)

same_log :
    (file : Bytes) (s s' : Shared)
    → s'.logged ≡ s.logged
    → s'.wal ≡ s.wal
    → IsLogging file s
    → IsLogging file s'
same_log file s s' records bytes h = rw (records, bytes) h

advance-IsLogging :
    (file : Bytes) (p p' : Program) (s s' : Shared)
    → IsLogging file s
    → advance p s ≡ some (p', s')
    → IsLogging file s'
unfolding advance push try_pop_for append acknowledge
advance-IsLogging file done p' s s' h e = absurd cc
advance-IsLogging file pops_main p' s s' h e = same_log file s s' (ground arith) (ground arith) h
advance-IsLogging file pops_dlq p' s s' h e = same_log file s s' (ground arith) (ground arith) h
advance-IsLogging file reads_clock p' s s' h e = same_log file s s' (ground arith) (ground arith) h
advance-IsLogging file (subscribes topic group c p) p' s s' h e =
    same_log file s s' (ground arith) (ground arith) h
advance-IsLogging file (unsubscribes c p) p' s s' h e =
    same_log file s s' (ground arith) (ground arith) h
advance-IsLogging file (closes c p) p' s s' h e = same_log file s s' (ground arith) (ground arith) h
advance-IsLogging file (erases c p) p' s s' h e = same_log file s s' (ground arith) (ground arith) h
advance-IsLogging file (routes msg) p' s s' h e = same_log file s s' (ground arith) (ground arith) h
advance-IsLogging file (appends msg) p' s s' h e =
    let after = record s {
      wal = append msg s.wal;
      logged = s.logged ++ WalWriter.publish msg ∷ [];
    } in
    let same : s' ≡ after = cc in rw same (Flushing.logs_message msg h.0 h.1, h.1)
advance-IsLogging file (takes_id topic body) p' s s' h e =
    same_log file s s' (ground arith) (ground arith) h
advance-IsLogging file (acknowledges msg_id p) p' s s' h e =
    let after = record s {
      wal = acknowledge msg_id s.wal;
      logged = s.logged ++ WalWriter.ack msg_id ∷ [];
    } in
    let same : s' ≡ after = cc in rw same (Flushing.logs_ack msg_id h.0 h.1, h.1)
advance-IsLogging file (pushes (to_main msg) p) p' s s' h e =
    same_log file s s' (ground arith) (ground arith) h
advance-IsLogging file (pushes (to_dlq msg) p) p' s s' h e =
    same_log file s s' (ground arith) (ground arith) h
advance-IsLogging file (calls c p) p' s s' h e =
    let (_, shared) = calls_lem 0 c p p' s s' e in
    same_log file s s' (rw shared refl) (rw shared refl) h
advance-IsLogging file (unlocks p) p' s s' h e = same_log file s s' (ground arith) (ground arith) h
advance-IsLogging file (sends c frame p) p' s s' h e =
    same_log file s s' (ground arith) (ground arith) h

Stepped-IsLogging :
    (file : Bytes) (b b' : Broker)
    → IsLogging file b.shared
    → Stepped b b'
    → IsLogging file b'.shared
unfolding swap_buffers write_out
Stepped-IsLogging file b b' h (dispatcher_ran p s e same) =
    rw same (advance-IsLogging file (or_round dispatcher_round b.dispatcher) p b.shared s h e)
Stepped-IsLogging file b b' h (logger_ran p s e same) =
    rw same (advance-IsLogging file (or_round logger_round b.logger) p b.shared s h e)
Stepped-IsLogging file b b' h (scanner_ran p s e same) =
    rw same (advance-IsLogging file (or_round scanner_round b.scanner) p b.shared s h e)
Stepped-IsLogging file b b' h (reader_ran n x p s there e same) =
    rw same (advance-IsLogging file x.program p b.shared s h e)
Stepped-IsLogging file b b' h (frame_came n x f there idle same) = rw same h
Stepped-IsLogging file b b' h (hung_up n x there idle same) = rw same h
Stepped-IsLogging file b b' h (registered c same) = rw same h
Stepped-IsLogging file b b' h (accepted_one c fresh same) = rw same h
Stepped-IsLogging file b b' h (flushed idle full same) = rw same (
  Flushing.swaps h.0 idle
      (λ empty. let no : is_empty b.shared.wal.active_buf ≡ true = rw empty refl in cc),
  λ e. cc,
)
Stepped-IsLogging file b b' h (wrote busy same) = rw same (Flushing.writes h.0 busy, λ e. cc)
Stepped-IsLogging file b b' h (ticked d same) = rw same h

pub run-IsLogging :
    (file : Bytes) (ms : List Move) (b b' : Broker)
    → IsLogging file b.shared
    → run ms b ≡ some b'
    → IsLogging file b'.shared
unfolding run
run-IsLogging file [] b b' h e = let same : b ≡ b' = cc in rw (sym same) h
run-IsLogging file (m ∷ ms) b b' h e =
    let (mid, one, more) = bind_some (move m b) _ b' e in
    run-IsLogging file ms mid b' (Stepped-IsLogging file b mid h (move-Stepped m b mid one)) more

-- The bytes in the file after the last flush.
final_file :
    (file : Bytes) (s : Shared)
    → IsLogging file s
    → s.wal.pc ≡ waiting
    → (final_flush s.wal).file ≡ file ++ log s.logged
unfolding final_flush
final_file file s h idle =
    (Run-Holds file s.logged (final_flush s.wal) (Flushing.finishes h.0 idle)).1

pub opened_log :
    (old : List Record) (capacity ack_timeout : ℕ) (max_retries : ℤ) (first : Broker)
    → boot (log old) capacity ack_timeout max_retries ≡ some first
    → IsLogging (log old) first.shared
opened_log old capacity ack_timeout max_retries first start =
    rw (boot-some (log old) capacity ack_timeout max_retries first start) (Flushing.start, λ e. cc)

-- What a start over a log that was closed finds.
pub boot-recovered :
    (rs : List Record) (file : Bytes) (capacity ack_timeout : ℕ) (max_retries : ℤ) (next : Broker)
    (id : ℕ)
    → All Fits rs
    → file ≡ log rs
    → boot file capacity ack_timeout max_retries ≡ some next
    → (find id next.shared.main_queue.items ≡ (if ever_acked id rs then none else latest id rs))
      × DistinctIds next.shared.main_queue.items
boot-recovered rs file capacity ack_timeout max_retries next id fits closed start =
    rw (boot-some file capacity ack_timeout max_retries next start, closed, ← append-nil (log rs))
      (recovered-log rs [] id fits (unfold read_record in refl))

-- From a start over a log, after any steps of any threads, a stop (the last flush is done by a flush
-- thread that is not writing) and the next start, if it gets through: the main queue holds under each
-- id the last message that was ever published with it, in this run or before, if the id was never
-- acknowledged, and no message otherwise; and no id twice. All records fit the fields of the log.
pub stop_and_start :
    (old : List Record) (capacity ack_timeout : ℕ) (max_retries : ℤ) (first b next : Broker)
    (ms : List Move) (id : ℕ)
    → All Fits (old ++ b.shared.logged)
    → boot (log old) capacity ack_timeout max_retries ≡ some first
    → run ms first ≡ some b
    → b.shared.wal.pc ≡ waiting
    → boot (final_flush b.shared.wal).file capacity ack_timeout max_retries ≡ some next
    → (find id next.shared.main_queue.items ≡ (
        if ever_acked id (old ++ b.shared.logged)
        then none
        else latest id (old ++ b.shared.logged)))
      × DistinctIds next.shared.main_queue.items
stop_and_start old capacity ack_timeout max_retries first b next ms id fits start moves idle again =
    let logging =
      run-IsLogging (log old) ms first b
        (opened_log old capacity ack_timeout max_retries first start) moves in
    boot-recovered (old ++ b.shared.logged) (final_flush b.shared.wal).file capacity ack_timeout
      max_retries next id fits
      (final_file (log old) b.shared logging idle ∙ sym (log_append old b.shared.logged)) again

-- From a start over a log, after any steps of any threads, a crash, also in the middle of a write (the
-- file then has a front part of the buffer being written), and the next start, if it gets through: the
-- records of this run and of the earlier ones split in two, such that the file is the first part and
-- then bytes that are no whole record, and the main queue holds under each id what the first part
-- says: the last message published with the id, unless the id was acknowledged. No id stands twice.
-- All records fit the fields of the log.
pub crash_and_start :
    (old : List Record) (capacity ack_timeout : ℕ) (max_retries : ℤ) (first b next : Broker)
    (ms : List Move) (part rest : Bytes) (id : ℕ)
    → All Fits (old ++ b.shared.logged)
    → boot (log old) capacity ack_timeout max_retries ≡ some first
    → run ms first ≡ some b
    → part ++ rest ≡ b.shared.wal.flush_buf
    → boot (b.shared.wal.file ++ part) capacity ack_timeout max_retries ≡ some next
    → RecoversFront (old ++ b.shared.logged) (b.shared.wal.file ++ part) id
      × (next.shared.main_queue.items ≡ recovered (b.shared.wal.file ++ part))
crash_and_start old capacity ack_timeout max_retries first b next ms part rest id fits start moves
      cut again =
    let logging =
      run-IsLogging (log old) ms first b
        (opened_log old capacity ack_timeout max_retries first start) moves in
    let restarted =
      boot-some (b.shared.wal.file ++ part) capacity ack_timeout max_retries next again in
    (
      crash_recovery old b.shared.logged b.shared.wal part rest id fits logging.0 cut,
      rw restarted refl,
    )
