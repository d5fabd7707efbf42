-- ===== src/Broker/Shutdown/Reopening.antt =====
-- A whole life of the broker: the start over a log, the run, the shutdown with the destructor of the
-- WalWriter behind it, and the next start.
use message_driven_event_que.Prelude.{
  ℕ, ◌≡◌, ◌∙◌, sym, Bool, List, ◌++◌, none, some, if◌then◌else◌, All,
}
use message_driven_event_que.Prelude.Int.{ℤ}
use message_driven_event_que.WalWriter.{Record}
use message_driven_event_que.WalWriter.Format.{Fits}
use message_driven_event_que.WalWriter.Replay.{log, find, latest, ever_acked, DistinctIds}
use message_driven_event_que.WalWriter.Flushing.{log_append}
use message_driven_event_que.WalWriter.Closing.{close, close-log}
use message_driven_event_que.Broker.Threads.{Broker, boot}
use message_driven_event_que.Broker.Logging.{run-IsLogging, opened_log, boot-recovered}
use message_driven_event_que.Broker.Shutdown.{Process, Act, act_all, started, returned}
use message_driven_event_que.Broker.Shutdown.Returning.{returned_lem, moves_of}

-- From a start over a log, after anything that the threads, the signal and `main` do, `main` returns, and
-- the WalWriter is destroyed, wherever its flush thread is then. If the next start over the file that
-- is closed gets through, the main queue holds under each id the last message that was ever published
-- with it, in this run or before, if the id was never acknowledged, and no message otherwise; and no
-- id twice. So nothing that was logged is lost by the shutdown. All records fit the fields of the
-- log.
pub shutdown_and_start :
    (old : List Record) (capacity ack_timeout : ℕ) (max_retries : ℤ) (first : Broker)
    (acts : List Act) (x : Process) (in_wait : Bool) (next : Broker) (id : ℕ)
    → All Fits (old ++ x.broker.shared.logged)
    → boot (log old) capacity ack_timeout max_retries ≡ some first
    → act_all acts (started first) ≡ some x
    → x.main ≡ returned
    → boot (close in_wait x.broker.shared.wal) capacity ack_timeout max_retries ≡ some next
    → (find id next.shared.main_queue.items ≡ (
        if ever_acked id (old ++ x.broker.shared.logged)
        then none
        else latest id (old ++ x.broker.shared.logged)))
      × DistinctIds next.shared.main_queue.items
shutdown_and_start old capacity ack_timeout max_retries first acts x in_wait next id fits start ran
      ended again =
    let s = x.broker.shared in
    let moved = (returned_lem acts first x ran ended).1 in
    let logging =
      run-IsLogging (log old) (moves_of acts) first x.broker
        (opened_log old capacity ack_timeout max_retries first start) moved in
    boot-recovered (old ++ s.logged) (close in_wait s.wal) capacity ack_timeout max_retries next id
      fits (close-log in_wait (log old) s.logged s.wal logging.0 ∙ sym (log_append old s.logged))
      again
