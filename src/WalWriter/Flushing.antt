-- ===== src/WalWriter/Flushing.antt =====
-- The two buffers and the flush thread, under every interleaving with the threads that log.
use mathlib.Core.Path.{subst}
use message_driven_event_que.Prelude.{
  ℕ, ◌≡◌, ◌≢◌, refl, ap, sym, ◌∙◌, List, [], ◌∷◌, ◌++◌, append_assoc, append-nil, All,
}
use message_driven_event_que.Message.{Bytes, Message}
use message_driven_event_que.WalWriter.{
  WalWriter, FlushPc, waiting, writing, finished, Record, publish, ack, append, acknowledge,
  swap_buffers, write_out, final_flush,
}
use message_driven_event_que.WalWriter.Format.{encode, Fits, append-encode, acknowledge-encode}
use message_driven_event_que.WalWriter.Replay.{log}
use message_driven_event_que.WalWriter.Cut.{recovered_cut, RecoversFront}

-- The writer as it is opened over a file.
abbrev pub open_file : Bytes → WalWriter
open_file file = record { file = file; flush_buf = []; active_buf = []; pc = waiting }

-- The steps of all threads since the file was opened, with the records that were logged. The flush
-- thread takes the active buffer when it is not empty, and writes before it takes the next; its last
-- flush comes when it is not writing. After it nothing more is logged.
pub data Run (file : Bytes) : List Record → WalWriter → Type 0 where
  start : Run file [] (open_file file)
  logs_message :
      {rs : List Record} {w : WalWriter} (msg : Message)
      → Run file rs w
      → w.pc ≢ finished
      → Run file (rs ++ publish msg ∷ []) (append msg w)
  logs_ack :
      {rs : List Record} {w : WalWriter} (msg_id : ℕ)
      → Run file rs w
      → w.pc ≢ finished
      → Run file (rs ++ ack msg_id ∷ []) (acknowledge msg_id w)
  swaps :
      {rs : List Record} {w : WalWriter}
      → Run file rs w
      → w.pc ≡ waiting
      → w.active_buf ≢ []
      → Run file rs (swap_buffers w)
  writes :
      {rs : List Record} {w : WalWriter}
      → Run file rs w
      → w.pc ≡ writing
      → Run file rs (write_out w)
  finishes :
      {rs : List Record} {w : WalWriter}
      → Run file rs w
      → w.pc ≡ waiting
      → Run file rs (final_flush w)

-- Where the bytes of the records are: in the file, then in the buffer that is being written, then in
-- the active one; after the last flush all of them are in the file.
abbrev pub HoldsAt : FlushPc → Bytes → WalWriter → Type 0
HoldsAt waiting all w = (w.flush_buf ≡ []) × (w.file ++ (w.flush_buf ++ w.active_buf) ≡ all)
HoldsAt writing all w = w.file ++ (w.flush_buf ++ w.active_buf) ≡ all
HoldsAt finished all w = (w.flush_buf ≡ []) × (w.file ≡ all)

abbrev pub Holds : Bytes → WalWriter → Type 0
Holds all w = HoldsAt w.pc all w

log-append : (rs : List Record) (r : Record) → log (rs ++ r ∷ []) ≡ log rs ++ encode r
log-append [] r = append-nil (encode r)
log-append (x ∷ rs) r =
    ap (λ (l : Bytes). encode x ++ l) (log-append rs r)
    ∙ sym (append_assoc (encode x) (log rs) (encode r))

regroup : (f b a e : Bytes) → f ++ (b ++ (a ++ e)) ≡ f ++ (b ++ a) ++ e
regroup f b a e = simp append_assoc

grow :
    (pc : FlushPc) (all e : Bytes) (w : WalWriter)
    → pc ≢ finished
    → HoldsAt pc all w
    → HoldsAt pc (all ++ e) (record w { active_buf = w.active_buf ++ e })
grow waiting all e w going (empty, h) =
    (empty, regroup w.file w.flush_buf w.active_buf e ∙ ap (λ (l : Bytes). l ++ e) h)
grow writing all e w going h =
    regroup w.file w.flush_buf w.active_buf e ∙ ap (λ (l : Bytes). l ++ e) h
grow finished all e w going h = absurd (going refl)

pub at_pc :
    {pc : FlushPc} (all : Bytes) (w : WalWriter) → w.pc ≡ pc → Holds all w → HoldsAt pc all w
at_pc all w e h = subst (λ p. HoldsAt p all w) e h

swap-Holds : (all : Bytes) (w : WalWriter) → HoldsAt waiting all w → Holds all (swap_buffers w)
unfolding swap_buffers
swap-Holds all w (empty, h) =
    ap (λ (l : Bytes). w.file ++ (w.active_buf ++ l)) empty
    ∙ ap (λ (l : Bytes). w.file ++ l) (append-nil w.active_buf)
    ∙ ap (λ (l : Bytes). w.file ++ (l ++ w.active_buf)) (sym empty)
    ∙ h

write-Holds : (all : Bytes) (w : WalWriter) → HoldsAt writing all w → Holds all (write_out w)
unfolding write_out
write-Holds all w h = (refl, append_assoc w.file w.flush_buf w.active_buf ∙ h)

final-Holds : (all : Bytes) (w : WalWriter) → HoldsAt waiting all w → Holds all (final_flush w)
unfolding final_flush
final-Holds all w (empty, h) =
    (empty, ap (λ (l : Bytes). w.file ++ (l ++ w.active_buf)) (sym empty) ∙ h)

behind :
    (w : WalWriter) (part rest : Bytes)
    → part ++ rest ≡ w.flush_buf
    → w.file ++ part ++ (rest ++ w.active_buf) ≡ w.file ++ (w.flush_buf ++ w.active_buf)
behind w part rest e = simp append_assoc (
    ap (λ (l : Bytes). w.file ++ l)
      (sym (append_assoc part rest w.active_buf) ∙ ap (λ (l : Bytes). l ++ w.active_buf) e))

-- All that was logged is in the file and the buffers, in the order in which it was logged; once the
-- last flush is done it is in the file.
pub Run-Holds :
    (file : Bytes) (rs : List Record) (w : WalWriter) → Run file rs w → Holds (file ++ log rs) w
Run-Holds file _ _ start = (refl, refl)
Run-Holds file _ _ (logs_message {rs = rs} {w = w} msg run going) =
    rw
      (
        append-encode msg w,
        log-append rs (publish msg),
        ← append_assoc file (log rs) (encode (publish msg)),
      )
      (grow w.pc (file ++ log rs) (encode (publish msg)) w going (Run-Holds file rs w run))
Run-Holds file _ _ (logs_ack {rs = rs} {w = w} msg_id run going) =
    rw
      (
        acknowledge-encode msg_id w,
        log-append rs (ack msg_id),
        ← append_assoc file (log rs) (encode (ack msg_id)),
      )
      (grow w.pc (file ++ log rs) (encode (ack msg_id)) w going (Run-Holds file rs w run))
Run-Holds file rs _ (swaps {w = w} run pc full) =
    swap-Holds (file ++ log rs) w (at_pc (file ++ log rs) w pc (Run-Holds file rs w run))
Run-Holds file rs _ (writes {w = w} run pc) =
    write-Holds (file ++ log rs) w (at_pc (file ++ log rs) w pc (Run-Holds file rs w run))
Run-Holds file rs _ (finishes {w = w} run pc) =
    final-Holds (file ++ log rs) w (at_pc (file ++ log rs) w pc (Run-Holds file rs w run))

pub log_append : (rs ss : List Record) → log (rs ++ ss) ≡ log rs ++ log ss
log_append [] ss = refl
log_append (r ∷ rs) ss =
    ap (λ (l : Bytes). encode r ++ l) (log_append rs ss)
    ∙ sym (append_assoc (encode r) (log rs) (log ss))

-- What is in the file and what is not, when a write has got `part` of the way.
on_disk :
    (pc : FlushPc) (all part rest : Bytes) (w : WalWriter)
    → HoldsAt pc all w
    → part ++ rest ≡ w.flush_buf
    → (back : Bytes) × ((w.file ++ part) ++ back ≡ all)
on_disk waiting all part rest w (empty, h) e = (rest ++ w.active_buf, behind w part rest e ∙ h)
on_disk writing all part rest w h e = (rest ++ w.active_buf, behind w part rest e ∙ h)
on_disk finished all part rest w (empty, h) e = (
  rest,
  append_assoc w.file part rest
      ∙ ap (λ (l : Bytes). w.file ++ l) (e ∙ empty)
      ∙ append-nil w.file
      ∙ h,
)

-- A crash at any moment, in the middle of a write too, and a restart: if the file held the records
-- `old` when it was opened, and all records fit the fields of the log, then the records of `old` and
-- of those logged since split in two, such that the file is the first part and then bytes that are no
-- whole record, and what is recovered under an id is what the first part says: the last message
-- published with it, unless the id was acknowledged. No id is recovered twice.
pub crash_recovery :
    (old rs : List Record) (w : WalWriter) (part rest : Bytes) (id : ℕ)
    → All Fits (old ++ rs)
    → Run (log old) rs w
    → part ++ rest ≡ w.flush_buf
    → RecoversFront (old ++ rs) (w.file ++ part) id
crash_recovery old rs w part rest id fits run e =
    let (back, whole) =
      on_disk w.pc (log old ++ log rs) part rest w (Run-Holds (log old) rs w run) e in
    recovered_cut (old ++ rs) (w.file ++ part) back id fits (whole ∙ sym (log_append old rs))
