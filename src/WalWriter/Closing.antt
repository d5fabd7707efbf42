-- ===== src/WalWriter/Closing.antt =====
-- The destructor of broker/src/WalWriter.cpp and the way out of the flush thread's loop.
use message_driven_event_que.Prelude.{
  ℕ, arith, ◌≡◌, refl, Bool, true, false, List, [], ◌∷◌, ◌++◌, if◌then◌else◌,
}
use message_driven_event_que.Message.{Bytes}
use message_driven_event_que.WalWriter.{
  WalWriter, FlushPc, waiting, writing, finished, Record, swap_buffers, write_out, final_flush,
}
use message_driven_event_que.WalWriter.Replay.{log}
use message_driven_event_que.WalWriter.Flushing.{Run, Run-Holds, at_pc}
use message_driven_event_que.WalWriter.Flushing

-- A round that finds `running_` cleared inside the wait: it still takes what is there and writes it.
unfoldable pub last_round : WalWriter → WalWriter
last_round w = elim w.active_buf [ [] ↦ w | _ ∷ _ ↦ write_out (swap_buffers w) ]

-- What the flush thread still does once `running_` is cleared. `in_wait` says whether it is then inside
-- the wait or at the head of the loop.
unfoldable pub end_loop : Bool → WalWriter → WalWriter
unfolding last_round
end_loop in_wait w = elim w.pc [
  | waiting ↦ final_flush (if in_wait then last_round w else w)
  | writing ↦ final_flush (write_out w)
  | finished ↦ w
]

-- The file that the destructor closes, after it has joined the flush thread.
unfoldable pub close : Bool → WalWriter → Bytes
close in_wait w = (end_loop in_wait w).file

-- Where the thread may be at the end of its loop.
abbrev Ended : Bytes → List Record → WalWriter → Type 0
Ended file rs w = Run file rs w × (w.pc ≡ finished)

flushed_last :
    {file : Bytes} {rs : List Record} (w : WalWriter)
    → Run file rs w
    → w.pc ≡ waiting
    → Ended file rs (final_flush w)
unfolding final_flush
flushed_last w h idle = (Flushing.finishes h idle, refl)

nothing_there : (w : WalWriter) → w.active_buf ≡ [] → last_round w ≡ w
unfolding last_round
nothing_there w e = ground arith

something_there :
    (w : WalWriter) (b : ℕ) (bs : Bytes)
    → w.active_buf ≡ b ∷ bs
    → last_round w ≡ write_out (swap_buffers w)
unfolding last_round
something_there w b bs e = ground arith

rounded :
    {file : Bytes} {rs : List Record} (w : WalWriter) (active : Bytes)
    → w.active_buf ≡ active
    → Run file rs w
    → w.pc ≡ waiting
    → Ended file rs (final_flush (last_round w))
unfolding swap_buffers write_out
rounded w [] e h idle = rw (nothing_there w e) (flushed_last w h idle)
rounded w (b ∷ bs) e h idle =
    let swapped = Flushing.swaps h idle (λ empty. cc) in
    rw (something_there w b bs e)
      (flushed_last (write_out (swap_buffers w)) (Flushing.writes swapped refl) refl)

ends_waiting :
    (in_wait : Bool) (w : WalWriter)
    → w.pc ≡ waiting
    → end_loop in_wait w ≡ final_flush (if in_wait then last_round w else w)
unfolding end_loop
ends_waiting in_wait w e = ground arith

ends_writing :
    (in_wait : Bool) (w : WalWriter)
    → w.pc ≡ writing
    → end_loop in_wait w ≡ final_flush (write_out w)
unfolding end_loop
ends_writing in_wait w e = ground arith

ends_finished : (in_wait : Bool) (w : WalWriter) → w.pc ≡ finished → end_loop in_wait w ≡ w
unfolding end_loop
ends_finished in_wait w e = ground arith

end_loop-Ended :
    {file : Bytes} {rs : List Record} (pc : FlushPc) (in_wait : Bool) (w : WalWriter)
    → w.pc ≡ pc
    → Run file rs w
    → Ended file rs (end_loop in_wait w)
unfolding write_out
end_loop-Ended waiting true w e h = rw (ends_waiting true w e) (rounded w w.active_buf refl h e)
end_loop-Ended waiting false w e h = rw (ends_waiting false w e) (flushed_last w h e)
end_loop-Ended writing in_wait w e h =
    rw (ends_writing in_wait w e) (flushed_last (write_out w) (Flushing.writes h e) refl)
end_loop-Ended finished in_wait w e h = rw (ends_finished in_wait w e) (h, e)

-- Wherever the flush thread is when the writer is destroyed, the file that is closed holds all that
-- was logged, in the order in which it was logged.
pub close-log :
    (in_wait : Bool) (file : Bytes) (rs : List Record) (w : WalWriter)
    → Run file rs w
    → close in_wait w ≡ file ++ log rs
unfolding close
close-log in_wait file rs w h =
    let (run, pc) = end_loop-Ended w.pc in_wait w refl h in
    let closed = end_loop in_wait w in
    (at_pc (file ++ log rs) closed pc (Run-Holds file rs closed run)).1
