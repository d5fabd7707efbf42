-- ===== src/TcpServer/Chunks.antt =====
-- How the network cuts the stream into chunks makes no difference.
use message_driven_event_que.Prelude.{
  ℕ, ◌+◌, ◌-◌, ◌≤◌, ◌≡◌, refl, ap, sym, inl, inr, true, false, List, [], ◌∷◌, ◌++◌, arith,
  ltb_of_le, if◌then◌else◌, length, length-append, length-drop, take, drop, take-append_le,
  drop-append_le, get_or-append, append_assoc, append-nil,
}
use mathlib.Core.List.{flatten}
use message_driven_event_que.Message.{Bytes}
use message_driven_event_que.Protocol.{header_size, decode_header}
use message_driven_event_que.TcpServer.{
  Frame, need_more, bad_magic, frame, next_frame, Parsed, parse, Reader, receive, receive_all,
  fresh, sentinel, handle_client,
}
use message_driven_event_que.TcpServer.Parsing.{
  parse_lem, next_frame_short, parse_induction, parse-IsDone,
}

decode_header-append :
    (buf more : Bytes) → header_size ≤ length buf → decode_header (buf ++ more) ≡ decode_header buf
unfolding decode_header
decode_header-append buf more h = rw (
  take-append_le 4 buf more (omega arith),
  get_or-append 4 buf more 0 (omega arith),
  drop-append_le 5 buf more (omega arith),
  drop-append_le 9 buf more (omega arith),
  take-append_le 4 (drop 5 buf) more (omega (arith, length-drop 5 buf)),
  take-append_le 8 (drop 9 buf) more (omega (arith, length-drop 9 buf)),
)

abbrev total : Bytes → ℕ
total buf = header_size + (decode_header buf).payload_len

-- The frame at the front of a buffer that holds it whole.
abbrev front : Bytes → Frame
front buf = record {
  type = (decode_header buf).type;
  msg_id = (decode_header buf).msg_id;
  payload = take (total buf - header_size) (drop header_size buf);
}

-- When a round takes a frame, and what it takes.
abbrev TakesFrame : Bytes → Frame → Bytes → Type 0
TakesFrame buf f rest =
    (header_size ≤ length buf)
    × ((decode_header buf).valid ≡ true)
    × (total buf ≤ length buf)
    × (f ≡ front buf)
    × (rest ≡ drop (total buf) buf)

next_frame-TakesFrame :
    (buf rest : Bytes) (f : Frame) → next_frame buf ≡ frame f rest → TakesFrame buf f rest
unfolding next_frame
next_frame-TakesFrame buf rest f e = ground arith

pub next_frame_of :
    (buf rest : Bytes) (f : Frame) → TakesFrame buf f rest → next_frame buf ≡ frame f rest
unfolding next_frame
next_frame_of buf rest f (len, valid, fits, e, e') =
    rw (
      ltb_of_le (length buf) header_size len,
      valid,
      ltb_of_le (length buf) (total buf) fits,
      e,
      e',
    )

next_frame-append :
    (buf rest more : Bytes) (f : Frame)
    → next_frame buf ≡ frame f rest
    → next_frame (buf ++ more) ≡ frame f (rest ++ more)
next_frame-append buf rest more f e =
    let (len, valid, fits, ef, er) = next_frame-TakesFrame buf rest f e in
    let hdr = decode_header-append buf more len in
    next_frame_of (buf ++ more) (rest ++ more) f (
      omega (arith, length-append buf more),
      rw hdr valid,
      rw hdr (omega (arith, length-append buf more)),
      rw
          (
            hdr,
            drop-append_le header_size buf more len,
            take-append_le (total buf - header_size) (drop header_size buf) more
                (omega (arith, length-drop header_size buf)),
          )
          ef,
      rw (hdr, drop-append_le (total buf) buf more fits) (ap (λ (t : Bytes). t ++ more) er),
    )

bad_magic-append :
    (buf more : Bytes) → next_frame buf ≡ bad_magic → next_frame (buf ++ more) ≡ bad_magic
unfolding next_frame
bad_magic-append buf more e = ground (arith, decode_header-append buf more, length-append buf more)

-- A parse that goes on with more bytes.
resume : Parsed → Bytes → Parsed
resume p more =
    let q = parse (p.rest ++ more) in
    if p.dropped
    then record p { rest = p.rest ++ more }
    else record q { frames = p.frames ++ q.frames }

resume-cons :
    (p : Parsed) (f : Frame) (more : Bytes)
    → resume (record p { frames = f ∷ p.frames }) more
      ≡ record (resume p more) { frames = f ∷ (resume p more).frames }
unfolding resume
resume-cons p f more = ground arith

parse-append : (buf more : Bytes) → parse (buf ++ more) ≡ resume (parse buf) more
unfolding resume
parse-append buf more =
    parse_induction (λ b. parse (b ++ more) ≡ resume (parse b) more) (λ b e. rw (parse_lem b, e))
      (λ b e. rw (parse_lem b, e, parse_lem (b ++ more), bad_magic-append b more e))
      (λ b rest f e ih.
        rw (parse_lem b, e, parse_lem (b ++ more), next_frame-append b rest more f e)
          (rw ih (sym (resume-cons (parse rest) f more))))
      (length buf) buf (omega arith)

receive_all_closed : (r : Reader) (chunks : List Bytes) → r.closed ≡ true → receive_all r chunks ≡ r
unfolding receive_all receive
receive_all_closed r [] h = refl
receive_all_closed r (c ∷ cs) h =
    let stays : receive r c ≡ r = unfold receive in rw h in rw stays (receive_all_closed r cs h)

-- An open connection whose buffer holds no complete frame.
abbrev IsSettled : Reader → Type 0
IsSettled r = (r.closed ≡ false) × (next_frame r.read_buf ≡ need_more)

receive_all_cons :
    (r : Reader) (c : Bytes) (cs : List Bytes)
    → receive_all r (c ∷ cs) ≡ receive_all (receive r c) cs
unfolding receive_all
receive_all_cons r c cs = refl

flatten_cons : (c : Bytes) (cs : List Bytes) → flatten (c ∷ cs) ≡ c ++ flatten cs
unfolding flatten
flatten_cons c cs = refl

-- What `receive` does to an open reader.
abbrev advance : Reader → Bytes → Reader
advance r c = record {
  read_buf = (parse (r.read_buf ++ c)).rest;
  handled = r.handled ++ (parse (r.read_buf ++ c)).frames;
  closed = (parse (r.read_buf ++ c)).dropped;
}

receive_open : (r : Reader) (c : Bytes) → r.closed ≡ false → receive r c ≡ advance r c
unfolding receive
receive_open r c h = rw h

resume_on :
    (p : Parsed) (more : Bytes)
    → p.dropped ≡ false
    → (resume p more).frames ≡ p.frames ++ (parse (p.rest ++ more)).frames
unfolding resume
resume_on p more h = rw h

resume_off : (p : Parsed) (more : Bytes) → p.dropped ≡ true → (resume p more).frames ≡ p.frames
unfolding resume
resume_off p more h = rw h

receive_all-frames :
    (r : Reader) (chunks : List Bytes)
    → IsSettled r
    → (receive_all r chunks).handled ≡ r.handled ++ (parse (r.read_buf ++ flatten chunks)).frames
receive_all-frames r [] s =
    unfold receive_all flatten in
    rw (append-nil r.read_buf, parse_lem r.read_buf, s.1) (sym (append-nil r.handled))
receive_all-frames r (c ∷ cs) s =
    let got = parse (r.read_buf ++ c) in
    rw
      (
        receive_all_cons r c cs,
        receive_open r c s.0,
        flatten_cons c cs,
        ← append_assoc r.read_buf c (flatten cs),
        parse-append (r.read_buf ++ c) (flatten cs),
      )
      (elim (parse-IsDone (r.read_buf ++ c)) [
        | inl (on, waits) ↦ rw (
          receive_all-frames (advance r c) cs (on, waits),
          resume_on got (flatten cs) on,
          append_assoc r.handled got.frames _,
        )
        | inr (off, bad) ↦
            rw (receive_all_closed (advance r c) cs off, resume_off got (flatten cs) off)
      ])

-- The handler is called for the frames of the whole byte stream, in order, and then once for the
-- end of the connection: nothing depends on how `recv` cut the stream.
pub handle_client-parse :
    (chunks : List Bytes) → handle_client chunks ≡ (parse (flatten chunks)).frames ++ sentinel ∷ []
unfolding handle_client
handle_client-parse chunks =
    rw (receive_all-frames fresh chunks (refl, next_frame_short [] (omega arith)))
