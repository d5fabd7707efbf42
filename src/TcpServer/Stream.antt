-- ===== src/TcpServer/Stream.antt =====
-- A stream of well-formed frames is handled frame by frame.
use mathlib.Core.List.{flatten}
use message_driven_event_que.Prelude.{
  ℕ, ◌+◌, ◌-◌, ◌^◌, ◌<◌, ◌≡◌, refl, sym, List, [], ◌∷◌, All, map, ◌++◌, arith, length,
  length-append, drop, append_assoc, take-append, drop-append, length-drop, drop-append_le,
}
use message_driven_event_que.Message.{Bytes, MessageType, IsWire}
use message_driven_event_que.Protocol.{header_size, encode_frame, decode_publish}
use message_driven_event_que.Protocol.RoundTrip.{decode_encode_frame}
use message_driven_event_que.TcpServer.{
  Frame, need_more, frame, next_frame, parse, sentinel, handle_client,
}
use message_driven_event_que.TcpServer.Parsing.{parse_lem}
use message_driven_event_que.TcpServer.Chunks.{next_frame_of, handle_client-parse}

-- What a client sends in one frame.
pub record Sent : Type 0 where
  pub type : MessageType
  pub msg_id : ℕ
  pub topic : Bytes
  pub body : Bytes

abbrev pub encode : Sent → Bytes
encode m = encode_frame m.type m.msg_id m.topic m.body

-- The frame fits the fields of its header.
pub record Fits (m : Sent) : Type 0 where
  pub type : IsWire m.type
  pub msg_id : m.msg_id < 2 ^ 64
  pub topic : length m.topic < 2 ^ 16
  pub payload : 2 + length m.topic + length m.body < 2 ^ 32

-- What the handler gets of it.
abbrev pub delivered : Sent → Frame
delivered m = record { type = m.type; msg_id = m.msg_id; payload = drop header_size (encode m) }

next_frame-encode :
    (m : Sent) (rest : Bytes) → Fits m → next_frame (encode m ++ rest) ≡ frame (delivered m) rest
next_frame-encode m rest fits =
    let (hdr, size, _) =
      decode_encode_frame m.type m.msg_id m.topic m.body rest fits.type fits.msg_id fits.topic
        fits.payload in
    let whole : header_size + (2 + length m.topic + length m.body) - header_size
        ≡ length (drop header_size (encode m)) =
      omega (arith, size, length-drop header_size (encode m)) in
    next_frame_of (encode m ++ rest) rest (delivered m) (
      omega (arith, size, length-append (encode m) rest),
      rw hdr refl,
      rw hdr (omega (arith, size, length-append (encode m) rest)),
      rw (
        hdr,
        drop-append_le header_size (encode m) rest (omega (arith, size)),
        whole,
        take-append (drop header_size (encode m)) rest,
      ),
      rw (hdr, ← size) (sym (drop-append (encode m) rest)),
    )

flatten_cons : (c : Bytes) (cs : List Bytes) → flatten (c ∷ cs) ≡ c ++ flatten cs
unfolding flatten
flatten_cons c cs = refl

flatten_nil : flatten {A = ℕ} [] ≡ []
unfolding flatten
flatten_nil = refl

parse-encode :
    (ms : List Sent) (tail : Bytes)
    → All Fits ms
    → next_frame tail ≡ need_more
    → (parse (flatten (map encode ms) ++ tail)).frames ≡ map delivered ms
parse-encode [] tail fits h = rw (flatten_nil, parse_lem tail, h)
parse-encode (m ∷ ms) tail fits h = rw (
  flatten_cons (encode m) (map encode ms),
  append_assoc (encode m) (flatten (map encode ms)) tail,
  parse_lem (encode m ++ (flatten (map encode ms) ++ tail)),
  next_frame-encode m (flatten (map encode ms) ++ tail) fits.0,
  parse-encode ms tail fits.1 h,
)

pub nothing_left : next_frame [] ≡ need_more
unfolding next_frame
nothing_left = refl

pub decode-delivered :
    (m : Sent)
    → Fits m
    → decode_publish (delivered m).payload ≡ record { topic = m.topic; body = m.body }
decode-delivered m fits =
    (decode_encode_frame m.type m.msg_id m.topic m.body [] fits.type fits.msg_id fits.topic
      fits.payload).2

-- The frames that a client sends reach the handler, each with its type, id and payload, in the
-- order sent, however the stream is cut and whatever incomplete frame ends it; the sentinel comes
-- last. Each payload decodes to the topic and the body that were sent.
pub handle_client-encode :
    (ms : List Sent) (tail : Bytes) (chunks : List Bytes)
    → All Fits ms
    → next_frame tail ≡ need_more
    → flatten chunks ≡ flatten (map encode ms) ++ tail
    → (handle_client chunks ≡ map delivered ms ++ sentinel ∷ [])
      × All
          (λ m. decode_publish (delivered m).payload ≡ record { topic = m.topic; body = m.body })
          ms
handle_client-encode ms tail chunks fits h e =
    (rw (handle_client-parse chunks, e, parse-encode ms tail fits h), payloads ms fits)
  where
    payloads :
        (l : List Sent)
        → All Fits l
        → All
            (λ m. decode_publish (delivered m).payload ≡ record { topic = m.topic; body = m.body })
            l
    payloads [] f = tt
    payloads (m ∷ l) f = (decode-delivered m f.0, payloads l f.1)
