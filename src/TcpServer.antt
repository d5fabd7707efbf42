-- ===== src/TcpServer.antt =====
-- broker/src/TcpServer.cpp, the reader of one connection (`handle_client`): it gathers what `recv`
-- delivers, cuts complete frames off the front and hands each to the frame handler. The socket is
-- the environment: `recv` is the list of the chunks that it returned before it returned 0 or an
-- error. A parse runs on fuel: each round takes 17 bytes at least, so the number of bytes is enough.
pub mod Parsing
pub mod Chunks
pub mod Stream
pub mod Sending
pub mod Lifecycle
pub mod Accepting
mod Tests
use message_driven_event_que.Prelude.{
  ℕ, zero, suc, ◌+◌, ◌-◌, Bool, true, false, not, List, [], ◌∷◌, ◌++◌, ltb, if◌then◌else◌, length,
  take, drop,
}
use message_driven_event_que.Message.{Bytes, MessageType, error_resp}
use message_driven_event_que.Protocol.{header_size, decode_header}

-- The arguments of one call of the frame handler, less the client's id.
pub record Frame : Type 0 where
  pub type : MessageType
  pub msg_id : ℕ
  pub payload : Bytes

-- One round of the inner loop: wait for more bytes, drop the connection, or take a frame.
pub data Next : Type 0 where
  need_more bad_magic : Next
  frame : Frame → Bytes → Next

pub next_frame : Bytes → Next
next_frame buf =
    let hdr = decode_header buf in
    let total_frame = header_size + hdr.payload_len in
    let payload = take (total_frame - header_size) (drop header_size buf) in
    if ltb (length buf) header_size
    then need_more
    else if not hdr.valid
    then bad_magic
    else if ltb (length buf) total_frame
    then need_more
    else frame (record { type = hdr.type; msg_id = hdr.msg_id; payload = payload })
        (drop total_frame buf)

-- What the inner loop leaves: the frames handled, the bytes kept, and whether it met a bad magic.
pub record Parsed : Type 0 where
  pub frames : List Frame
  pub rest : Bytes
  pub dropped : Bool

parse_loop : ℕ → Bytes → Parsed
parse_loop zero buf = record { frames = []; rest = buf; dropped = false }
parse_loop (suc fuel) buf = elim (next_frame buf) [
  | need_more ↦ record { frames = []; rest = buf; dropped = false }
  | bad_magic ↦ record { frames = []; rest = buf; dropped = true }
  | frame f rest ↦ let more = parse_loop fuel rest in record more { frames = f ∷ more.frames }
]

pub parse : Bytes → Parsed
parse buf = parse_loop (length buf) buf

-- The reader's variables, and the calls of the handler so far.
pub record Reader : Type 0 where
  pub read_buf : Bytes
  pub handled : List Frame
  pub closed : Bool

-- One `recv` that delivered bytes. After a bad magic nothing more is read.
pub receive : Reader → Bytes → Reader
receive r chunk =
    let got = parse (r.read_buf ++ chunk) in
    if r.closed
    then r
    else record { read_buf = got.rest; handled = r.handled ++ got.frames; closed = got.dropped }

pub receive_all : Reader → List Bytes → Reader
receive_all r [] = r
receive_all r (chunk ∷ chunks) = receive_all (receive r chunk) chunks

abbrev pub fresh : Reader
fresh = record { read_buf = []; handled = []; closed = false }

-- `on_frame_(id, MessageType::ERROR_RESP, 0, {})` tells the upper layer that the client is gone.
abbrev pub sentinel : Frame
sentinel = record { type = error_resp; msg_id = 0; payload = [] }

-- The calls of the handler over the life of a connection.
pub handle_client : List Bytes → List Frame
handle_client chunks = (receive_all fresh chunks).handled ++ sentinel ∷ []
