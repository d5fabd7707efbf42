-- ===== src/TcpServer/Tests.antt =====
-- The theorems on the reader of a connection at concrete inputs, and a stream in three chunks.
use mathlib.Core.List.{flatten}
use message_driven_event_que.TopicRouter.{contains}
use message_driven_event_que.TcpServer.Lifecycle.{
  Results, start, fresh_server, started, stops, Stopped, AllWell, IsUpIf, start-stops,
}
use message_driven_event_que.TcpServer.Accepting.{Round, accept_loop, accept_loop_lem}
use message_driven_event_que.Prelude.{
  ◌≤◌, ◌≡◌, refl, [], ◌∷◌, ◌++◌, map, arith, take, drop, All, List, true, false, ◌↔◌,
}
use message_driven_event_que.Prelude.Int.{ℤ, pos, negsuc}
use message_driven_event_que.Message.{Bytes, ClientId, publish, heartbeat, to_byte, of_byte}
use message_driven_event_que.Protocol.{
  encode_frame, put_header, put_len16, memory, word, to_be32, to_be64, decode_header,
  decode_publish,
}
use message_driven_event_que.TcpServer.{next_frame, need_more, parse, handle_client, sentinel}
use message_driven_event_que.TcpServer.Parsing.{IsDone, parse-IsDone}
use message_driven_event_que.TcpServer.Chunks.{handle_client-parse}
use message_driven_event_que.TcpServer.Sending.{send_loop, NoError, send_loop_lem}
use message_driven_event_que.TcpServer.Stream.{Sent, encode, delivered, handle_client-encode}

abbrev hello : Sent
hello = record { type = publish; msg_id = 7; topic = 104 ∷ 105 ∷ []; body = 33 ∷ [] }

abbrev beat : Sent
beat = record { type = heartbeat; msg_id = 0; topic = 98 ∷ []; body = [] }

-- Two frames, cut inside the first header and inside the second, with three bytes of a third.
abbrev three_chunks : List Bytes
three_chunks =
    take 5 (encode hello)
    ∷ (drop 5 (encode hello) ++ take 9 (encode beat))
    ∷ (drop 9 (encode beat) ++ 0xDE ∷ 0xAD ∷ 0xBE ∷ [])
    ∷ []

three_chunks_join :
    flatten three_chunks ≡ flatten (map encode (hello ∷ beat ∷ [])) ++ 0xDE ∷ 0xAD ∷ 0xBE ∷ []
unfolding flatten encode_frame put_header put_len16 memory to_be32 to_be64 to_byte
three_chunks_join = refl

three_bytes_wait : next_frame (0xDE ∷ 0xAD ∷ 0xBE ∷ []) ≡ need_more
unfolding next_frame decode_header word to_be32 to_be64 of_byte
three_bytes_wait = refl

handle_client-encode_example :
    (handle_client three_chunks ≡ delivered hello ∷ delivered beat ∷ sentinel ∷ [])
    × All
        (λ m. decode_publish (delivered m).payload ≡ record { topic = m.topic; body = m.body })
        (hello ∷ beat ∷ [])
handle_client-encode_example =
    handle_client-encode (hello ∷ beat ∷ []) (0xDE ∷ 0xAD ∷ 0xBE ∷ []) three_chunks
      (
        record { type = tt; msg_id = omega arith; topic = omega arith; payload = omega arith },
        (
          record { type = tt; msg_id = omega arith; topic = omega arith; payload = omega arith },
          tt,
        ),
      )
      three_bytes_wait three_chunks_join

handle_client-parse_example :
    handle_client three_chunks ≡ (parse (flatten three_chunks)).frames ++ sentinel ∷ []
handle_client-parse_example = handle_client-parse three_chunks

parse-IsDone_example : IsDone (parse (1 ∷ 2 ∷ 3 ∷ []))
parse-IsDone_example = parse-IsDone (1 ∷ 2 ∷ 3 ∷ [])

-- The socket takes three bytes, then two; the loop asks no further.
abbrev pieces : List ℤ
pieces = pos 3 ∷ pos 2 ∷ pos 1 ∷ pos 1 ∷ pos 1 ∷ []

send_loop_lem_example :
    ((send_loop (1 ∷ 2 ∷ 3 ∷ 4 ∷ 5 ∷ []) pieces).0 ++ (send_loop (1 ∷ 2 ∷ 3 ∷ 4 ∷ 5 ∷ []) pieces).1
      ≡ 1 ∷ 2 ∷ 3 ∷ 4 ∷ 5 ∷ [])
    × (NoError pieces → 5 ≤ 5 → (send_loop (1 ∷ 2 ∷ 3 ∷ 4 ∷ 5 ∷ []) pieces).1 ≡ [])
send_loop_lem_example =
    send_loop_lem (1 ∷ 2 ∷ 3 ∷ 4 ∷ 5 ∷ []) pieces (omega arith, (omega arith, tt))

-- The port is taken.
abbrev taken : Results
taken = record { socket = pos 3; bind = negsuc 0; listen = pos 0 }

start-stops_example :
    let (outcome, t) = start taken (fresh_server 9099) in
    ((outcome ≡ started) ↔ AllWell taken)
    × IsUpIf (AllWell taken) t
    × Stopped (pos 3 ∷ []) (stops 2 t)
start-stops_example = start-stops taken 9099 1

abbrev two_clients : List Round
two_clients = record { running = true; sock = pos 4 } ∷ record { running = true; sock = pos 5 } ∷ []

-- The third `accept` fails, and a fourth would not.
accept_loop_lem_example :
    let failed : Round = record { running = true; sock = negsuc 0 } in
    let late : Round = record { running = true; sock = pos 6 } in
    let a =
      accept_loop
        (two_clients ++ failed ∷ late ∷ [])
        (record { clients = []; readers = []; ended = false }) in
    (a.readers ≡ pos 4 ∷ pos 5 ∷ [])
    × (a.ended ≡ true)
    × ((id : ClientId) → contains id a.clients ≡ contains id (pos 4 ∷ pos 5 ∷ []))
accept_loop_lem_example =
    accept_loop_lem two_clients (record { running = true; sock = negsuc 0 })
      (record { running = true; sock = pos 6 } ∷ []) (refl, (refl, tt)) refl
