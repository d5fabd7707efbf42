-- ===== src/Broker/Tests/Streams.antt =====
-- Publications on one connection of an idle broker.
use mathlib.Core.List.{flatten}
use message_driven_event_que.Prelude.{
  ◌≡◌, refl, true, List, [], ◌∷◌, ◌++◌, some, take, drop, map, arith,
}
use message_driven_event_que.Message.{Bytes, publish, to_byte}
use message_driven_event_que.Protocol.{
  put_header, put_len16, memory, to_be32, to_be64, encode_frame,
}
use message_driven_event_que.TcpServer.{sentinel, handle_client}
use message_driven_event_que.TcpServer.Stream.{Sent}
use message_driven_event_que.TcpServer.Stream
use message_driven_event_que.Broker.{done}
use message_driven_event_que.Broker.Threads.{Broker, run}
use message_driven_event_que.Broker.EndToEnd.{
  IsIdle, IsPublication, Published, moves_of, end_to_end,
}
use message_driven_event_que.Broker.Tests.{four, empty_broker, ready}

abbrev greeting : Sent
greeting = record { type = publish; msg_id = 0; topic = 111 ∷ []; body = 123 ∷ 125 ∷ [] }

abbrev listening : Broker
listening = record empty_broker {
  connections = record { id = four; alive = true; program = done } ∷ [];
  shared = record ready { main_queue = record { items = []; capacity = 1 } };
}

abbrev two_greetings : List Sent
two_greetings = greeting ∷ greeting ∷ []

-- Cut inside the first header, and joined across the two frames.
abbrev pieces : List Bytes
pieces =
    take 5 (Stream.encode greeting)
    ∷ (drop 5 (Stream.encode greeting) ++ Stream.encode greeting)
    ∷ []

pieces_join : flatten pieces ≡ flatten (map Stream.encode two_greetings)
unfolding flatten encode_frame put_header put_len16 memory to_be32 to_be64 to_byte
pieces_join = refl

greeting-IsPublication : IsPublication greeting
greeting-IsPublication = record {
  fits = record { type = tt; msg_id = omega arith; topic = omega arith; payload = omega arith };
  type = refl;
  topic = refl;
}

end_to_end_example :
    (handle_client pieces ≡ map Stream.delivered two_greetings ++ sentinel ∷ [])
    × (b' : Broker) × (run (moves_of 0 two_greetings 1 listening.shared.router) listening ≡ some b')
    × IsIdle 0 (record { id = four; alive = true; program = done }) b'
    × Published two_greetings listening.shared b'.shared
end_to_end_example =
    end_to_end 0 (record { id = four; alive = true; program = done }) two_greetings listening pieces
      (record {
        there = refl;
        alive = refl;
        reader = refl;
        dispatcher = refl;
        free = refl;
        empty = refl;
        room = omega arith;
      })
      (greeting-IsPublication, (greeting-IsPublication, tt)) pieces_join
