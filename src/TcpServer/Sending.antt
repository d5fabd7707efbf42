-- ===== src/TcpServer/Sending.antt =====
-- `send_to` of broker/src/TcpServer.cpp. The results of the calls of `send` are the environment's: one
-- number for each call, as many as it answered. A frame is shorter than 2^31 bytes, so the cast of its
-- length to `int` keeps it.
use message_driven_event_que.Prelude.{
  zero, suc, ◌≤◌, ◌<◌, ◌≡◌, refl, ap, ◌∙◌, List, [], ◌∷◌, ◌++◌, if◌then◌else◌, arith, length, take,
  drop, take-append-drop, length-drop, append_assoc,
}
use message_driven_event_que.Prelude.Int.{ℤ, pos, negsuc}
use message_driven_event_que.Message.{Bytes, ClientId}
use message_driven_event_que.TopicRouter.{contains}

-- What the calls wrote, and what of the frame is left when the loop ends or waits for an answer. `left`
-- is the frame from `total_sent` on.
unfoldable pub send_loop : Bytes → List ℤ → Bytes × Bytes
send_loop left [] = ([], left)
send_loop [] (result ∷ results) = ([], [])
send_loop (b ∷ left) (negsuc n ∷ results) = ([], b ∷ left)
send_loop (b ∷ left) (pos zero ∷ results) = ([], b ∷ left)
send_loop (b ∷ left) (pos (suc n) ∷ results) =
    let (written, rest) = send_loop (drop n left) results in (b ∷ take n left ++ written, rest)

-- The bytes that `send_to` gives to the client's socket.
unfoldable pub send_to : ClientId → Bytes → List ℤ → List ClientId → Bytes
send_to id frame results clients = if contains id clients then (send_loop frame results).0 else []

-- `send` answers with the number of bytes that it took, at most those that it was given. After the
-- last byte it is not called.
abbrev pub TakesAtMost : Bytes → List ℤ → Type 0
TakesAtMost [] results = Unit {0}
TakesAtMost (b ∷ left) [] = Unit {0}
TakesAtMost (b ∷ left) (pos n ∷ results) =
    (n ≤ length (b ∷ left)) × TakesAtMost (drop n (b ∷ left)) results
TakesAtMost (b ∷ left) (negsuc n ∷ results) = Unit {0}

abbrev pub NoError : List ℤ → Type 0
NoError [] = Unit {0}
NoError (pos n ∷ results) = (0 < n) × NoError results
NoError (negsuc n ∷ results) = ⊥

-- However the socket takes a frame in pieces, the bytes written are a front part of the frame, in
-- order; and all of it if no answer is an error and there are as many answers as the frame has bytes,
-- of which the loop may not need all.
pub send_loop_lem :
    (frame : Bytes) (results : List ℤ)
    → TakesAtMost frame results
    → ((send_loop frame results).0 ++ (send_loop frame results).1 ≡ frame)
      × (NoError results → length frame ≤ length results → (send_loop frame results).1 ≡ [])
unfolding send_loop
send_loop_lem [] [] h = (refl, λ ok enough. refl)
send_loop_lem (b ∷ left) [] h = (refl, λ ok enough. absurd (omega arith))
send_loop_lem [] (result ∷ results) h = (refl, λ ok enough. refl)
send_loop_lem (b ∷ left) (negsuc n ∷ results) h = (refl, λ ok enough. absurd ok)
send_loop_lem (b ∷ left) (pos zero ∷ results) h = (refl, λ ok enough. absurd (omega (arith, ok.0)))
send_loop_lem (b ∷ left) (pos (suc n) ∷ results) h =
    let (front, whole) = send_loop_lem (drop n left) results h.1 in
    (
      ap (λ (l : Bytes). b ∷ l)
          (append_assoc (take n left) _ _
            ∙ ap (λ (l : Bytes). take n left ++ l) front
            ∙ take-append-drop n left),
      λ ok enough. whole ok.1 (omega (arith, length-drop n left)),
    )
