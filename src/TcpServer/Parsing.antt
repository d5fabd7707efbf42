-- ===== src/TcpServer/Parsing.antt =====
-- The inner loop ends with no complete frame left, and does not depend on its fuel.
use message_driven_event_que.Prelude.{
  ℕ, zero, suc, ◌+◌, ◌≤◌, ◌<◌, ◌≡◌, refl, ◌⊎◌, inl, inr, true, false, [], ◌∷◌, arith, ltb_of_lt,
  length, length-drop,
}
use message_driven_event_que.Message.{Bytes}
use message_driven_event_que.Protocol.{header_size, decode_header}
use message_driven_event_que.TcpServer.{
  Frame, Next, need_more, bad_magic, frame, next_frame, Parsed, parse_loop, parse,
}

-- A frame that is taken has at least its header's bytes.
next_frame-shorter :
    (buf rest : Bytes) (f : Frame)
    → next_frame buf ≡ frame f rest
    → length rest + header_size ≤ length buf
unfolding next_frame
next_frame-shorter buf rest f e =
    let len = length-drop (header_size + (decode_header buf).payload_len) buf in ground (arith, len)

Next-cases :
    (x : Next)
    → (x ≡ need_more) ⊎ (x ≡ bad_magic) ⊎ ((f : Frame) × (rest : Bytes) × (x ≡ frame f rest))
Next-cases need_more = inl refl
Next-cases bad_magic = inr (inl refl)
Next-cases (frame f rest) = inr (inr (f, rest, refl))

pub next_frame_short : (buf : Bytes) → length buf < header_size → next_frame buf ≡ need_more
unfolding next_frame
next_frame_short buf h = rw (ltb_of_lt (length buf) header_size h)

-- With as much fuel as bytes, or more, the loop's result is the same.
parse_loop-fuel :
    (m n : ℕ) (buf : Bytes) → length buf ≤ m → length buf ≤ n → parse_loop m buf ≡ parse_loop n buf
unfolding parse_loop
parse_loop-fuel zero zero buf hm hn = refl
parse_loop-fuel zero (suc n) buf hm hn = rw (next_frame_short buf (omega arith), parse_loop)
parse_loop-fuel (suc m) zero buf hm hn = rw (next_frame_short buf (omega arith), parse_loop)
parse_loop-fuel (suc m) (suc n) buf hm hn = elim (Next-cases (next_frame buf)) [
  | inl e ↦ rw (e, parse_loop)
  | inr (inl e) ↦ rw (e, parse_loop)
  | inr (inr (f, rest, e)) ↦
      let short = next_frame-shorter buf rest f e in
      rw (e, parse_loop) (rw (parse_loop-fuel m n rest (omega arith) (omega arith)))
]

-- What a parse is, from what its first round finds.
abbrev pub after_round : Bytes → Next → Parsed
after_round buf need_more = record { frames = []; rest = buf; dropped = false }
after_round buf bad_magic = record { frames = []; rest = buf; dropped = true }
after_round buf (frame f rest) = record (parse rest) { frames = f ∷ (parse rest).frames }

pub parse_lem : (buf : Bytes) → parse buf ≡ after_round buf (next_frame buf)
unfolding parse parse_loop
parse_lem [] = rw (next_frame_short [] (omega arith))
parse_lem (b ∷ bs) = elim (Next-cases (next_frame (b ∷ bs))) [
  | inl e ↦ rw (e, parse_loop)
  | inr (inl e) ↦ rw (e, parse_loop)
  | inr (inr (f, rest, e)) ↦
      let short = next_frame-shorter (b ∷ bs) rest f e in
      let same = parse_loop-fuel (length bs) (length rest) rest (omega arith) (omega arith) in
      rw (e, parse_loop) (rw same)
]

-- Induction over the rounds of a parse.
pub parse_induction {ℓ} :
    (P : Bytes → Type ℓ)
    → ((buf : Bytes) → next_frame buf ≡ need_more → P buf)
    → ((buf : Bytes) → next_frame buf ≡ bad_magic → P buf)
    → ((buf rest : Bytes) (f : Frame) → next_frame buf ≡ frame f rest → P rest → P buf)
    → (fuel : ℕ) (buf : Bytes) → length buf ≤ fuel
    → P buf
parse_induction P wait bad step zero buf h = wait buf (next_frame_short buf (omega arith))
parse_induction P wait bad step (suc fuel) buf h = elim (Next-cases (next_frame buf)) [
  | inl e ↦ wait buf e
  | inr (inl e) ↦ bad buf e
  | inr (inr (f, rest, e)) ↦
      let short = next_frame-shorter buf rest f e in
      step buf rest f e (parse_induction P wait bad step fuel rest (omega arith))
]

-- No complete frame is left, or a bad magic stands in front and the connection is dropped.
abbrev pub IsDone : Parsed → Type 0
IsDone p =
    ((p.dropped ≡ false) × (next_frame p.rest ≡ need_more))
    ⊎ ((p.dropped ≡ true) × (next_frame p.rest ≡ bad_magic))

-- A parse of any bytes ends: either no complete frame is left in the buffer, or the connection is
-- dropped for the bad magic that stands at its front. It never runs out of fuel.
pub parse-IsDone : (buf : Bytes) → IsDone (parse buf)
parse-IsDone buf =
    parse_induction (λ b. IsDone (parse b)) (λ b e. rw (parse_lem b, e) (inl (refl, e)))
      (λ b e. rw (parse_lem b, e) (inr (refl, e))) (λ b rest f e ih. rw (parse_lem b, e) ih)
      (length buf) buf (omega arith)
