-- ===== src/Protocol/Endian.antt =====
-- Byte order: the word that `to_be32` and `to_be64` leave in memory reads big-endian.
use Prim.Native.Nat.{bit_and, bit_or}
use message_driven_event_que.Prelude.{ℕ, ◌+◌, ◌*◌, ◌/◌, ◌%◌, ◌^◌, ◌<◌, ◌≡◌, [], ◌∷◌, ◌++◌, arith}
use message_driven_event_que.Prelude.Bits.{
  bit_or-disjoint, bit_or-disjoint_low, bit_and_high, bit_and-255,
}
use message_driven_event_que.Message.{Bytes}
use message_driven_event_que.Protocol.{to_be32, to_be64, memory, word}

-- The four fields of a word, swapped.
abbrev swapped : ℕ → ℕ
swapped v =
    v / 2 ^ 24 % 256 + v / 2 ^ 16 % 256 * 2 ^ 8 + v / 2 ^ 8 % 256 * 2 ^ 16 + v % 256 * 2 ^ 24

field_24 : (v : ℕ) → bit_and v 0xFF000000 / 2 ^ 24 ≡ v / 2 ^ 24 % 256
field_24 v = omega (arith, bit_and_high 24 255 v, bit_and-255 (v / 2 ^ 24))

field_16 : (v : ℕ) → bit_and v 0x00FF0000 / 2 ^ 8 ≡ v / 2 ^ 16 % 256 * 2 ^ 8
field_16 v = omega (arith, bit_and_high 16 255 v, bit_and-255 (v / 2 ^ 16))

field_8 : (v : ℕ) → bit_and v 0x0000FF00 * 2 ^ 8 % 2 ^ 32 ≡ v / 2 ^ 8 % 256 * 2 ^ 16
field_8 v = omega (arith, bit_and_high 8 255 v, bit_and-255 (v / 2 ^ 8))

field_0 : (v : ℕ) → bit_and v 0x000000FF * 2 ^ 24 % 2 ^ 32 ≡ v % 256 * 2 ^ 24
field_0 v = omega (arith, bit_and-255 v)

join_fields :
    (a b c d : ℕ)
    → a < 256
    → b < 256
    → c < 256
    → bit_or (bit_or (bit_or a (b * 2 ^ 8)) (c * 2 ^ 16)) (d * 2 ^ 24)
      ≡ a + b * 2 ^ 8 + c * 2 ^ 16 + d * 2 ^ 24
join_fields a b c d ha hb hc = rw (bit_or-disjoint_low 8 b a ha) (
    rw (bit_or-disjoint_low 16 c (a + b * 2 ^ 8) (omega arith))
      (bit_or-disjoint_low 24 d (a + b * 2 ^ 8 + c * 2 ^ 16) (omega arith)))

pub to_be32_lem : (v : ℕ) → to_be32 v ≡ swapped v
unfolding to_be32
to_be32_lem v =
    rw (field_24 v, field_16 v, field_8 v, field_0 v)
      (join_fields _ _ _ _ (omega arith) (omega arith) (omega arith))

pub to_be32-lt : (v : ℕ) → to_be32 v < 2 ^ 32
to_be32-lt v = omega (arith, to_be32_lem v)

to_be64_lem : (v : ℕ) → to_be64 v ≡ to_be32 (v % 2 ^ 32) * 2 ^ 32 + to_be32 (v / 2 ^ 32 % 2 ^ 32)
unfolding to_be64
to_be64_lem v =
    let small : to_be32 (v % 2 ^ 32) * 2 ^ 32 % 2 ^ 64 ≡ to_be32 (v % 2 ^ 32) * 2 ^ 32 =
      omega (arith, to_be32-lt (v % 2 ^ 32)) in
    rw small (bit_or-disjoint 32 (to_be32 (v % 2 ^ 32)) _ (to_be32-lt (v / 2 ^ 32 % 2 ^ 32)))

-- The big-endian bytes of a 32-bit word.
pub be_bytes : ℕ → Bytes
be_bytes v = v / 2 ^ 24 % 256 ∷ v / 2 ^ 16 % 256 ∷ v / 2 ^ 8 % 256 ∷ v % 256 ∷ []

memory-to_be32 : (v : ℕ) → memory 4 (to_be32 v) ≡ be_bytes v
unfolding memory be_bytes
memory-to_be32 v = ground (arith, to_be32_lem v)

memory-append : (l h : ℕ) → l < 2 ^ 32 → memory 8 (h * 2 ^ 32 + l) ≡ memory 4 l ++ memory 4 h
unfolding memory
memory-append l h p = ground arith

pub word-memory_4 : (v : ℕ) → v < 2 ^ 32 → word (memory 4 v) ≡ v
unfolding memory word
word-memory_4 v h = omega arith

word-memory_8 : (v : ℕ) → v < 2 ^ 64 → word (memory 8 v) ≡ v
unfolding memory word
word-memory_8 v h = omega arith

to_be32_involution : (v : ℕ) → v < 2 ^ 32 → to_be32 (to_be32 v) ≡ v
to_be32_involution v h = omega (arith, to_be32_lem v, to_be32_lem (to_be32 v))

pub to_be64-lt : (v : ℕ) → to_be64 v < 2 ^ 64
to_be64-lt v =
    omega (arith, to_be64_lem v, to_be32-lt (v % 2 ^ 32), to_be32-lt (v / 2 ^ 32 % 2 ^ 32))

to_be64_involution : (v : ℕ) → v < 2 ^ 64 → to_be64 (to_be64 v) ≡ v
to_be64_involution v h =
    let lo = v % 2 ^ 32 in
    let hi = v / 2 ^ 32 % 2 ^ 32 in
    let low : to_be64 v % 2 ^ 32 ≡ to_be32 hi = omega (arith, to_be64_lem v, to_be32-lt hi) in
    let high : to_be64 v / 2 ^ 32 % 2 ^ 32 ≡ to_be32 lo =
      omega (arith, to_be64_lem v, to_be32-lt lo, to_be32-lt hi) in
    let halves = rw (low, high) at (to_be64_lem (to_be64 v)) in
    omega (arith, halves, to_be32_involution hi (omega arith), to_be32_involution lo (omega arith))

memory-to_be64 :
    (v : ℕ) → memory 8 (to_be64 v) ≡ be_bytes (v / 2 ^ 32 % 2 ^ 32) ++ be_bytes (v % 2 ^ 32)
memory-to_be64 v =
    rw
      (
        to_be64_lem v,
        memory-append (to_be32 (v / 2 ^ 32 % 2 ^ 32)) (to_be32 (v % 2 ^ 32)) (to_be32-lt _),
      )
      (rw (memory-to_be32 (v / 2 ^ 32 % 2 ^ 32), memory-to_be32 (v % 2 ^ 32)))

-- A reader swaps the word that it finds, and gets back the one that was written.
pub to_be32-word : (v : ℕ) → v < 2 ^ 32 → to_be32 (word (memory 4 (to_be32 v))) ≡ v
to_be32-word v h = rw (word-memory_4 (to_be32 v) (to_be32-lt v)) (to_be32_involution v h)

pub to_be64-word : (v : ℕ) → v < 2 ^ 64 → to_be64 (word (memory 8 (to_be64 v))) ≡ v
to_be64-word v h = rw (word-memory_8 (to_be64 v) (to_be64-lt v)) (to_be64_involution v h)

-- Both words of a header field: what stands in the frame is the value in network order.
pub network_order :
    (v : ℕ)
    → (memory 4 (to_be32 v) ≡ be_bytes v)
      × (memory 8 (to_be64 v) ≡ be_bytes (v / 2 ^ 32 % 2 ^ 32) ++ be_bytes (v % 2 ^ 32))
network_order v = (memory-to_be32 v, memory-to_be64 v)
