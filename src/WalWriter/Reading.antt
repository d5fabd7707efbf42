-- ===== src/WalWriter/Reading.antt =====
-- Reading a record: what was written is read back, and more bytes behind it change nothing.
use message_driven_event_que.Prelude.{
  ℕ, zero, suc, ◌+◌, ◌*◌, ◌/◌, ◌%◌, ◌^◌, ◌<◌, ◌≤◌, ◌≡◌, ◌≢◌, inl, inr, refl, ap, sym, ◌∙◌, [], ◌∷◌,
  ◌++◌, length, append_assoc, arith, Option, none, some, ltb, ltb_of_le, Bool-cases, Option-cases,
  take-append, drop-append, length-append, length-drop, take-append_le, drop-append_le, ◌==◌,
  nat_eq, append-nil,
}
use message_driven_event_que.Prelude.Bits.{bit_or-disjoint_low}
use message_driven_event_que.Message.{Bytes, Message}
use message_driven_event_que.Protocol.{to_be32, to_be64, memory, word}
use message_driven_event_que.Protocol.Endian.{to_be32-word, to_be64-word}
use message_driven_event_que.WalWriter.{
  Record, publish, ack, wal_publish, wal_ack, swap16, read_bytes, read_be64, read_be32, read_be16,
  read_publish, read_ack, read_record, ◌>>=◌,
}
use message_driven_event_que.WalWriter.Format.{encode, Fits}

pub read_bytes-append : (xs rest : Bytes) → read_bytes (length xs) (xs ++ rest) ≡ some (xs, rest)
unfolding read_bytes
read_bytes-append xs rest = rw (
  ltb_of_le (length (xs ++ rest)) (length xs) (omega (arith, length-append xs rest)),
  take-append xs rest,
  drop-append xs rest,
)

read_bytes_of :
    (n : ℕ) (xs rest : Bytes) → length xs ≡ n → read_bytes n (xs ++ rest) ≡ some (xs, rest)
read_bytes_of n xs rest e = ap (λ k. read_bytes k (xs ++ rest)) (sym e) ∙ read_bytes-append xs rest

length-memory : (n v : ℕ) → length (memory n v) ≡ n
unfolding memory
length-memory zero v = refl
length-memory (suc n) v = ap suc (length-memory n (v / 256))

pub read_be64-memory :
    (v : ℕ) (rest : Bytes) → v < 2 ^ 64 → read_be64 (memory 8 (to_be64 v) ++ rest) ≡ some (v, rest)
unfolding read_be64
read_be64-memory v rest h =
    rw (read_bytes_of 8 (memory 8 (to_be64 v)) rest (length-memory 8 (to_be64 v)), to_be64-word v h)

pub read_be32-memory :
    (v : ℕ) (rest : Bytes) → v < 2 ^ 32 → read_be32 (memory 4 (to_be32 v) ++ rest) ≡ some (v, rest)
unfolding read_be32
read_be32-memory v rest h =
    rw (read_bytes_of 4 (memory 4 (to_be32 v)) rest (length-memory 4 (to_be32 v)), to_be32-word v h)

swap16_lem : (v : ℕ) → v < 2 ^ 16 → swap16 v ≡ v / 2 ^ 8 + v % 2 ^ 8 * 2 ^ 8
unfolding swap16
swap16_lem v h = omega (arith, bit_or-disjoint_low 8 v (v / 2 ^ 8) (omega arith))

swap16-word : (v : ℕ) → v < 2 ^ 16 → swap16 (word (memory 2 (swap16 v))) ≡ v
unfolding memory word
swap16-word v h =
    let e = swap16_lem v h in
    let same : swap16 v % 256 + 256 * (swap16 v / 256 % 256 + 256 * 0) ≡ swap16 v = omega arith in
    rw same (omega (arith, swap16_lem (swap16 v)))

pub read_be16-memory :
    (v : ℕ) (rest : Bytes) → v < 2 ^ 16 → read_be16 (memory 2 (swap16 v) ++ rest) ≡ some (v, rest)
unfolding read_be16
read_be16-memory v rest h =
    rw (read_bytes_of 2 (memory 2 (swap16 v)) rest (length-memory 2 (swap16 v)), swap16-word v h)

read_record-publish :
    (msg : Message) (rest : Bytes)
    → Fits (publish msg)
    → read_record (encode (publish msg) ++ rest) ≡ some (publish msg, rest)
unfolding encode read_record read_publish
read_record-publish msg rest (id, topic, body, fresh) =
    let et : length msg.topic % 2 ^ 16 ≡ length msg.topic = omega arith in
    let eb : length msg.body % 2 ^ 32 ≡ length msg.body = omega arith in
    rw (et, eb)
      (simp append_assoc (
        rw
          (
            read_be64-memory msg.msg_id _ id,
            ◌>>=◌,
            read_be16-memory (length msg.topic) _ topic,
            read_bytes-append msg.topic _,
            read_be32-memory (length msg.body) _ body,
            read_bytes-append msg.body rest,
          )
          (ap (λ (k : ℕ). some (publish (record msg { retry_count = k }), rest)) (sym fresh))))

-- A record that fits the fields of the log is read back as it was written, whatever follows it.
pub read_record-encode :
    (r : Record) (rest : Bytes) → Fits r → read_record (encode r ++ rest) ≡ some (r, rest)
read_record-encode (publish msg) rest fits = read_record-publish msg rest fits
read_record-encode (ack msg_id) rest fits =
    unfold encode read_record read_ack in rw (read_be64-memory msg_id rest fits)

-- A reader that gets a value goes by the bytes it takes: more bytes behind them change nothing, and
-- what is left is no longer than the input.
record IsReader {A : Type 0} (p : Bytes → Option (A × Bytes)) : Type 0 where
  extends : (a r more : Bytes) (x : A) → p a ≡ some (x, r) → p (a ++ more) ≡ some (x, r ++ more)
  shrinks : (a r : Bytes) (x : A) → p a ≡ some (x, r) → length r ≤ length a

some_split :
    {A : Type 0} (m : Option A) {B : Type 0} (f : A → Option B) (b : B)
    → (m >>= f) ≡ some b
    → (a : A) × (m ≡ some a) × (f a ≡ some b)
some_split none f b e = cc
some_split (some a) f b e = (a, refl, e)

bind-IsReader :
    {A B : Type 0} (p : Bytes → Option (A × Bytes)) (k : A → Bytes → Option (B × Bytes))
    → IsReader p
    → ((x : A) → IsReader (k x))
    → IsReader (λ a. p a >>= λ (x, r). k x r)
bind-IsReader p k hp hk = record {
  extends = λ a r more x e.
      let (q, got, rest) = some_split (p a) (λ q. k q.0 q.1) (x, r) e in
      rw (hp.extends a q.1 more q.0 got) ((hk q.0).extends q.1 r more x rest);
  shrinks = λ a r x e.
      let (q, got, rest) = some_split (p a) (λ q. k q.0 q.1) (x, r) e in
      let first = hp.shrinks a q.1 q.0 got in
      let second = (hk q.0).shrinks q.1 r x rest in omega arith;
}

some-IsReader : {A : Type 0} (x : A) → IsReader (λ a. some (x, a))
some-IsReader x = record { extends = λ a r more y e. cc; shrinks = λ a r y e. ground arith }

read_bytes-extends :
    (n : ℕ) (a r more x : Bytes)
    → read_bytes n a ≡ some (x, r)
    → read_bytes n (a ++ more) ≡ some (x, r ++ more)
unfolding read_bytes
read_bytes-extends n a r more x e = elim (Bool-cases (ltb (length a) n)) [
  | inl short ↦ let e' = rw short at e in cc
  | inr fits ↦
      let le : n ≤ length a = ground arith in
      let e' = rw fits at e in
      rw
        (
          ltb_of_le (length (a ++ more)) n (omega (arith, length-append a more)),
          take-append_le n a more le,
          drop-append_le n a more le,
        )
        (cc)
]

read_bytes-IsReader : (n : ℕ) → IsReader (read_bytes n)
unfolding read_bytes
read_bytes-IsReader n = record {
  extends = λ a r more x e. read_bytes-extends n a r more x e;
  shrinks = λ a r x e. ground (arith, length-drop n a);
}

read_be64-IsReader : IsReader read_be64
unfolding read_be64
read_be64-IsReader = bind-IsReader (read_bytes 8) _ (read_bytes-IsReader 8) (λ raw. some-IsReader _)

read_be32-IsReader : IsReader read_be32
unfolding read_be32
read_be32-IsReader = bind-IsReader (read_bytes 4) _ (read_bytes-IsReader 4) (λ raw. some-IsReader _)

read_be16-IsReader : IsReader read_be16
unfolding read_be16
read_be16-IsReader = bind-IsReader (read_bytes 2) _ (read_bytes-IsReader 2) (λ raw. some-IsReader _)

read_publish-IsReader : IsReader read_publish
unfolding read_publish
read_publish-IsReader = bind-IsReader read_be64 _ read_be64-IsReader λ id.
    bind-IsReader read_be16 _ read_be16-IsReader λ topic_len.
      bind-IsReader (read_bytes topic_len) _ (read_bytes-IsReader topic_len) λ topic.
        bind-IsReader read_be32 _ read_be32-IsReader λ body_len.
          bind-IsReader (read_bytes body_len) _ (read_bytes-IsReader body_len)
            λ body. some-IsReader _

read_ack-IsReader : IsReader read_ack
unfolding read_ack
read_ack-IsReader = bind-IsReader read_be64 _ read_be64-IsReader (λ id. some-IsReader _)

read_record-extends :
    (a r more : Bytes) (x : Record)
    → read_record a ≡ some (x, r)
    → read_record (a ++ more) ≡ some (x, r ++ more)
unfolding read_record
read_record-extends [] r more x e = cc
read_record-extends (b ∷ a) r more x e = elim (Bool-cases (b == wal_publish)) [
  | inl is_pub ↦ let e' = rw is_pub at e in rw is_pub (read_publish-IsReader.extends a r more x e')
  | inr other ↦ elim (Bool-cases (b == wal_ack)) [
    | inl is_ack ↦
        let e' = rw (other, is_ack) at e in
        rw (other, is_ack) (read_ack-IsReader.extends a r more x e')
    | inr neither ↦ let e' = rw (other, neither) at e in cc
  ]
]

-- Every record that is read takes a byte at least.
pub read_record-shrinks :
    (a r : Bytes) (x : Record) → read_record a ≡ some (x, r) → length r < length a
unfolding read_record
read_record-shrinks [] r x e = cc
read_record-shrinks (b ∷ a) r x e =
    ground (arith, read_publish-IsReader.shrinks a r x, read_ack-IsReader.shrinks a r x)

append_nonempty : (xs : Bytes) (y : ℕ) (ys : Bytes) → xs ++ y ∷ ys ≢ []
append_nonempty [] y ys e = cc
append_nonempty (x ∷ xs) y ys e = cc

-- A record cut short is not read.
pub read_record_torn :
    (r : Record) (torn : Bytes) (b : ℕ) (missing : Bytes)
    → Fits r
    → torn ++ b ∷ missing ≡ encode r
    → read_record torn ≡ none
read_record_torn r torn b missing fits e = elim (Option-cases (read_record torn)) [
  | inl stops ↦ stops
  | inr ((x, rest), got) ↦
      let longer = read_record-extends torn rest (b ∷ missing) x got in
      let whole = read_record-encode r [] fits in
      let whole' = rw (append-nil (encode r), ← e, longer) at whole in
      absurd (append_nonempty rest b missing (cc))
]
