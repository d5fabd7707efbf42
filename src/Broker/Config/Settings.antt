-- ===== src/Broker/Config/Settings.antt =====
-- What the settings are read as: `std::stoi` reads back what `std::to_string` prints, and a setting
-- that is not made has its default.
use Prim.Native.String.{String}
use message_driven_event_que.Prelude.{
  ℕ, zero, suc, ◌+◌, ◌-◌, ◌*◌, ◌/◌, ◌%◌, ◌^◌, ◌<◌, ◌≡◌, ◌≢◌, Bool, refl, ◌∙◌, true, false, [], ◌∷◌,
  ◌++◌, Option, none, some, arith, All, All-append, ltb, Bool-cases, inl, inr, nat_eq, append-nil,
}
use message_driven_event_que.Prelude.Int.{ℤ, pos, negsuc}
use message_driven_event_que.Message.{Bytes}
use message_driven_event_que.TopicRouter.{digits, to_string}
use message_driven_event_que.TopicRouter.Decimal.{value, value-digits}
use message_driven_event_que.Broker.Config.{
  ok, is_digit, read_digits, to_int, magnitude, stoi, to_u16, to_size, Env, env_or, config, codes,
}

-- The range of an `int`.
abbrev pub IsInt : ℤ → Type 0
IsInt (pos n) = n < 2 ^ 31
IsInt (negsuc n) = n < 2 ^ 31

-- The number ends before what follows it.
abbrev pub Ends : Bytes → Type 0
Ends [] = Unit {0}
Ends (c ∷ cs) = is_digit c ≡ false

digits-All : (fuel n : ℕ) → All (λ c. is_digit c ≡ true) (digits fuel n)
unfolding digits
digits-All zero n = tt
digits-All (suc fuel) n = elim (Bool-cases (ltb n 10)) [
  | inl small ↦ rw small (ground arith, tt)
  | inr large ↦
      rw large (All-append _ (digits fuel (n / 10)) _ (digits-All fuel (n / 10)) (ground arith, tt))
]

read_digits-append :
    (acc : ℕ) (ds rest : Bytes)
    → All (λ c. is_digit c ≡ true) ds
    → Ends rest
    → read_digits acc (ds ++ rest) ≡ value acc ds
unfolding read_digits value
read_digits-append acc [] [] h ends = refl
read_digits-append acc [] (c ∷ rest) h ends = ground (arith, ends)
read_digits-append acc (d ∷ ds) rest h ends =
    ground (arith, h.0, read_digits-append (acc * 10 + (d - 48)) ds rest h.1 ends)

append-ne-nil : (xs : Bytes) (x : ℕ) → xs ++ x ∷ [] ≢ []
append-ne-nil [] x e = cc
append-ne-nil (y ∷ xs) x e = cc

digits-ne-nil : (n : ℕ) → digits (suc n) n ≢ []
unfolding digits
digits-ne-nil n e = elim (Bool-cases (ltb n 10)) [
  | inl small ↦ let no = rw small at e in cc
  | inr large ↦ let no = rw large at e in append-ne-nil (digits n (n / 10)) (48 + n % 10) no
]

magnitude_of :
    (minus : Bool) (ds rest : Bytes)
    → ds ≢ []
    → All (λ c. is_digit c ≡ true) ds
    → Ends rest
    → magnitude minus (ds ++ rest) ≡ to_int minus (value 0 ds)
unfolding magnitude
magnitude_of minus [] rest full h ends = absurd (full refl)
magnitude_of minus (d ∷ ds) rest full h ends =
    ground (arith, h.0, read_digits-append 0 (d ∷ ds) rest h ends)

-- A digit is no space and no sign.
stoi_of :
    (ds rest : Bytes)
    → ds ≢ []
    → All (λ c. is_digit c ≡ true) ds
    → Ends rest
    → stoi (ds ++ rest) ≡ to_int false (value 0 ds)
unfolding stoi
stoi_of [] rest full h ends = absurd (full refl)
stoi_of (d ∷ ds) rest full h ends =
    ground (arith, h.0, magnitude_of false (d ∷ ds) rest full h ends)

-- `std::stoi` reads back what `std::to_string` prints of an `int`, whatever follows that is no digit.
pub stoi-to_string :
    (z : ℤ) (rest : Bytes) → IsInt z → Ends rest → stoi (to_string z ++ rest) ≡ ok z
unfolding to_string to_int stoi magnitude
stoi-to_string (pos n) rest fits ends =
    stoi_of (digits (suc n) n) rest (digits-ne-nil n) (digits-All (suc n) n) ends
    ∙ ground (arith, value-digits (suc n) n (omega arith))
stoi-to_string (negsuc n) rest fits ends =
    magnitude_of true (digits (suc (suc n)) (suc n)) rest (digits-ne-nil (suc n))
      (digits-All (suc (suc n)) (suc n)) ends
    ∙ ground (arith, value-digits (suc (suc n)) (suc n) (omega arith))

-- A setting is not made, or it is the decimal print of an `int`.
abbrev pub HasSetting : Env → String → Option ℤ → Type 0
HasSetting env key none = env key ≡ none
HasSetting env key (some z) = (env key ≡ some (to_string z)) × IsInt z

abbrev pub or_default : Option ℤ → ℤ → ℤ
or_default none d = d
or_default (some z) d = z

setting :
    (env : Env) (key : String) (def : Bytes) (d : ℤ) (o : Option ℤ)
    → HasSetting env key o
    → stoi def ≡ ok d
    → stoi (env_or env key def) ≡ ok (or_default o d)
setting env key def d none absent default = rw (absent, env_or) default
setting env key def d (some z) (present, fits) default =
    let printed = stoi-to_string z [] fits tt in
    rw (present, env_or) (rw (append-nil (to_string z)) at printed)

port_default : stoi (codes "9099") ≡ ok (pos 9099)
unfolding stoi read_digits
port_default = refl

cap_default : stoi (codes "10000") ≡ ok (pos 10000)
unfolding stoi read_digits
cap_default = refl

retries_default : stoi (codes "3") ≡ ok (pos 3)
unfolding stoi read_digits
retries_default = refl

timeout_default : stoi (codes "5000") ≡ ok (pos 5000)
unfolding stoi read_digits
timeout_default = refl

-- Where each of the four numbers is not set or set to the decimal print of an `int`, the broker starts
-- with these settings: the number that was set, or else the default, the port reduced to 16 bits and the
-- capacity to 64; and with the path that was set, or else the default.
pub config-settings :
    (env : Env) (port cap retries timeout : Option ℤ)
    → HasSetting env "TCP_PORT" port
    → HasSetting env "QUEUE_CAPACITY" cap
    → HasSetting env "MAX_RETRIES" retries
    → HasSetting env "ACK_TIMEOUT_MS" timeout
    → config env
      ≡ ok (record {
        tcp_port = to_u16 (or_default port (pos 9099));
        queue_cap = to_size (or_default cap (pos 10000));
        max_retries = or_default retries (pos 3);
        ack_timeout = or_default timeout (pos 5000);
        wal_path = env_or env "WAL_PATH" (codes "./data/broker.wal");
      })
unfolding config
config-settings env port cap retries timeout p c r t =
    rw
      (
        setting env "TCP_PORT" (codes "9099") (pos 9099) port p port_default,
        setting env "QUEUE_CAPACITY" (codes "10000") (pos 10000) cap c cap_default,
        setting env "MAX_RETRIES" (codes "3") (pos 3) retries r retries_default,
        setting env "ACK_TIMEOUT_MS" (codes "5000") (pos 5000) timeout t timeout_default,
      )
      refl
