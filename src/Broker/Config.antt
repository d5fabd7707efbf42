-- ===== src/Broker/Config.antt =====
-- broker/src/main.cpp, the settings: `env` with a default, `std::stoi`, and the casts to the types of
-- the settings. The environment of the process is a function from names to texts.
pub mod Settings
use Prim.Native.Char.{code}
use Prim.Native.String.{String}
use message_driven_event_que.Prelude.{
  ℕ, zero, suc, ◌+◌, ◌-◌, ◌*◌, ◌%◌, ◌^◌, Bool, true, false, ◌&&◌, ◌||◌, List, [], ◌∷◌, Option, none,
  some, ltb, leb, ◌==◌, nat_eq, if◌then◌else◌,
}
use message_driven_event_que.Prelude.Int.{ℤ, pos, negsuc}
use message_driven_event_que.Message.{Bytes}

-- The bytes of an ASCII text.
abbrev pub codes : String → Bytes
codes String.[] = []
codes (String.◌∷◌ c s) = code c ∷ codes s

-- The exceptions of `std::stoi`; nothing catches them.
pub data StoiError : Type 0 where
  invalid_argument out_of_range : StoiError

pub data Result {ℓ} (A : Type ℓ) : Type ℓ where
  ok : A → Result A
  err : StoiError → Result A

infixl 5 ◌>>=◌
abbrev pub ◌>>=◌ {ℓ κ} : {A : Type ℓ} {B : Type κ} → Result A → (A → Result B) → Result B
ok a >>= f = f a
err e >>= f = err e

-- `isspace`, in the C locale.
abbrev pub is_space : ℕ → Bool
is_space c = c == b' ' || (leb 9 c && leb c 13)

abbrev pub is_digit : ℕ → Bool
is_digit c = leb b'0' c && leb c b'9'

unfoldable pub skip_spaces : Bytes → Bytes
skip_spaces [] = []
skip_spaces (c ∷ cs) = let rest = skip_spaces cs in if is_space c then rest else c ∷ cs

-- The number of the leading digits, behind the number `acc`.
unfoldable pub read_digits : ℕ → Bytes → ℕ
read_digits acc [] = acc
read_digits acc (c ∷ cs) =
    let more = read_digits (acc * 10 + (c - b'0')) cs in if is_digit c then more else acc

-- An `int` has 32 bits.
unfoldable pub to_int : Bool → ℕ → Result ℤ
to_int minus n =
    if minus
    then (if n == 0
        then ok (pos 0)
        else if leb n (2 ^ 31)
        then ok (negsuc (n - 1))
        else err out_of_range)
    else if ltb n (2 ^ 31)
    then ok (pos n)
    else err out_of_range

unfoldable pub magnitude : Bool → Bytes → Result ℤ
unfolding to_int read_digits
magnitude minus [] = err invalid_argument
magnitude minus (c ∷ cs) =
    if is_digit c then to_int minus (read_digits 0 (c ∷ cs)) else err invalid_argument

unfoldable pub signed : Bytes → Result ℤ
unfolding magnitude
signed [] = err invalid_argument
signed (c ∷ cs) =
    if c == b'-'
    then magnitude true cs
    else if c == b'+'
    then magnitude false cs
    else magnitude false (c ∷ cs)

-- Spaces, a sign, digits; what follows the digits is not looked at.
unfoldable pub stoi : Bytes → Result ℤ
unfolding skip_spaces signed
stoi s = signed (skip_spaces s)

-- `static_cast<uint16_t>` and `static_cast<size_t>` of an `int`.
unfoldable pub to_u16 : ℤ → ℕ
to_u16 (pos n) = n % 2 ^ 16
to_u16 (negsuc n) = 2 ^ 16 - 1 - n % 2 ^ 16

unfoldable pub to_size : ℤ → ℕ
to_size (pos n) = n % 2 ^ 64
to_size (negsuc n) = 2 ^ 64 - 1 - n % 2 ^ 64

abbrev pub Env : Type 0
Env = String → Option Bytes

-- `env(key, def)`
abbrev pub env_or : Env → String → Bytes → Bytes
env_or env key def = elim (env key) [ none ↦ def | some v ↦ v ]

pub record Config : Type 0 where
  pub tcp_port : ℕ
  pub queue_cap : ℕ
  pub max_retries : ℤ
  pub ack_timeout : ℤ
  pub wal_path : Bytes

unfoldable pub config : Env → Result Config
unfolding stoi to_u16 to_size
config env = do
  port ← stoi (env_or env "TCP_PORT" (codes "9099"))
  cap ← stoi (env_or env "QUEUE_CAPACITY" (codes "10000"))
  max_retries ← stoi (env_or env "MAX_RETRIES" (codes "3"))
  ack_timeout ← stoi (env_or env "ACK_TIMEOUT_MS" (codes "5000"))
  let wal_path = env_or env "WAL_PATH" (codes "./data/broker.wal")
  ok (record {
    tcp_port = to_u16 port;
    queue_cap = to_size cap;
    max_retries = max_retries;
    ack_timeout = ack_timeout;
    wal_path = wal_path;
  })
