-- ===== src/TopicRouter/Decimal.antt =====
-- `std::to_string` gives different texts for different clients, so the groups that the router makes
-- for subscribers without one are different.
use message_driven_event_que.Prelude.{
  ℕ, zero, suc, ◌+◌, ◌-◌, ◌*◌, ◌/◌, ◌%◌, ◌<◌, ◌≤◌, ◌≡◌, ◌≢◌, inl, inr, refl, sym, ap, ◌∙◌, [], ◌∷◌,
  ◌++◌, arith, ltb, Bool-cases, All, All-append, drop, length,
}
use message_driven_event_que.Prelude.Int.{pos, negsuc}
use message_driven_event_que.Message.{Bytes, ClientId}
use message_driven_event_que.TopicRouter.{digits, to_string, group_key, unique_prefix}

-- The number that a run of digits stands for, behind the number `acc`.
unfoldable pub value : ℕ → Bytes → ℕ
value acc [] = acc
value acc (d ∷ ds) = value (acc * 10 + (d - 48)) ds

value-append : (acc : ℕ) (xs ys : Bytes) → value acc (xs ++ ys) ≡ value (value acc xs) ys
unfolding value
value-append acc [] ys = refl
value-append acc (x ∷ xs) ys = value-append (acc * 10 + (x - 48)) xs ys

pub value-digits : (fuel n : ℕ) → n < fuel → value 0 (digits fuel n) ≡ n
unfolding digits value
value-digits zero n h = absurd (omega arith)
value-digits (suc fuel) n h = elim (Bool-cases (ltb n 10)) [
  | inl small ↦ rw small (omega arith)
  | inr large ↦
      let higher = value-digits fuel (n / 10) (ground arith) in
      rw (large, value-append 0 (digits fuel (n / 10)) ((48 + n % 10) ∷ []), higher) (omega arith)
]

-- The decimal digits of a number, and nothing else, so no minus sign.
abbrev pub IsDigit : ℕ → Type 0
IsDigit c = (48 ≤ c) × (c ≤ 57)

pub digits-All : (fuel n : ℕ) → All IsDigit (digits fuel n)
unfolding digits
digits-All zero n = tt
digits-All (suc fuel) n = elim (Bool-cases (ltb n 10)) [
  | inl small ↦ rw small ((omega arith, ground arith), tt)
  | inr large ↦ rw large (
      All-append IsDigit (digits fuel (n / 10)) _ (digits-All fuel (n / 10))
        ((omega arith, omega arith), tt))
]

no_minus : (xs ys : Bytes) → All IsDigit xs → xs ≢ b'-' ∷ ys
no_minus [] ys h e = cc
no_minus (x ∷ xs) ys h e = ground (arith, h.0.0)

to_string-injective : (a b : ClientId) → to_string a ≡ to_string b → a ≡ b
unfolding to_string
to_string-injective (pos a) (pos b) e = ap pos (
    sym (value-digits (suc a) a (omega arith))
    ∙ ap (value 0) e
    ∙ value-digits (suc b) b (omega arith))
to_string-injective (pos a) (negsuc b) e = absurd (no_minus _ _ (digits-All (suc a) a) e)
to_string-injective (negsuc a) (pos b) e = absurd (no_minus _ _ (digits-All (suc b) b) (sym e))
to_string-injective (negsuc a) (negsuc b) e =
    let same : suc a ≡ suc b =
      sym (value-digits (suc (suc a)) (suc a) (omega arith))
      ∙ ap (λ (l : Bytes). value 0 (drop 1 l)) e
      ∙ value-digits (suc (suc b)) (suc b) (omega arith) in
    ap negsuc (omega arith)

-- Subscribers that name no group are put into one group only if they are the same client.
pub group_key-injective : (a b : ClientId) → group_key [] a ≡ group_key [] b → a ≡ b
unfolding group_key
group_key-injective a b e = to_string-injective a b (ap (drop (length unique_prefix)) e)
