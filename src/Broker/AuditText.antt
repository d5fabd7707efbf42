-- ===== src/Broker/AuditText.antt =====
-- What the audit message of the DLQ logger (broker/src/main.cpp) says of a dead letter.
use message_driven_event_que.Prelude.{
  ℕ, suc, ◌≡◌, ◌≢◌, ◌⊎◌, inl, inr, refl, [], ◌∷◌, ◌++◌, if◌then◌else◌, arith, All,
}
use message_driven_event_que.Prelude.Text.{codes}
use message_driven_event_que.Prelude.Int.{pos}
use message_driven_event_que.Message.{Bytes, Message}
use message_driven_event_que.TopicRouter.{is_empty, to_string}
use message_driven_event_que.TopicRouter.Decimal.{value, value-digits, IsDigit, digits-All}
use message_driven_event_que.Broker.{new_message, sys_topic, sys_body}

-- The digits of the number, in base ten.
abbrev pub IsDecimal : Bytes → ℕ → Type 0
IsDecimal ds n = All IsDigit ds × (value 0 ds ≡ n)

-- The body as it is shown: braces for an empty one.
abbrev pub Shows : Bytes → Bytes → Type 0
Shows body shown = ((body ≡ []) × (shown ≡ codes "{}")) ⊎ ((body ≢ []) × (shown ≡ body))

-- The text of the audit message: the id in decimal, the topic, and the body.
abbrev pub Describes : Message → Bytes → Type 0
Describes dead text =
    (id : Bytes) × (shown : Bytes) × IsDecimal id dead.msg_id
    × Shows dead.body shown
    × (text
        ≡ codes "{\"original_id\": \""
          ++ (id
              ++ (codes "\", \"original_topic\": \""
                  ++ (dead.topic ++ (codes "\", \"original_body\": " ++ (shown ++ codes "}"))))))

-- An audit message for a dead letter, under a given id.
abbrev pub IsAudit : Message → ℕ → Message → Type 0
IsAudit dead id audit =
    (audit.msg_id ≡ id)
    × (audit.topic ≡ codes "$SYS.dlq")
    × (audit.retry_count ≡ 0)
    × Describes dead audit.body

shows_lem : (body : Bytes) → Shows body (if is_empty body then codes "{}" else body)
shows_lem [] = inl (refl, refl)
shows_lem (b ∷ bs) = inr ((λ e. cc), refl)

to_string-IsDecimal : (n : ℕ) → IsDecimal (to_string (pos n)) n
unfolding to_string
to_string-IsDecimal n = (digits-All (suc n) n, value-digits (suc n) n (omega arith))

sys_body-Describes : (dead : Message) → Describes dead (sys_body dead)
unfolding sys_body
sys_body-Describes dead = (
  to_string (pos dead.msg_id),
  if is_empty dead.body then codes "{}" else dead.body,
  to_string-IsDecimal dead.msg_id,
  shows_lem dead.body,
  refl,
)

pub sys_body-IsAudit :
    (dead : Message) (id : ℕ) → IsAudit dead id (new_message id sys_topic (sys_body dead))
sys_body-IsAudit dead id = (refl, refl, refl, sys_body-Describes dead)
