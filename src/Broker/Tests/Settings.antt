-- ===== src/Broker/Tests/Settings.antt =====
-- The settings of main at a concrete environment.
use text.Mathlib.Text.{◌==◌}
use message_driven_event_que.Prelude.{◌≡◌, refl, ◌++◌, none, some, arith, if◌then◌else◌}
use message_driven_event_que.Prelude.Int.{pos, negsuc}
use message_driven_event_que.TopicRouter.{to_string}
use message_driven_event_que.Broker.Config.{
  ok, err, stoi, to_u16, to_size, Env, config, codes, out_of_range, invalid_argument,
}
use message_driven_event_que.Broker.Config.Settings.{stoi-to_string, config-settings}

stoi-to_string_example : stoi (to_string (negsuc 11) ++ codes " ms") ≡ ok (negsuc 11)
stoi-to_string_example = stoi-to_string (negsuc 11) (codes " ms") (omega arith) refl

stoi_refuses : stoi (codes "2147483648") ≡ err out_of_range
unfolding stoi
stoi_refuses = refl

stoi_empty : stoi (codes " + 1") ≡ err invalid_argument
unfolding stoi
stoi_empty = refl

-- The capacity is set to -1 and the port to 65545.
abbrev settings : Env
settings key =
    if key == "QUEUE_CAPACITY"
    then some (to_string (negsuc 0))
    else if key == "TCP_PORT"
    then some (to_string (pos 65545))
    else none

config-settings_example :
    config settings
    ≡ ok (record {
      tcp_port = to_u16 (pos 65545);
      queue_cap = to_size (negsuc 0);
      max_retries = pos 3;
      ack_timeout = pos 5000;
      wal_path = codes "./data/broker.wal";
    })
config-settings_example =
    config-settings settings (some (pos 65545)) (some (negsuc 0)) none none (refl, omega arith)
      (refl, omega arith) refl refl

wrapped : (to_u16 (pos 65545) ≡ 9) × (to_size (negsuc 0) ≡ 18446744073709551615)
unfolding to_u16 to_size
wrapped = (refl, refl)
