-- ===== src/Logs/Tests.antt =====
-- The theorems on the log broker at concrete inputs, and runs of its functions.
use v2ray_e.Base.{ℕ, ◌≤◌, ◌≡◌, refl, true, false, List, [], ◌∷◌, length, take, drop}
use v2ray_e.Base.Text.{txt}
use v2ray_e.Logs.Line.{LogLine, parse_line, core_line, handled_line}
use v2ray_e.Logs.Broker.{
  Broker, Event, logged, subscribed, cleared, cancelled, acted, received, run, dispatch, subscribe,
  clear, act, new_log_broker, log_buf_size, channel_size,
}
use v2ray_e.Logs.Recent.{last, history, run-recent}
use v2ray_e.Logs.Registered.Locked.{Inv, new-Inv}
use v2ray_e.Logs.Registered.{run-Inv, dispatch-cancel_crashes}
use v2ray_e.Logs.Replay.{acts, open_channel, subscribe-oldest}

abbrev now : List ℕ
now = txt "2024-05-01T10:00:00Z"

-- The line of a message with a timestamp and a level.
parse_line-level :
    parse_line now (txt "2024/05/01 10:00:00 [Warning] core: started\r")
    ≡ core_line (txt "2024/05/01 10:00:00") (txt "warning") (txt "core: started")
unfolding parse_line drop take
parse_line-level = refl

-- A level that does not end leaves the line whole behind its timestamp.
parse_line-open :
    parse_line now (txt "2024/05/01 10:00:00 [x")
    ≡ core_line (txt "2024/05/01 10:00:00") (txt "info") (txt "2024/05/01 10:00:00 [x")
unfolding parse_line drop take
parse_line-open = refl

handled_line-warn :
    handled_line now (txt "[Warn]  slow ") ≡ core_line now (txt "warning") (txt "slow")
unfolding handled_line drop
handled_line-warn = refl

abbrev started : LogLine
started = record {
  timestamp = txt "10:00";
  level = txt "info";
  source = txt "app";
  message = txt "core started";
}

abbrev stopped : LogLine
stopped = record {
  timestamp = txt "10:01";
  level = txt "info";
  source = txt "app";
  message = txt "core stopped";
}

abbrev events : List Event
events =
    logged started ∷ subscribed ∷ acted 0 ∷ cleared ∷ logged stopped ∷ acted 0 ∷ received 0 ∷ []

events-alive : (run events new_log_broker).crashed ≡ false
unfolding run new_log_broker dispatch subscribe clear act
events-alive = refl

run-recent_example :
    ((run events new_log_broker).buf ≡ last log_buf_size (history events []))
    × (length ((run events new_log_broker).buf) ≤ log_buf_size)
run-recent_example = run-recent events events-alive

run-Inv_example : Inv (run events new_log_broker)
run-Inv_example = run-Inv events new_log_broker new-Inv

abbrev listening : Broker
listening = run (subscribed ∷ []) new_log_broker

listening-Inv : Inv listening
listening-Inv = run-Inv (subscribed ∷ []) new_log_broker new-Inv

listening-alive : listening.crashed ≡ false
unfolding run new_log_broker subscribe
listening-alive = refl

listening-subs : listening.subs ≡ 0 ∷ []
unfolding run new_log_broker subscribe
listening-subs = refl

dispatch-cancel_crashes_example :
    (run (logged stopped ∷ cancelled 0 ∷ acted 0 ∷ acted 1 ∷ []) listening).crashed ≡ true
dispatch-cancel_crashes_example =
    dispatch-cancel_crashes stopped 0 [] listening listening-Inv listening-alive listening-subs

abbrev after_two : Broker
after_two = run (logged started ∷ logged stopped ∷ []) new_log_broker

after_two-alive : after_two.crashed ≡ false
unfolding run new_log_broker dispatch
after_two-alive = refl

subscribe-oldest_example :
    (run (subscribed ∷ acts after_two.buf) after_two).channels
    ≡ open_channel after_two.next_id (take channel_size after_two.buf) ∷ after_two.channels
subscribe-oldest_example = subscribe-oldest after_two after_two-alive
