-- ===== src/DataIngestion/Subscriber.antt =====
-- services/mqtt_subscriber.py: the reconnection delay, in seconds.
use g_io_t_edge_gateway.Prelude.{
  Bool, List, [], arith, false, if◌then◌else◌, min, nat_eq, refl, string_eq, suc, true, zero, ℕ,
  ◌*◌, ◌∷◌, ◌≡◌,
}

abbrev pub base_reconnect_delay : ℕ
base_reconnect_delay = 1

abbrev pub max_reconnect_delay : ℕ
max_reconnect_delay = 60

pub record MqttSubscriber : Type 0 where
  pub running : Bool
  pub reconnect_delay : ℕ

-- How one turn of the loop ends: the connection could not be made; it was made, and lost later; it
-- ended without an error; or the task was cancelled.
pub data Connection : Type 0 where
  fails drops ends is_cancelled : Connection

abbrev pub back_off : MqttSubscriber → MqttSubscriber
back_off s =
    if s.running
    then record s { reconnect_delay = min (s.reconnect_delay * 2) max_reconnect_delay }
    else s

-- A turn of the loop: whether the loop goes on, and how long it slept.
unfoldable pub turn : Connection → MqttSubscriber → MqttSubscriber × Bool × ℕ
turn fails s = (back_off s, s.running, if s.running then s.reconnect_delay else 0)
turn drops s =
    let s' = record s { reconnect_delay = base_reconnect_delay } in
    (back_off s', s.running, if s.running then base_reconnect_delay else 0)
turn ends s = (record s { reconnect_delay = base_reconnect_delay }, s.running, 0)
turn is_cancelled s = (s, false, 0)

-- The sleeps of a running subscriber, while the connections end as listed.
unfoldable pub sleeps : List Connection → MqttSubscriber → List ℕ
sleeps [] s = []
sleeps (x ∷ xs) s =
    let (s', goes_on, slept) = turn x s in
    let rest = sleeps xs s' in if goes_on then slept ∷ rest else []

abbrev pub failures : ℕ → List Connection
failures zero = []
failures (suc n) = fails ∷ failures n

-- 1, 2, 4, …, and 60 from the seventh on.
abbrev pub delays : ℕ → ℕ → List ℕ
delays zero delay = []
delays (suc n) delay = min delay 60 ∷ delays n (delay * 2)

sleeps-failures_from :
    (n delay : ℕ) (s : MqttSubscriber)
    → s.running ≡ true
    → s.reconnect_delay ≡ min delay 60
    → sleeps (failures n) s ≡ delays n delay
unfolding sleeps turn
sleeps-failures_from zero delay s on e = refl
sleeps-failures_from (suc n) delay s on e = ground (
  arith,
  on,
  e,
  sleeps-failures_from n (delay * 2)
      (record s { reconnect_delay = min (s.reconnect_delay * 2) max_reconnect_delay }),
)

-- A subscriber that keeps failing to connect, from any delay that it may have reached, sleeps that
-- delay, then twice as long each time, and never more than 60 seconds. After a connection that was
-- made and lost it sleeps 1 second, and its delays start again from the bottom.
pub sleeps-failures :
    (n delay : ℕ) (s : MqttSubscriber)
    → s.running ≡ true
    → s.reconnect_delay ≡ min delay 60
    → (sleeps (failures n) s ≡ delays n delay) × (sleeps (drops ∷ failures n) s ≡ 1 ∷ delays n 2)
unfolding sleeps turn
sleeps-failures n delay s on e = (
  sleeps-failures_from n delay s on e,
  ground (arith, on, sleeps-failures_from n 2 (record s { reconnect_delay = 2 })),
)
