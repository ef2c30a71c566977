-- ===== src/Realtime.antt =====
-- Realtime events: `ConnectionManager` and `subscribe` of backend/app/realtime/broker.py.
--
-- A socket is a number. `sends` tells whether a socket takes a message, anew at each signal; a message of the channel that the
-- loop reads is a `ChannelMessage`, with what `json.loads` finds in it. The delay is in seconds.
pub mod Outage
mod Tests
use mad_devs_note_taker.Base.{
  ℕ, ◌*◌, Bool, true, false, ◌&&◌, not, if◌then◌else◌, ◌==◌, List, [], ◌∷◌, ◌++◌, select, contains,
  min,
}

pub data Message (P : Type 0) : Type 0 where
  event : P → Message P
  resync_required : Message P

-- The open connections, and what was sent to each, in order.
pub record Manager (P : Type 0) : Type 0 where
  pub connections : List ℕ
  pub sent : List (ℕ × Message P)

-- What the loop of `subscribe` meets: the subscription stands, a message comes, the connection fails.
pub data Signal (P : Type 0) : Type 0 where
  subscribed : Signal P
  received : Bool → P → Signal P
  failure : Signal P

-- The loop's variables `failed` and `delay`, with the manager and the delays slept so far.
pub record Subscriber (P : Type 0) : Type 0 where
  pub failed : Bool
  pub delay : ℕ
  pub manager : Manager P
  pub slept : List ℕ

module _ {P : Type 0} where
  unfoldable pub connect : ℕ → Manager P → Manager P
  connect socket m =
      if contains socket m.connections
      then m
      else record m { connections = m.connections ++ socket ∷ [] }

  unfoldable pub disconnect : ℕ → Manager P → Manager P
  disconnect socket m = record m { connections = select (λ c. not (c == socket)) m.connections }

  abbrev pub deliveries_to : Message P → List ℕ → List (ℕ × Message P)
  deliveries_to message [] = []
  deliveries_to message (c ∷ cs) = (c, message) ∷ deliveries_to message cs

  -- Sends to every connection, and forgets those that fail.
  unfoldable pub broadcast : (ℕ → Bool) → Message P → Manager P → Manager P
  broadcast sends message m = record {
    connections = select sends m.connections;
    sent = m.sent ++ deliveries_to message (select sends m.connections);
  }

  unfoldable pub step : (ℕ → Bool) → Signal P → Subscriber P → Subscriber P
  step sends subscribed s = record s {
    failed = false;
    delay = 1;
    manager = if s.failed then broadcast sends resync_required s.manager else s.manager;
  }
  step sends (received is_event payload) s = record s {
    manager = if is_event then broadcast sends (event payload) s.manager else s.manager;
  }
  step sends failure s = record {
    failed = true;
    delay = min (s.delay * 2) 30;
    manager = if s.failed then s.manager else broadcast sends resync_required s.manager;
    slept = s.slept ++ s.delay ∷ [];
  }

  -- The signals in order, each with the sockets that take a message then.
  unfoldable pub run : List ((ℕ → Bool) × Signal P) → Subscriber P → Subscriber P
  run [] s = s
  run ((sends, x) ∷ xs) s = run xs (step sends x s)
