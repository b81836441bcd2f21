-- ===== src/Worker/Connection.antt =====
-- `WsManager` of crates/common/src/ws_manager.rs: the choice of an address, the life of one
-- connection, and the loop that connects again. What happens on a connection is an input, in the
-- order in which `select!` takes it up; the handler is any of the trait in
-- crates/common/src/ws_handler.rs. Names are resolved, sockets opened and frames coded by libraries.
use wup_demo.Prelude.{
  ℕ, ◌*◌, min, String, Bool, true, false, Option, none, some, List, [], ◌∷◌, ◌++◌, keep, find, not,
  if◌then◌else◌,
}
use wup_demo.Commands.{ControlCommand}

pub record WsManagerConfig : Type 0 where
  -- In milliseconds.
  pub ping_interval : ℕ
  pub pong_timeout : ℕ
  pub reconnect_delay : ℕ
  pub max_reconnect_delay : ℕ
  pub platform_label : String

-- `impl Default`
abbrev pub default_config : WsManagerConfig
default_config = record {
  ping_interval = 30000;
  pong_timeout = 10000;
  reconnect_delay = 1000;
  max_reconnect_delay = 30000;
  platform_label = "unknown";
}

-- An address and the test for the older kind; every address is of one of the two kinds.
pub record Address : Type 0 where
  pub text : String
  pub is_ipv4 : Bool

-- IPv4 addresses first, then IPv6.
unfoldable pub sorted_addrs : List Address → List Address
sorted_addrs addrs = keep (λ a. a.is_ipv4) addrs ++ keep (λ a. not a.is_ipv4) addrs

-- The loop over the addresses: the first that a connection can be opened to.
unfoldable pub connect_first : (Address → Bool) → List Address → Option Address
connect_first reachable addrs = find reachable (sorted_addrs addrs)

-- The trait: the state of the handler is what its methods change.
pub record WsHandler (H : Type 0) : Type 0 where
  pub on_connect_message : H → Option String
  -- An error of a message is logged and changes nothing else.
  pub on_message : String → H → H
  pub handle_command : ControlCommand → H → H × Option String

-- What the loop of a connection takes up.
pub data Incoming : Type 0 where
  text : String → Incoming
  binary pong frame : Incoming
  ping : String → Incoming
  close failed ended : Incoming
  command : ControlCommand → Incoming
  commands_closed : Incoming
  tick : Incoming

-- What is written to the connection.
pub data Message : Type 0 where
  text_message : String → Message
  pong_message : String → Message
  ping_message : Message
  close_message : Message

-- How a connection is left: for good, by an error, or not yet.
pub data Left : Type 0 where
  shut_down lost running : Left

pub record Life (H : Type 0) : Type 0 where
  pub handler : H
  pub written : List Message
  pub left : Left

abbrev pub written_first : {H : Type 0} → Message → Life H → Life H
written_first m life = record life { written = m ∷ life.written }

module _ {H : Type 0} (handler : WsHandler H) (writes : Message → Bool) where
  -- `write.send(message).await?`, and what follows it.
  abbrev pub send_then : Message → H → Life H → Life H
  send_then m h next =
      if writes m
      then written_first m next
      else record { handler = h; written = []; left = Left.lost }

  abbrev pub send_some : Option String → H → Life H → Life H
  send_some none h next = next
  send_some (some s) h next = send_then (Message.text_message s) h next

  abbrev pub shut : H → Life H
  shut h = record { handler = h; written = []; left = Left.shut_down }

  abbrev pub lose : H → Life H
  lose h = record { handler = h; written = []; left = Left.lost }

  -- `if let Some(msg) = handle_command(cmd) { write.send(..).await? }`, and a shutdown.
  unfoldable pub run_events : List Incoming → H → Life H
  run_events [] h = record { handler = h; written = []; left = Left.running }
  run_events (Incoming.text t ∷ events) h = run_events events (handler.on_message t h)
  run_events (Incoming.binary ∷ events) h = run_events events h
  run_events (Incoming.pong ∷ events) h = run_events events h
  run_events (Incoming.frame ∷ events) h = run_events events h
  run_events (Incoming.ping d ∷ events) h =
      send_then (Message.pong_message d) h (run_events events h)
  run_events (Incoming.close ∷ events) h = lose h
  run_events (Incoming.failed ∷ events) h = lose h
  run_events (Incoming.ended ∷ events) h = lose h
  run_events (Incoming.command ControlCommand.shutdown ∷ events) h =
      if writes Message.close_message then written_first Message.close_message (shut h) else shut h
  run_events (Incoming.command (ControlCommand.subscribe ids) ∷ events) h =
      let after = handler.handle_command (ControlCommand.subscribe ids) h in
      send_some after.1 after.0 (run_events events after.0)
  run_events (Incoming.command (ControlCommand.unsubscribe ids) ∷ events) h =
      let after = handler.handle_command (ControlCommand.unsubscribe ids) h in
      send_some after.1 after.0 (run_events events after.0)
  run_events (Incoming.commands_closed ∷ events) h = shut h
  run_events (Incoming.tick ∷ events) h = send_then Message.ping_message h (run_events events h)

  -- A connection from the handshake on.
  unfoldable pub connection : List Incoming → H → Life H
  connection events h = send_some (handler.on_connect_message h) h (run_events events h)

-- One round of the outer loop: no connection, or one on which these things happen.
pub data Attempt : Type 0 where
  unreachable : Attempt
  connected : List Incoming → Attempt

-- The rounds of the outer loop: the handler after them, the delays that were waited, and whether
-- the manager has returned.
pub record Rounds (H : Type 0) : Type 0 where
  pub handler : H
  pub delays : List ℕ
  pub returned : Bool

-- `(reconnect_delay * 2).min(max_reconnect_delay)`
abbrev pub next_delay : WsManagerConfig → ℕ → ℕ
next_delay config delay = min (delay * 2) config.max_reconnect_delay

abbrev pub delayed : {H : Type 0} → ℕ → Rounds H → Rounds H
delayed delay rounds = record rounds { delays = delay ∷ rounds.delays }

-- What follows a round, by how its connection was left.
abbrev pub left_by : {H : Type 0} → Left → H → ℕ → Rounds H → Rounds H
left_by Left.shut_down h delay rest = record { handler = h; delays = []; returned = true }
left_by Left.running h delay rest = record { handler = h; delays = []; returned = false }
left_by Left.lost h delay rest = delayed delay rest

module _ {H : Type 0} (handler : WsHandler H) (writes : Message → Bool)
    (config : WsManagerConfig) where
  unfoldable pub attempt : Attempt → H → H × Left
  attempt Attempt.unreachable h = (h, Left.lost)
  attempt (Attempt.connected events) h =
      let life = connection handler writes events h in (life.handler, life.left)

  unfoldable pub run_from : ℕ → List Attempt → H → Rounds H
  run_from delay [] h = record { handler = h; delays = []; returned = false }
  run_from delay (a ∷ attempts) h =
      let after = attempt a h in
      left_by after.1 after.0 delay (run_from (next_delay config delay) attempts after.0)

  unfoldable pub run : List Attempt → H → Rounds H
  run attempts h = run_from config.reconnect_delay attempts h
