-- ===== src/Proxy/Relay.antt =====
-- The relay of `handleWs` (rpc-proxy/src/index.ts): the listeners of the two sockets and the
-- keepalive timer as one step function. A send on a socket that is closed does nothing.
pub mod Order
use winny.Base.{ℕ, Bool, true, false, not, Option, none, some, List, [], ◌∷◌, ◌++◌, if◌then◌else◌}

pub data Frame (Message : Type 0) : Type 0 where
  message : Message → Frame Message
  ping : Frame Message

pub data RelayEvent (Message : Type 0) : Type 0 where
  upstream_opened : RelayEvent Message
  upstream_message : Message → RelayEvent Message
  upstream_closed : ℕ → RelayEvent Message
  upstream_failed : RelayEvent Message
  client_message : Message → RelayEvent Message
  client_closed : RelayEvent Message
  keepalive_due : RelayEvent Message

-- `heliusReady`, `bufferedMessages`, the timer, and what each socket was sent, in order.
pub record Relay (Message : Type 0) : Type 0 where
  pub helius_ready : Bool
  pub buffered_messages : List Message
  pub keepalive : Bool
  pub upstream_gone : Bool
  pub client_gone : Bool
  pub to_upstream : List (Frame Message)
  pub to_client : List Message
  pub close_code : Option ℕ

abbrev pub joined_relay : {Message : Type 0} → Relay Message
joined_relay = record {
  helius_ready = false;
  buffered_messages = [];
  keepalive = true;
  upstream_gone = false;
  client_gone = false;
  to_upstream = [];
  to_client = [];
  close_code = none;
}

module _ {Message : Type 0} where
  abbrev pub frames : List Message → List (Frame Message)
  frames [] = []
  frames (m ∷ ms) = message m ∷ frames ms

  unfoldable pub send_upstream : List (Frame Message) → Relay Message → Relay Message
  send_upstream fs r = if r.upstream_gone then r else record r { to_upstream = r.to_upstream ++ fs }

  unfoldable pub send_client : Message → Relay Message → Relay Message
  send_client m r = if r.client_gone then r else record r { to_client = r.to_client ++ (m ∷ []) }

  -- serverSideWs.close(code): the first code counts.
  unfoldable pub close_client : ℕ → Relay Message → Relay Message
  close_client code r =
      if r.client_gone then r else record r { client_gone = true; close_code = some code }

  unfoldable pub on_relay_event : RelayEvent Message → Relay Message → Relay Message
  unfolding send_upstream send_client close_client
  on_relay_event upstream_opened r =
      record (send_upstream (frames r.buffered_messages) (record r { helius_ready = true })) {
        buffered_messages = [];
      }
  on_relay_event (upstream_message m) r = send_client m r
  on_relay_event (upstream_closed code) r = record (close_client code r) {
    upstream_gone = true;
    keepalive = false;
  }
  -- After an `error` the provider's socket is closed; its `close` follows and stops the timer.
  on_relay_event upstream_failed r = record (close_client 1011 r) { upstream_gone = true }
  on_relay_event (client_message m) r =
      if r.helius_ready
      then send_upstream (message m ∷ []) r
      else record r { buffered_messages = r.buffered_messages ++ (m ∷ []) }
  on_relay_event client_closed r = record r {
    client_gone = true;
    upstream_gone = true;
    keepalive = false;
  }
  on_relay_event keepalive_due r =
      if not r.keepalive then r else if r.helius_ready then send_upstream (ping ∷ []) r else r

  unfoldable pub run_relay : List (RelayEvent Message) → Relay Message → Relay Message
  run_relay [] r = r
  run_relay (e ∷ es) r = run_relay es (on_relay_event e r)
