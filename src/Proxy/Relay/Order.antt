-- ===== src/Proxy/Relay/Order.antt =====
-- The provider is sent the client's messages, each once and in their order.
use winny.Base.{◌≡◌, refl, ap, sym, subst, Bool, true, false, List, [], ◌∷◌, ◌++◌, arith}
use mathlib.Core.List.{append_assoc, append-nil}
use winny.Proxy.Relay.{
  Frame, message, ping, RelayEvent, upstream_opened, upstream_message, upstream_closed,
  upstream_failed, client_message, client_closed, keepalive_due, Relay, joined_relay, frames,
  on_relay_event, run_relay, send_upstream, send_client,
}

module _ {Message : Type 0} where
  -- The frames that are not pings.
  abbrev pub messages_of : List (Frame Message) → List Message
  messages_of [] = []
  messages_of (message m ∷ fs) = m ∷ messages_of fs
  messages_of (ping ∷ fs) = messages_of fs

  abbrev pub client_messages : List (RelayEvent Message) → List Message
  client_messages [] = []
  client_messages (client_message m ∷ es) = m ∷ client_messages es
  client_messages (upstream_opened ∷ es) = client_messages es
  client_messages (upstream_message m ∷ es) = client_messages es
  client_messages (upstream_closed code ∷ es) = client_messages es
  client_messages (upstream_failed ∷ es) = client_messages es
  client_messages (client_closed ∷ es) = client_messages es
  client_messages (keepalive_due ∷ es) = client_messages es

  -- Neither end is closed or fails.
  abbrev pub StaysOpen : List (RelayEvent Message) → Type 0
  StaysOpen [] = Unit
  StaysOpen (upstream_closed code ∷ es) = ⊥
  StaysOpen (upstream_failed ∷ es) = ⊥
  StaysOpen (client_closed ∷ es) = ⊥
  StaysOpen (client_message m ∷ es) = StaysOpen es
  StaysOpen (upstream_opened ∷ es) = StaysOpen es
  StaysOpen (upstream_message m ∷ es) = StaysOpen es
  StaysOpen (keepalive_due ∷ es) = StaysOpen es

  messages_of-append :
      (fs gs : List (Frame Message)) → messages_of (fs ++ gs) ≡ messages_of fs ++ messages_of gs
  messages_of-append [] gs = refl
  messages_of-append (message m ∷ fs) gs = ap (λ t. m ∷ t) (messages_of-append fs gs)
  messages_of-append (ping ∷ fs) gs = messages_of-append fs gs

  messages_of-frames : (ms : List Message) → messages_of (frames ms) ≡ ms
  messages_of-frames [] = refl
  messages_of-frames (m ∷ ms) = ap (λ t. m ∷ t) (messages_of-frames ms)

  -- What the relay has done with the messages that it got so far.
  pub record Relayed (received : List Message) (r : Relay Message) : Type 0 where
    pub in_order : messages_of r.to_upstream ++ r.buffered_messages ≡ received
    pub flushed : r.helius_ready ≡ true → r.buffered_messages ≡ []
    pub open_end : r.upstream_gone ≡ false

  opened-Relayed :
      (received : List Message) (r : Relay Message)
      → Relayed received r
      → Relayed received (on_relay_event upstream_opened r)
  unfolding on_relay_event send_upstream
  opened-Relayed received r h = record {
    in_order = ground (
      arith,
      h.open_end,
      messages_of-append r.to_upstream (frames r.buffered_messages),
      messages_of-frames r.buffered_messages,
      h.in_order,
      append-nil (messages_of r.to_upstream ++ r.buffered_messages),
    );
    flushed = λ ready. ground (arith, h.open_end);
    open_end = ground (arith, h.open_end);
  }

  client_message-Relayed :
      (m : Message) (received : List Message) (r : Relay Message)
      → Relayed received r
      → Relayed (received ++ (m ∷ [])) (on_relay_event (client_message m) r)
  unfolding on_relay_event send_upstream
  client_message-Relayed m received r h = go r.helius_ready refl
    where
      go :
          (b : Bool)
          → r.helius_ready ≡ b
          → Relayed (received ++ (m ∷ [])) (on_relay_event (client_message m) r)
      go true ready = record {
        in_order = ground (
          arith,
          ready,
          h.open_end,
          h.flushed ready,
          messages_of-append r.to_upstream (message m ∷ []),
          h.in_order,
          append-nil (messages_of r.to_upstream ++ (m ∷ [])),
          append-nil (messages_of r.to_upstream),
        );
        flushed = λ ready'. ground (arith, ready, h.open_end, h.flushed ready);
        open_end = ground (arith, ready, h.open_end);
      }
      go false waiting = record {
        in_order = ground (
          arith,
          waiting,
          h.in_order,
          append_assoc (messages_of r.to_upstream) r.buffered_messages (m ∷ []),
        );
        flushed = λ ready'. ground (arith, waiting, ready');
        open_end = ground (arith, waiting, h.open_end);
      }

  upstream_message-Relayed :
      (m : Message) (received : List Message) (r : Relay Message)
      → Relayed received r
      → Relayed received (on_relay_event (upstream_message m) r)
  unfolding on_relay_event send_client
  upstream_message-Relayed m received r h = record {
    in_order = ground (arith, h.in_order);
    flushed = λ ready. ground (arith, h.flushed, ready);
    open_end = ground (arith, h.open_end);
  }

  keepalive-Relayed :
      (received : List Message) (r : Relay Message)
      → Relayed received r
      → Relayed received (on_relay_event keepalive_due r)
  unfolding on_relay_event send_upstream
  keepalive-Relayed received r h = record {
    in_order = ground (
      arith,
      h.in_order,
      h.open_end,
      messages_of-append r.to_upstream (ping ∷ []),
      append-nil (messages_of r.to_upstream),
    );
    flushed = λ ready. ground (arith, h.flushed, ready, h.open_end);
    open_end = ground (arith, h.open_end);
  }

  run-Relayed :
      (es : List (RelayEvent Message)) (received : List Message) (r : Relay Message)
      → StaysOpen es
      → Relayed received r
      → Relayed (received ++ client_messages es) (run_relay es r)
  unfolding run_relay
  run-Relayed [] received r stays h = subst (λ ms. Relayed ms r) (sym (append-nil received)) h
  run-Relayed (client_message m ∷ es) received r stays h =
      subst (λ ms. Relayed ms (run_relay es (on_relay_event (client_message m) r)))
        (append_assoc received (m ∷ []) (client_messages es))
        (run-Relayed es (received ++ (m ∷ [])) _ stays (client_message-Relayed m received r h))
  run-Relayed (upstream_opened ∷ es) received r stays h =
      run-Relayed es received _ stays (opened-Relayed received r h)
  run-Relayed (upstream_message m ∷ es) received r stays h =
      run-Relayed es received _ stays (upstream_message-Relayed m received r h)
  run-Relayed (upstream_failed ∷ es) received r stays h = absurd stays
  run-Relayed (keepalive_due ∷ es) received r stays h =
      run-Relayed es received _ stays (keepalive-Relayed received r h)
  run-Relayed (upstream_closed code ∷ es) received r stays h = absurd stays
  run-Relayed (client_closed ∷ es) received r stays h = absurd stays

  -- While neither end is closed or fails, whatever the order of the events: the messages that the provider
  -- was sent, without the pings, and then those that are held back, are the client's messages, each
  -- once and in their order; and nothing is held back once the provider's socket is open.
  pub relay_in_order :
      (es : List (RelayEvent Message))
      → StaysOpen es
      → Relayed (client_messages es) (run_relay es joined_relay)
  relay_in_order es stays =
      run-Relayed es [] joined_relay stays
        (record { in_order = refl; flushed = λ ready. refl; open_end = refl })
