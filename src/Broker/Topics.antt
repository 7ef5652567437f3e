-- ===== src/Broker/Topics.antt =====
-- What an unsubscription leaves behind, and what a socket number that outlives its client does.
use pc_communication_protoco.Prelude.{
  ℕ, ◌≡◌, ◌≢◌, refl, inl, inr, true, false, List, [], ◌∷◌, ◌++◌, arith, Text, text_eq, text_eq_refl,
  text_eq→eq, text_eq_ne, ◌==◌, if◌then◌else◌, ◌+◌, ◌∙◌, Bool-cases, ok, fault,
}
use mathlib.Core.Path.{sym}
use pc_communication_protoco.Broker.Types.{TcpPacket, TopicPacket, Client, Action}
use pc_communication_protoco.Broker.Registry.{grow, push, subscribe_clients, clear_topic, new_topic}
use pc_communication_protoco.Broker.Delivery.{store_packet, send_topics, send_clients, send_both}
use pc_communication_protoco.Broker.WellFormed.{ClientOk, with_topic, add_topic-ok}
use pc_communication_protoco.Broker.Publish.{subscribed, send_topics-connected}

-- How often the list names this topic.
abbrev pub times : Text → List TopicPacket → ℕ
times name [] = 0
times name (t ∷ ts) = (if text_eq t.topic name then 1 else 0) + times name ts

-- An unsubscription takes one entry of a topic away, and turns it into an entry of the empty name.
pub clear_topic-times :
    (ts : List TopicPacket) (name : Text)
    → name ≢ []
    → subscribed name ts ≡ true
    → (times name (clear_topic ts name).0 + 1 ≡ times name ts)
      × (times [] (clear_topic ts name).0 ≡ times [] ts + 1)
      × ((clear_topic ts name).1 ≡ true)
unfolding clear_topic
clear_topic-times [] name ne sub = ground arith
clear_topic-times (t ∷ ts) name ne sub = elim (Bool-cases (text_eq t.topic name)) [
  | inl hit ↦
      (let named : t.topic ≡ name = text_eq→eq t.topic name hit in
        let full = text_eq_ne t.topic [] (λ e. ne (sym named ∙ e)) in
        ground (arith, hit, full, text_eq_refl [], text_eq_ne [] name (λ e. ne (sym e))))
  | inr miss ↦ ground (arith, miss, clear_topic-times ts name ne)
]

-- Nobody stored or sent: the topics before the new one do not match.
send_topics-skip :
    (atoi : Text → ℕ) (c : Client) (p : ℕ) (pkt : TcpPacket) (ts : List TopicPacket)
    (t : TopicPacket)
    → subscribed pkt.topic ts ≡ false
    → c.connected ≡ 0
    → text_eq t.topic pkt.topic ≡ true
    → t.sf ≡ 1
    → t.tcps ≡ []
    → t.tcp_capacity ≡ 0
    → send_topics atoi c p pkt (ts ++ t ∷ []) ≡ fault
unfolding send_topics store_packet grow push
send_topics-skip atoi c p pkt [] t none_yet off hit keeps empty no_room = ground arith
send_topics-skip atoi c p pkt (u ∷ ts) t none_yet off hit keeps empty no_room =
    elim (Bool-cases (text_eq u.topic pkt.topic)) [
      | inl same ↦ ground arith
      | inr other ↦
          rw (other, send_topics-skip atoi c p pkt ts t (ground arith) off hit keeps empty no_room)
    ]

times-subscribed :
    (name : Text) (ts : List TopicPacket) → times name ts ≡ 0 → subscribed name ts ≡ false
times-subscribed name [] none_left = refl
times-subscribed name (t ∷ ts) none_left = ground (arith, times-subscribed name ts)

subscribed-times :
    (name : Text) (ts : List TopicPacket) (n : ℕ)
    → times name ts ≡ n + 1
    → subscribed name ts ≡ true
subscribed-times name [] n some_left = ground arith
subscribed-times name (t ∷ ts) n some_left = ground (arith, subscribed-times name ts n)

module _ (atoi : Text → ℕ) (c : Client) (p : ℕ) (pkt : TcpPacket) (ts : List TopicPacket)
    (name : Text) (on : c.connected ≡ 1) (ne : name ≢ []) where
  -- A connected client that unsubscribes from a topic with a name, of which it has exactly one
  -- entry, is sent no packet of that topic, and is sent, once, every packet whose topic is empty;
  -- its entries stay as the unsubscription left them.
  pub unsubscribed-delivery :
      times name ts ≡ 1
      → (pkt.topic ≡ name
          → send_topics atoi c p pkt (clear_topic ts name).0 ≡ ok ((clear_topic ts name).0, []))
        × (pkt.topic ≡ []
            → send_topics atoi c p pkt (clear_topic ts name).0
              ≡ ok ((clear_topic ts name).0, send_both atoi c.socket pkt))
  unsubscribed-delivery once =
      let counts = clear_topic-times ts name ne (subscribed-times name ts 0 (omega arith)) in
      let gone = times-subscribed name (clear_topic ts name).0 (omega (arith, counts)) in
      let emptied = subscribed-times [] (clear_topic ts name).0 (times [] ts) counts.1 in
      (
        λ e. send_topics-connected atoi c p pkt _ on ∙ (rw (e, gone)),
        λ e. send_topics-connected atoi c p pkt _ on ∙ (rw (e, emptied)),
      )

-- A well-formed disconnected client stands in front of a client that has the same socket number,
-- and has no entry of a topic. When that client subscribes to the topic with `sf == 1`, the
-- subscription is entered for the disconnected one, and the next packet on the topic is written
-- into an array that was never allocated.
pub stale-socket-fault :
    (atoi : Text → ℕ) (c d : Client) (rest : List Client) (action : Action) (p : ℕ)
    (pkt : TcpPacket)
    → ClientOk c
    → c.connected ≡ 0
    → c.socket ≡ d.socket
    → subscribed action.topic c.topics ≡ false
    → action.sf ≡ 1
    → pkt.topic ≡ action.topic
    → (c' : Client) × (subscribe_clients (c ∷ d ∷ rest) action d.socket ≡ ok (c' ∷ d ∷ rest))
      × (c'.topics ≡ c.topics ++ new_topic action ∷ [])
      × (send_clients atoi p pkt (c' ∷ d ∷ rest) ≡ fault)
unfolding subscribe_clients send_clients
stale-socket-fault atoi c d rest action p pkt okay off same absent keeps name = (
  with_topic c action okay,
  rw ((let e : (c.socket == d.socket) ≡ true = ground arith in e), add_topic-ok c action okay),
  refl,
  rw (
      send_topics-skip atoi (with_topic c action okay) p pkt c.topics (new_topic action)
        (rw name absent) off (rw name (text_eq_refl action.topic)) keeps refl refl),
)
