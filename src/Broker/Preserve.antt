-- ===== src/Broker/Preserve.antt =====
-- `subscribe_to_topic`, the unsubscription, `disconnect_subscriber` and the reconnection keep the
-- invariant of `Subscribers`.
use pc_communication_protoco.Prelude.{
  ℕ, ◌≡◌, refl, inl, inr, List, [], ◌∷◌, arith, Text, text_eq, ◌==◌, Bool-cases, length, All, ok,
}
use pc_communication_protoco.Broker.Types.{TopicPacket, Client, Subscribers, Action}
use pc_communication_protoco.Broker.Registry.{
  subscribe_to_topic, clear_topic, unsubscribe_clients, unsubscribe,
}
use pc_communication_protoco.Broker.Delivery.{
  reset_topics, disconnect_clients, disconnect_subscriber, empty_topics,
}
use pc_communication_protoco.Broker.WellFormed.{
  TopicOk, ClientOk, WellFormed, Live, subscribe_clients-ok,
}

-- A subscription from a socket that only connected clients name succeeds and keeps the invariant.
pub subscribe_to_topic-WellFormed :
    (s : Subscribers) (action : Action) (socket : ℕ)
    → WellFormed s
    → Live socket s.clients
    → (s' : Subscribers) × (subscribe_to_topic s action socket ≡ ok s') × WellFormed s'
unfolding subscribe_to_topic
subscribe_to_topic-WellFormed s action socket wf live =
    let (cs', e, okay, len) = subscribe_clients-ok s.clients action socket wf.clients_ok live in
    (
      record s { clients = cs' },
      rw e,
      record { room = omega (arith, wf.room); some_room = wf.some_room; clients_ok = okay },
    )

clear_topic-length :
    (ts : List TopicPacket) (name : Text) → length (clear_topic ts name).0 ≡ length ts
unfolding clear_topic
clear_topic-length [] name = refl
clear_topic-length (t ∷ ts) name = ground (arith, clear_topic-length ts name)

clear_topic-TopicOk :
    (k : ℕ) (ts : List TopicPacket) (name : Text)
    → All (TopicOk k) ts
    → All (TopicOk k) (clear_topic ts name).0
unfolding clear_topic
clear_topic-TopicOk k [] name h = tt
clear_topic-TopicOk k (t ∷ ts) name h = elim (Bool-cases (text_eq t.topic name)) [
  | inl hit ↦ rw hit h
  | inr miss ↦ rw miss (h.0, clear_topic-TopicOk k ts name h.1)
]

cleared-ClientOk :
    (c : Client) (name : Text)
    → ClientOk c
    → ClientOk (record c { topics = (clear_topic c.topics name).0 })
cleared-ClientOk c name okay = record {
  flag = okay.flag;
  room = omega (arith, clear_topic-length c.topics name, okay.room);
  some_room = okay.some_room;
  topics_ok = clear_topic-TopicOk c.connected c.topics name okay.topics_ok;
}

unsubscribe_clients-ClientOk :
    (cs : List Client) (name : Text) (socket : ℕ)
    → All ClientOk cs
    → All ClientOk (unsubscribe_clients cs name socket)
unfolding unsubscribe_clients
unsubscribe_clients-ClientOk [] name socket okay = tt
unsubscribe_clients-ClientOk (c ∷ cs) name socket okay = elim (Bool-cases (c.socket == socket)) [
  | inr miss ↦ rw miss (okay.0, unsubscribe_clients-ClientOk cs name socket okay.1)
  | inl hit ↦ elim (Bool-cases (clear_topic c.topics name).1) [
    | inl done ↦ rw (hit, done) (cleared-ClientOk c name okay.0, okay.1)
    | inr absent ↦ rw (hit, absent) (okay.0, unsubscribe_clients-ClientOk cs name socket okay.1)
  ]
]

unsubscribe_clients-length :
    (cs : List Client) (name : Text) (socket : ℕ)
    → length (unsubscribe_clients cs name socket) ≡ length cs
unfolding unsubscribe_clients
unsubscribe_clients-length [] name socket = refl
unsubscribe_clients-length (c ∷ cs) name socket =
    ground (arith, unsubscribe_clients-length cs name socket)

-- An unsubscription keeps the invariant.
pub unsubscribe-WellFormed :
    (s : Subscribers) (name : Text) (socket : ℕ)
    → WellFormed s
    → WellFormed (unsubscribe s name socket)
unfolding unsubscribe
unsubscribe-WellFormed s name socket wf = record {
  room = omega (arith, unsubscribe_clients-length s.clients name socket, wf.room);
  some_room = wf.some_room;
  clients_ok = unsubscribe_clients-ClientOk s.clients name socket wf.clients_ok;
}

reset_topics-length : (ts : List TopicPacket) → length (reset_topics ts) ≡ length ts
unfolding reset_topics
reset_topics-length [] = refl
reset_topics-length (t ∷ ts) = omega (arith, reset_topics-length ts)

-- After the reset every topic that keeps packets has room, whatever it held before.
reset_topics-TopicOk :
    (k : ℕ) (ts : List TopicPacket) → All (TopicOk k) ts → All (TopicOk 0) (reset_topics ts)
unfolding reset_topics
reset_topics-TopicOk k [] okay = tt
reset_topics-TopicOk k (t ∷ ts) okay = (ground arith, reset_topics-TopicOk k ts okay.1)

disconnect_clients-ClientOk :
    (cs : List Client) (socket : ℕ) → All ClientOk cs → All ClientOk (disconnect_clients cs socket)
unfolding disconnect_clients
disconnect_clients-ClientOk [] socket okay = tt
disconnect_clients-ClientOk (c ∷ cs) socket okay = elim (Bool-cases (c.socket == socket)) [
  | inr miss ↦ rw miss (okay.0, disconnect_clients-ClientOk cs socket okay.1)
  | inl hit ↦ rw hit (
    record {
      flag = inl refl;
      room = omega (arith, reset_topics-length c.topics, okay.0);
      some_room = omega (arith, okay.0);
      topics_ok = reset_topics-TopicOk c.connected c.topics okay.0.topics_ok;
    },
    okay.1,
  )
]

disconnect_clients-length :
    (cs : List Client) (socket : ℕ) → length (disconnect_clients cs socket) ≡ length cs
unfolding disconnect_clients
disconnect_clients-length [] socket = refl
disconnect_clients-length (c ∷ cs) socket = ground (arith, disconnect_clients-length cs socket)

-- A disconnection keeps the invariant.
pub disconnect_subscriber-WellFormed :
    (s : Subscribers) (socket : ℕ) → WellFormed s → WellFormed (disconnect_subscriber s socket).0
unfolding disconnect_subscriber
disconnect_subscriber-WellFormed s socket wf = record {
  room = omega (arith, disconnect_clients-length s.clients socket, wf.room);
  some_room = wf.some_room;
  clients_ok = disconnect_clients-ClientOk s.clients socket wf.clients_ok;
}

empty_topics-length : (ts : List TopicPacket) → length (empty_topics ts) ≡ length ts
unfolding empty_topics
empty_topics-length [] = refl
empty_topics-length (t ∷ ts) = omega (arith, empty_topics-length ts)

empty_topics-TopicOk : (ts : List TopicPacket) → All (TopicOk 1) (empty_topics ts)
unfolding empty_topics
empty_topics-TopicOk [] = tt
empty_topics-TopicOk (t ∷ ts) = (omega arith, empty_topics-TopicOk ts)

-- The client that `reconnect_an_old_client` leaves is well formed.
pub reconnected-ClientOk :
    (c : Client) (socket : ℕ)
    → ClientOk c
    → ClientOk (record c { socket = socket; connected = 1; topics = empty_topics c.topics })
reconnected-ClientOk c socket okay = record {
  flag = inr refl;
  room = omega (arith, empty_topics-length c.topics, okay.room);
  some_room = okay.some_room;
  topics_ok = empty_topics-TopicOk c.topics;
}
