-- ===== src/Broker/Publish.antt =====
-- `send_tcp`, against a description with no loop that stops: what each client receives.
use pc_communication_protoco.Prelude.{
  ℕ, ◌≡◌, refl, inl, inr, Bool, true, false, List, [], ◌∷◌, ◌++◌, map, arith, Text, text_eq, ◌==◌,
  ◌&&◌, ◌||◌, if◌then◌else◌, Bool-cases, length, length-append, All, ok,
}
use mathlib.Core.Path.{subst}
use pc_communication_protoco.Broker.Types.{TcpPacket, TopicPacket, Client, Subscribers, Output}
use pc_communication_protoco.Broker.Registry.{grow}
use pc_communication_protoco.Broker.Delivery.{
  send_both, store_packet, send_topics, send_clients, send_tcp,
}
use pc_communication_protoco.Broker.WellFormed.{TopicOk, ClientOk, WellFormed, push-grow, le-grow}

abbrev pub subscribed : Text → List TopicPacket → Bool
subscribed name [] = false
subscribed name (t ∷ ts) = text_eq t.topic name || subscribed name ts

abbrev pub with_packet : ℕ → TopicPacket → TopicPacket
with_packet p t = record t {
  tcps = t.tcps ++ p ∷ [];
  tcp_capacity = grow (length t.tcps) t.tcp_capacity;
}

-- The packet goes to the first topic of that name that keeps packets.
abbrev pub store_first : Text → ℕ → List TopicPacket → List TopicPacket
store_first name p [] = []
store_first name p (t ∷ ts) =
    if text_eq t.topic name && (t.sf == 1) then with_packet p t ∷ ts else t ∷ store_first name p ts

abbrev pub received : ℕ → TcpPacket → Client → Client
received p pkt c = record c {
  topics = if c.connected == 1 then c.topics else store_first pkt.topic p c.topics;
}

abbrev pub sent : (Text → ℕ) → TcpPacket → Client → List Output
sent atoi pkt c =
    if (c.connected == 1) && subscribed pkt.topic c.topics then send_both atoi c.socket pkt else []

abbrev pub all_sent : (Text → ℕ) → TcpPacket → List Client → List Output
all_sent atoi pkt [] = []
all_sent atoi pkt (c ∷ cs) = sent atoi pkt c ++ all_sent atoi pkt cs

pub store_packet-ok :
    (t : TopicPacket) (p : ℕ) → TopicOk 0 t → t.sf ≡ 1 → store_packet t p ≡ ok (with_packet p t)
unfolding store_packet
store_packet-ok t p okay keeps = rw (push-grow t.tcp_capacity t.tcps p okay.0 (okay.1 refl keeps))

module _ (atoi : Text → ℕ) (c : Client) (p : ℕ) (pkt : TcpPacket) where
  -- However often a connected client subscribed, it gets one copy.
  pub send_topics-connected :
      (ts : List TopicPacket)
      → c.connected ≡ 1
      → send_topics atoi c p pkt ts
        ≡ ok (ts, if subscribed pkt.topic ts then send_both atoi c.socket pkt else [])
  unfolding send_topics
  send_topics-connected [] on = refl
  send_topics-connected (t ∷ ts) on = elim (Bool-cases (text_eq t.topic pkt.topic)) [
    | inl hit ↦ rw (hit, on)
    | inr miss ↦ rw (miss, send_topics-connected ts on)
  ]

  pub send_topics-disconnected :
      (ts : List TopicPacket)
      → c.connected ≡ 0
      → All (TopicOk 0) ts
      → send_topics atoi c p pkt ts ≡ ok (store_first pkt.topic p ts, [])
  unfolding send_topics
  send_topics-disconnected [] off okay = refl
  send_topics-disconnected (t ∷ ts) off okay = elim (Bool-cases (text_eq t.topic pkt.topic)) [
    | inr miss ↦ rw (miss, send_topics-disconnected ts off okay.1)
    | inl hit ↦ elim (Bool-cases (t.sf == 1)) [
      | inl keeps ↦ rw (hit, off, keeps, store_packet-ok t p okay.0 (ground arith))
      | inr loses ↦ rw (hit, off, loses, send_topics-disconnected ts off okay.1)
    ]
  ]

module _ (atoi : Text → ℕ) (p : ℕ) (pkt : TcpPacket) where
  send_topics-received :
      (c : Client)
      → ClientOk c
      → send_topics atoi c p pkt c.topics ≡ ok ((received p pkt c).topics, sent atoi pkt c)
  send_topics-received c okay = elim okay.flag [
    | inl off ↦
        (let kept = subst (λ k. All (TopicOk k) c.topics) off okay.topics_ok in
          ground (arith, send_topics-disconnected atoi c p pkt c.topics off kept))
    | inr on ↦ ground (arith, send_topics-connected atoi c p pkt c.topics on)
  ]

  pub send_clients-received :
      (cs : List Client)
      → All ClientOk cs
      → send_clients atoi p pkt cs ≡ ok (map (received p pkt) cs, all_sent atoi pkt cs)
  unfolding send_clients
  send_clients-received [] okay = refl
  send_clients-received (c ∷ cs) okay =
      rw (send_topics-received c okay.0, send_clients-received cs okay.1)

  -- On well-formed subscribers `send_tcp` never writes outside an array and gives each client what
  -- an independent description says: a connected client with the topic is sent the packet once, a
  -- disconnected one keeps its address in its first entry of the topic with `sf == 1`, and all
  -- others are as they were.
  pub send_tcp-received :
      (s : Subscribers)
      → WellFormed s
      → send_tcp atoi s p pkt
        ≡ ok (record s { clients = map (received p pkt) s.clients }, all_sent atoi pkt s.clients)
  unfolding send_tcp
  send_tcp-received s wf = rw (send_clients-received s.clients wf.clients_ok)

module _ (p : ℕ) (pkt : TcpPacket) where
  with_packet-TopicOk :
      (k : ℕ) (t : TopicPacket) → k ≡ 0 → t.sf ≡ 1 → TopicOk k t → TopicOk k (with_packet p t)
  with_packet-TopicOk k t off keeps okay = omega (
    arith,
    length-append t.tcps (p ∷ []),
    le-grow t.tcp_capacity (length t.tcps) okay.0 (okay.1 off keeps),
  )

  store_first-TopicOk :
      (k : ℕ) (ts : List TopicPacket)
      → k ≡ 0
      → All (TopicOk k) ts
      → All (TopicOk k) (store_first pkt.topic p ts)
  store_first-TopicOk k [] off okay = tt
  store_first-TopicOk k (t ∷ ts) off okay = elim (Bool-cases (text_eq t.topic pkt.topic)) [
    | inr miss ↦ rw miss (okay.0, store_first-TopicOk k ts off okay.1)
    | inl hit ↦ elim (Bool-cases (t.sf == 1)) [
      | inl keeps ↦ rw (hit, keeps) (with_packet-TopicOk k t off (ground arith) okay.0, okay.1)
      | inr loses ↦ rw (hit, loses) (okay.0, store_first-TopicOk k ts off okay.1)
    ]
  ]

  store_first-length : (ts : List TopicPacket) → length (store_first pkt.topic p ts) ≡ length ts
  store_first-length [] = refl
  store_first-length (t ∷ ts) = ground (arith, store_first-length ts)

  pub received-ClientOk : (c : Client) → ClientOk c → ClientOk (received p pkt c)
  received-ClientOk c okay = elim okay.flag [
    | inl off ↦ record {
      flag = okay.flag;
      room = ground (arith, store_first-length c.topics, okay.room);
      some_room = okay.some_room;
      topics_ok = rw (off_test off) (store_first-TopicOk c.connected c.topics off okay.topics_ok);
    }
    | inr on ↦ record {
      flag = okay.flag;
      room = ground (arith, okay.room);
      some_room = okay.some_room;
      topics_ok = rw (on_test on) okay.topics_ok;
    }
  ]
    where
      off_test : c.connected ≡ 0 → (c.connected == 1) ≡ false
      off_test off = ground arith

      on_test : c.connected ≡ 1 → (c.connected == 1) ≡ true
      on_test on = ground arith

  received-All-ClientOk :
      (cs : List Client) → All ClientOk cs → All ClientOk (map (received p pkt) cs)
  received-All-ClientOk [] okay = tt
  received-All-ClientOk (c ∷ cs) okay =
      (received-ClientOk c okay.0, received-All-ClientOk cs okay.1)

  received-length : (cs : List Client) → length (map (received p pkt) cs) ≡ length cs
  received-length [] = refl
  received-length (c ∷ cs) = omega (arith, received-length cs)

  pub received-WellFormed :
      (s : Subscribers)
      → WellFormed s
      → WellFormed (record s { clients = map (received p pkt) s.clients })
  received-WellFormed s wf = record {
    room = omega (arith, received-length s.clients, wf.room);
    some_room = wf.some_room;
    clients_ok = received-All-ClientOk s.clients wf.clients_ok;
  }
