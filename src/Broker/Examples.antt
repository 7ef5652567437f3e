-- ===== src/Broker/Examples.antt =====
-- The broker's theorems at small inputs.
use pc_communication_protoco.Prelude.{
  ℕ, text_eq, ◌<◌, ◌≡◌, ◌≢◌, ◌↔◌, ◌⊎◌, refl, inl, inr, true, false, none, some, List, [], ◌∷◌, ◌++◌,
  map, arith, Text, ◌==◌, if◌then◌else◌, ok, died, fault, Ends, codes, c_str, decimal, atoi,
}
use pc_communication_protoco.Broker.Types.{
  TcpPacket, unset, TopicPacket, Client, Subscribers, Action, UdpPacket, Heap, Output,
}
use pc_communication_protoco.Broker.Registry.{
  get_client, new_subscriber, new_topic, subscribe_clients, clear_topic,
}
use pc_communication_protoco.Broker.Delivery.{
  send_both, send_topics, send_clients, send_tcp, disconnect_clients, reconnect_an_old_client,
}
use pc_communication_protoco.Broker.WellFormed.{ClientOk, WellFormed}
use pc_communication_protoco.Broker.Publish.{received, all_sent, send_tcp-received}
use pc_communication_protoco.Broker.Session.{publish}
use pc_communication_protoco.Broker.StoreForward.{Resent, store-forward}
use pc_communication_protoco.Broker.StoreForward.Shared.{shared-packet-fault}
use pc_communication_protoco.Broker.Topics.{stale-socket-fault, unsubscribed-delivery}
use pc_communication_protoco.Broker.Convert.{udp_to_tcp}
use pc_communication_protoco.Broker.Convert.Laws.{udp_to_tcp-died_iff}
use pc_communication_protoco.Broker.Server.{Env, Server, on_ident, start, handle, serve}
use pc_communication_protoco.Broker.Server.Received.{hangup}
use pc_communication_protoco.Broker.Server.Watch.{Covers}
use pc_communication_protoco.Broker.Server.Loop.{serve-start-Covers}
use pc_communication_protoco.Broker.Server.Sessions.{on_ident-new}
use pc_communication_protoco.Broker.Server.Invariant.{handle-WellFormed}

abbrev no_float : ℕ → ℕ → ℕ → Text
no_float sign n e = []

abbrev news : TcpPacket
news = record {
  size = codes "93";
  ip = codes "10.0.0.1";
  port = 5000;
  type = codes "INT";
  topic = codes "news";
  payload = codes "123";
}

abbrev heap : Heap
heap p = if p == 64 then some news else none

abbrev kept_topic : TopicPacket
kept_topic = record { sf = 1; topic = codes "news"; tcps = []; tcp_capacity = 0; storage = unset }

abbrev ann : Client
ann = record {
  id = codes "ann";
  connected = 1;
  socket = 5;
  topic_capacity = 20;
  topics = kept_topic ∷ [];
}

abbrev bob : Client
bob = record { id = codes "bob"; connected = 1; socket = 6; topic_capacity = 20; topics = [] }

ann-ClientOk : ClientOk ann
ann-ClientOk = record {
  flag = inr refl;
  room = omega arith;
  some_room = omega arith;
  topics_ok = ((omega arith, λ off _. absurd (omega arith)), tt);
}

bob-ClientOk : ClientOk bob
bob-ClientOk = record {
  flag = inr refl;
  room = omega arith;
  some_room = omega arith;
  topics_ok = tt;
}

abbrev both : Subscribers
both = record { capacity = 10; clients = bob ∷ ann ∷ [] }

both-WellFormed : WellFormed both
both-WellFormed = record {
  room = omega arith;
  some_room = omega arith;
  clients_ok = (bob-ClientOk, (ann-ClientOk, tt));
}

store-forward_example :
    (front' rest' : List Client) × (away : Client) × (publish atoi
        ((64, news) ∷ [])
        (disconnect_clients ((bob ∷ []) ++ ann ∷ []) 5)
      ≡ ok (front' ++ away ∷ rest'))
    × Resent atoi heap ((64, news) ∷ []) 9 away
unfolding text_eq
store-forward_example =
    store-forward atoi heap (bob ∷ []) [] ann kept_topic ((64, news) ∷ []) 9 refl refl
      (bob-ClientOk, tt) ann-ClientOk tt ((λ e. omega arith), tt) (refl, tt) (tt, tt)

-- A second client with the same subscription.
abbrev joe : Client
joe = record ann { id = codes "joe"; socket = 6 }

joe-ClientOk : ClientOk joe
joe-ClientOk = record {
  flag = inr refl;
  room = omega arith;
  some_room = omega arith;
  topics_ok = ((omega arith, λ off _. absurd (omega arith)), tt);
}

shared-packet-fault_example :
    (a' b' a'' : Client) × (heap' : Heap) × (out : List Output) × (send_clients atoi 64 news
        (disconnect_clients (disconnect_clients (ann ∷ joe ∷ []) 5) 6)
      ≡ ok (a' ∷ b' ∷ [], []))
    × (reconnect_an_old_client atoi heap a' 9 ≡ ok (a'', heap', out))
    × (reconnect_an_old_client atoi heap' b' 10 ≡ fault)
shared-packet-fault_example =
    shared-packet-fault atoi heap ann joe kept_topic kept_topic 64 news 9 10 ann-ClientOk
      joe-ClientOk refl refl refl refl (λ e. omega arith) refl refl refl

send_tcp-received_example :
    send_tcp atoi both 64 news
    ≡ ok (
      record both { clients = map (received 64 news) (bob ∷ ann ∷ []) },
      all_sent atoi news (bob ∷ ann ∷ []),
    )
send_tcp-received_example = send_tcp-received atoi 64 news both both-WellFormed

abbrev quiet : Env
quiet = record {
  accepted = none;
  ident = none;
  datagram = none;
  line = codes "exit\n";
  received = hangup;
  fresh = 80;
}

abbrev server : Server
server = record {
  subscribers = both;
  heap = heap;
  read_fds = λ i. if i == 5 then true else i == 6;
  fdmax = 6;
  stop = false;
  output = [];
}

handle-WellFormed_example :
    Ends (λ s'. WellFormed s'.subscribers) (handle no_float 3 4 quiet 5 server)
handle-WellFormed_example =
    handle-WellFormed no_float 3 4 quiet 5 server both-WellFormed ((λ _. refl), ((λ _. refl), tt))

abbrev left : Client
left = record { id = codes "old"; connected = 0; socket = 6; topic_capacity = 20; topics = [] }

left-ClientOk : ClientOk left
left-ClientOk = record {
  flag = inl refl;
  room = omega arith;
  some_room = omega arith;
  topics_ok = tt;
}

abbrev subscribe : Action
subscribe = record { type = codes "subscribe"; topic = codes "news"; sf = 1 }

stale-socket-fault_example :
    (c' : Client) × (subscribe_clients (left ∷ bob ∷ []) subscribe 6 ≡ ok (c' ∷ bob ∷ []))
    × (c'.topics ≡ new_topic subscribe ∷ [])
    × (send_clients atoi 64 news (c' ∷ bob ∷ []) ≡ fault)
stale-socket-fault_example =
    stale-socket-fault atoi left bob [] subscribe 64 news left-ClientOk refl refl refl refl refl

unsubscribed-delivery_example :
    (news.topic ≡ codes "news"
      → send_topics atoi ann 64 news (clear_topic (kept_topic ∷ []) (codes "news")).0
        ≡ ok ((clear_topic (kept_topic ∷ []) (codes "news")).0, []))
    × (news.topic ≡ []
        → send_topics atoi ann 64 news (clear_topic (kept_topic ∷ []) (codes "news")).0
          ≡ ok ((clear_topic (kept_topic ∷ []) (codes "news")).0, send_both atoi 5 news))
unfolding text_eq
unsubscribed-delivery_example =
    unsubscribed-delivery atoi ann 64 news (kept_topic ∷ []) (codes "news") refl (λ e. ground arith)
      refl

abbrev datagram : UdpPacket
datagram = record { topic = codes "news"; type = 0; payload = 1 ∷ 0 ∷ 0 ∷ 0 ∷ 7 ∷ [] }

udp_to_tcp-died_iff_example :
    (udp_to_tcp no_float datagram (codes "10.0.0.1") 5000 ≡ died)
    ↔ ((3 < datagram.type) ⊎ (((datagram.type ≡ 0) ⊎ (datagram.type ≡ 2)) × (1 < 1) × (1 < 128)))
udp_to_tcp-died_iff_example = udp_to_tcp-died_iff no_float datagram (codes "10.0.0.1") 5000

abbrev converted : TcpPacket
converted = record {
  size = decimal 92;
  ip = codes "10.0.0.1";
  port = 5000;
  type = codes "INT";
  topic = codes "news";
  payload = codes "-7";
}

datagram-converted : udp_to_tcp no_float datagram (codes "10.0.0.1") 5000 ≡ ok converted
unfolding udp_to_tcp decimal c_str
datagram-converted = refl

unknown_eve : get_client both (codes "eve") ≡ none
unfolding get_client text_eq
unknown_eve = refl

known_ann : get_client both (codes "ann") ≡ some ann
unfolding get_client text_eq
known_ann = refl

on_ident-new_example :
    (s' : Server) × (on_ident (codes "eve") 7 server ≡ ok s')
    × WellFormed s'.subscribers
    × (get_client s'.subscribers (codes "eve") ≡ some (new_subscriber (codes "eve") 7))
    × ((id : Text)
        → codes "eve" ≢ id
        → get_client s'.subscribers id ≡ get_client server.subscribers id)
on_ident-new_example = on_ident-new server (codes "eve") 7 both-WellFormed (omega arith) unknown_eve

serve-start-Covers_example :
    Ends
      (Covers 4)
      (serve no_float 3 4 ((some (λ i. i == 0), λ i. quiet) ∷ []) (start no_float 3 4))
serve-start-Covers_example = serve-start-Covers no_float 3 4 ((some (λ i. i == 0), λ i. quiet) ∷ [])
