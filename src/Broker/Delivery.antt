-- ===== src/Broker/Delivery.antt =====
-- `send_tcp`, `disconnect_subscriber`, `reconnect_an_old_client` and `free_memory` of
-- `tcp & udp communication/helper.c`.
use pc_communication_protoco.Prelude.{
  ℕ, none, List, [], ◌∷◌, ◌++◌, Text, text_eq, ◌==◌, ◌&&◌, if◌then◌else◌, length, Run, ok, fault,
  ◌>>=◌, deref,
}
use pc_communication_protoco.Broker.Types.{
  TcpPacket, Storage, unset, allocated, released, TopicPacket, Client, Subscribers, Heap, write,
  Output, send_size, send_packet, close,
}
use pc_communication_protoco.Broker.Registry.{grow, push}

-- The two calls of `send` for a packet: ten bytes of its size, then that many of the packet.
unfoldable pub send_both : (Text → ℕ) → ℕ → TcpPacket → List Output
send_both atoi socket pkt = send_size socket pkt.size ∷ send_packet socket pkt (atoi pkt.size) ∷ []

-- `tcps[tcp_no++] = tcp_packet`, after doubling a full array.
unfoldable pub store_packet : TopicPacket → ℕ → Run TopicPacket
unfolding grow push
store_packet t p =
    let capacity = grow (length t.tcps) t.tcp_capacity in
    do tcps ← push capacity t.tcps p; ok (record t { tcps = tcps; tcp_capacity = capacity })

module _ (atoi : Text → ℕ) where
  -- The loop over one client's topics: it stops once the packet is stored or sent.
  unfoldable pub send_topics :
      Client → ℕ → TcpPacket → List TopicPacket → Run (List TopicPacket × List Output)
  unfolding store_packet send_both
  send_topics c p pkt [] = ok ([], [])
  send_topics c p pkt (t ∷ ts) =
      let rest = (do (ts', out) ← send_topics c p pkt ts; ok (t ∷ ts', out)) in
      if text_eq t.topic pkt.topic
      then (if (c.connected == 0) && (t.sf == 1)
          then (do t' ← store_packet t p; ok (t' ∷ ts, []))
          else if c.connected == 1
          then ok (t ∷ ts, send_both atoi c.socket pkt)
          else rest)
      else rest

  unfoldable pub send_clients : ℕ → TcpPacket → List Client → Run (List Client × List Output)
  unfolding send_topics
  send_clients p pkt [] = ok ([], [])
  send_clients p pkt (c ∷ cs) = do
    (topics, out) ← send_topics c p pkt c.topics
    (cs', outs) ← send_clients p pkt cs
    ok (record c { topics = topics } ∷ cs', out ++ outs)

  unfoldable pub send_tcp : Subscribers → ℕ → TcpPacket → Run (Subscribers × List Output)
  unfolding send_clients
  send_tcp subscribers p pkt = do
    (clients, out) ← send_clients p pkt subscribers.clients
    ok (record subscribers { clients = clients }, out)

-- A topic with `sf == 1` gets a fresh array of ten slots.
unfoldable pub reset_topics : List TopicPacket → List TopicPacket
reset_topics [] = []
reset_topics (t ∷ ts) =
    (if t.sf == 1 then record t { tcps = []; tcp_capacity = 10; storage = allocated } else t)
    ∷ reset_topics ts

unfoldable pub disconnect_clients : List Client → ℕ → List Client
unfolding reset_topics
disconnect_clients [] socket = []
disconnect_clients (c ∷ cs) socket =
    if c.socket == socket
    then record c { connected = 0; topics = reset_topics c.topics } ∷ cs
    else c ∷ disconnect_clients cs socket

unfoldable pub disconnect_subscriber : Subscribers → ℕ → Subscribers × List Output
unfolding disconnect_clients
disconnect_subscriber subscribers socket = (
  record subscribers { clients = disconnect_clients subscribers.clients socket },
  close socket ∷ [],
)

module _ (atoi : Text → ℕ) (newtcp_socket : ℕ) (heap : Heap) where
  -- The inner loop of the resend: each stored packet is read through its pointer.
  unfoldable pub resend : List ℕ → Run (List Output)
  unfolding send_both
  resend [] = ok []
  resend (p ∷ ps) = do
    pkt ← deref (heap p)
    out ← resend ps
    ok (send_both atoi newtcp_socket pkt ++ out)

  unfoldable pub resend_topics : List TopicPacket → Run (List Output)
  unfolding resend
  resend_topics [] = ok []
  resend_topics (t ∷ ts) = do out ← resend t.tcps; outs ← resend_topics ts; ok (out ++ outs)

-- `free` of each pointer; freeing what is not live is a `fault`.
unfoldable pub free_all : Heap → List ℕ → Run Heap
unfolding write
free_all heap [] = ok heap
free_all heap (p ∷ ps) = do _ ← deref (heap p); free_all (write heap p none) ps

-- `free` of the array, and what the pointer is worth behind it.
unfoldable pub free_storage : Storage → Run Storage
free_storage unset = ok unset
free_storage allocated = ok released
free_storage released = fault

unfoldable pub free_topics : Heap → List TopicPacket → Run Heap
unfolding free_all free_storage
free_topics heap [] = ok heap
free_topics heap (t ∷ ts) = do
  heap' ← free_all heap t.tcps
  _ ← free_storage t.storage
  free_topics heap' ts

abbrev pub after_free : Storage → Storage
after_free unset = unset
after_free allocated = released
after_free released = released

abbrev pub emptied : TopicPacket → TopicPacket
emptied t = record t { tcps = []; tcp_capacity = 0; storage = after_free t.storage }

unfoldable pub empty_topics : List TopicPacket → List TopicPacket
empty_topics [] = []
empty_topics (t ∷ ts) = emptied t ∷ empty_topics ts

unfoldable pub reconnect_an_old_client :
    (Text → ℕ) → Heap → Client → ℕ → Run (Client × Heap × List Output)
unfolding resend_topics free_topics empty_topics
reconnect_an_old_client atoi heap client newtcp_socket = do
  out ← resend_topics atoi newtcp_socket heap client.topics
  heap' ← free_topics heap client.topics
  ok (
    record client { socket = newtcp_socket; connected = 1; topics = empty_topics client.topics },
    heap',
    out,
  )

unfoldable pub free_clients : Heap → List Client → Run Heap
unfolding free_topics
free_clients heap [] = ok heap
free_clients heap (c ∷ cs) = do heap' ← free_topics heap c.topics; free_clients heap' cs

unfoldable pub free_memory : Heap → Subscribers → Run Heap
unfolding free_clients
free_memory heap subscribers = free_clients heap subscribers.clients
