-- ===== src/Broker/StoreForward/Shared.antt =====
-- What the pointers that disconnected clients keep mean for `reconnect_an_old_client` and
-- `free_memory`.
use pc_communication_protoco.Prelude.{
  ℕ, ◌≡◌, ◌≢◌, refl, ap, ◌∙◌, inl, some, none, List, [], ◌∷◌, arith, Text, text_eq, ◌==◌, length,
  ok, fault, true, text_eq_refl,
}
use pc_communication_protoco.Broker.Types.{
  TcpPacket, Storage, allocated, TopicPacket, Client, Heap, Output,
}
use pc_communication_protoco.Broker.Delivery.{
  send_clients, free_all, free_storage, after_free, free_clients, disconnect_clients, reset_topics,
  resend, resend_topics, free_topics, emptied, reconnect_an_old_client,
}
use pc_communication_protoco.Broker.WellFormed.{ClientOk}
use pc_communication_protoco.Broker.Publish.{received, with_packet, send_clients-received}
use pc_communication_protoco.Broker.Session.{Sent, pointers, Held, Distinct, copies, waiting}
use pc_communication_protoco.Broker.StoreForward.{reconnect-copies, disconnect-split, fresh_topic}

received-waiting :
    (c : Client) (t : TopicPacket) (p : ℕ) (pkt : TcpPacket)
    → t.topic ≡ pkt.topic
    → t.sf ≡ 1
    → received p pkt (waiting c t) ≡ waiting c (with_packet p t)
received-waiting c t p pkt name keeps = rw (same, keeps_test)
  where
    same : text_eq t.topic pkt.topic ≡ true
    same = rw name (text_eq_refl pkt.topic)

    keeps_test : (t.sf == 1) ≡ true
    keeps_test = ground arith

reconnect-freed :
    (atoi : Text → ℕ) (heap : Heap) (c : Client) (t : TopicPacket) (p socket : ℕ)
    → heap p ≡ none
    → t.tcps ≡ p ∷ []
    → reconnect_an_old_client atoi heap (waiting c t) socket ≡ fault
unfolding reconnect_an_old_client resend_topics resend
reconnect-freed atoi heap c t p socket gone e = rw (e, gone)

-- The clients that are both away, each with a fresh array.
both-away :
    (a b : Client) (ta tb : TopicPacket)
    → a.topics ≡ ta ∷ []
    → b.topics ≡ tb ∷ []
    → ta.sf ≡ 1
    → tb.sf ≡ 1
    → a.socket ≢ b.socket
    → disconnect_clients (disconnect_clients (a ∷ b ∷ []) a.socket) b.socket
      ≡ waiting a (fresh_topic ta) ∷ waiting b (fresh_topic tb) ∷ []
unfolding reset_topics
both-away a b ta tb one_a one_b keeps_a keeps_b apart =
    let test_a : (ta.sf == 1) ≡ true = ground arith in
    let test_b : (tb.sf == 1) ≡ true = ground arith in
    let gone_a : record a { connected = 0; topics = reset_topics a.topics }
        ≡ waiting a (fresh_topic ta) =
      rw (one_a, test_a) in
    let gone_b : record b { connected = 0; topics = reset_topics b.topics }
        ≡ waiting b (fresh_topic tb) =
      rw (one_b, test_b) in
    ap (λ (cs : List Client). disconnect_clients cs b.socket)
      (disconnect-split [] (b ∷ []) a tt ∙ ap (λ (c : Client). c ∷ b ∷ []) gone_a)
    ∙ disconnect-split (waiting a (fresh_topic ta) ∷ []) [] b (apart, tt)
    ∙ ap (λ (c : Client). waiting a (fresh_topic ta) ∷ c ∷ []) gone_b

waiting-ClientOk :
    (c : Client) (t : TopicPacket)
    → ClientOk c
    → c.topics ≡ t ∷ []
    → ClientOk (waiting c (fresh_topic t))
waiting-ClientOk c t okay one = record {
  flag = inl refl;
  room = omega (arith, okay.room, ap (λ (l : List TopicPacket). length l) one);
  some_room = okay.some_room;
  topics_ok = ((omega arith, λ _ _. omega arith), tt);
}

-- Two well-formed clients with different sockets, each with one subscription with `sf == 1` to the
-- topic of a live packet, disconnect, and the server sends the packet: it goes to neither, and each
-- keeps its address. The first of them to reconnect succeeds and frees the packet; the reconnection
-- of the other then reads freed memory.
pub shared-packet-fault :
    (atoi : Text → ℕ) (heap : Heap) (a b : Client) (ta tb : TopicPacket) (p : ℕ) (pkt : TcpPacket)
    (sa sb : ℕ)
    → ClientOk a
    → ClientOk b
    → a.topics ≡ ta ∷ []
    → b.topics ≡ tb ∷ []
    → ta.sf ≡ 1
    → tb.sf ≡ 1
    → a.socket ≢ b.socket
    → heap p ≡ some pkt
    → ta.topic ≡ pkt.topic
    → tb.topic ≡ pkt.topic
    → (a' b' a'' : Client) × (heap' : Heap) × (out : List Output) × (send_clients atoi p pkt
          (disconnect_clients (disconnect_clients (a ∷ b ∷ []) a.socket) b.socket)
        ≡ ok (a' ∷ b' ∷ [], []))
      × (reconnect_an_old_client atoi heap a' sa ≡ ok (a'', heap', out))
      × (reconnect_an_old_client atoi heap' b' sb ≡ fault)
shared-packet-fault atoi heap a b ta tb p pkt sa sb ok_a ok_b one_a one_b keeps_a keeps_b apart live
      name_a name_b =
    let kept_a = with_packet p (fresh_topic ta) in
    let kept_b = with_packet p (fresh_topic tb) in
    let (heap', back, freed) =
      reconnect-copies atoi heap a kept_a ((p, pkt) ∷ []) sa refl refl (live, tt) (tt, tt) in
    let stored =
      send_clients-received atoi p pkt
        (waiting a (fresh_topic ta) ∷ waiting b (fresh_topic tb) ∷ [])
        (waiting-ClientOk a ta ok_a one_a, (waiting-ClientOk b tb ok_b one_b, tt)) in
    (
      waiting a kept_a,
      waiting b kept_b,
      record a { socket = sa; connected = 1; topics = emptied kept_a ∷ [] },
      heap',
      copies atoi sa ((p, pkt) ∷ []),
      ap (send_clients atoi p pkt) (both-away a b ta tb one_a one_b keeps_a keeps_b apart)
          ∙ stored
          ∙ ap (λ (cs : Client × Client). ok (cs.0 ∷ cs.1 ∷ [], []))
              (rw
                (
                  received-waiting a (fresh_topic ta) p pkt name_a keeps_a,
                  received-waiting b (fresh_topic tb) p pkt name_b keeps_b,
                )
                refl),
      back,
      reconnect-freed atoi heap' b kept_b p sb (ground (arith, freed p)) refl,
    )

-- A client that was resent its packets keeps the pointer to the array that was freed, which
-- `free_memory` frees again.
reconnect-free_memory :
    (atoi : Text → ℕ) (heap : Heap) (c : Client) (t : TopicPacket) (xs : List Sent) (socket : ℕ)
    (rest : List Client)
    → t.tcps ≡ pointers xs
    → t.storage ≡ allocated
    → Held heap xs
    → Distinct xs
    → (c' : Client) × (heap' : Heap) × (out : List Output) × (reconnect_an_old_client atoi heap
          (waiting c t)
          socket
        ≡ ok (c', heap', out))
      × (free_clients heap' (c' ∷ rest) ≡ fault)
unfolding free_clients free_topics free_all free_storage
reconnect-free_memory atoi heap c t xs socket rest e array held apart =
    let (heap', back, freed) = reconnect-copies atoi heap c t xs socket e array held apart in
    (
      record c { socket = socket; connected = 1; topics = emptied t ∷ [] },
      heap',
      copies atoi socket xs,
      back,
      ap
          (λ (st : Storage). free_clients heap' (
            record c {
              socket = socket;
              connected = 1;
              topics = record t { tcps = []; tcp_capacity = 0; storage = after_free st } ∷ [];
            }
            ∷ rest))
          array,
    )
