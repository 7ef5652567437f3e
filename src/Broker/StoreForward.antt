-- ===== src/Broker/StoreForward.antt =====
-- The life of a subscription across a disconnection, from `disconnect_subscriber` over the
-- publications that it misses to `reconnect_an_old_client`.
pub mod Shared
use mathlib.Core.List.{map-append}
use pc_communication_protoco.Prelude.{
  ℕ, ◌≡◌, ◌≢◌, refl, ap, ◌∙◌, inl, some, none, List, [], ◌∷◌, ◌++◌, map, append-nil, arith, Text,
  text_eq, ◌==◌, length, All, All-append, ok, fault, true, text_eq_refl,
}
use pc_communication_protoco.Broker.Types.{
  TcpPacket, Storage, allocated, TopicPacket, Client, Heap, Output,
}
use pc_communication_protoco.Broker.Delivery.{
  send_clients, free_all, free_storage, after_free, free_clients, disconnect_clients, reset_topics,
  resend, resend_topics, free_topics, empty_topics, emptied, reconnect_an_old_client,
}
use pc_communication_protoco.Broker.WellFormed.{ClientOk}
use pc_communication_protoco.Broker.Publish.{received, with_packet, send_clients-received}
use pc_communication_protoco.Broker.Session.{
  Sent, pointers, Held, Distinct, copies, Freed, resend-copies, free_all-Freed, publish, published,
  publish-published, matching, waiting, with_pending, published-waiting,
}

-- Reconnecting a client whose only topic holds these packets.
pub reconnect-copies :
    (atoi : Text → ℕ) (heap : Heap) (c : Client) (t : TopicPacket) (xs : List Sent) (socket : ℕ)
    → t.tcps ≡ pointers xs
    → t.storage ≡ allocated
    → Held heap xs
    → Distinct xs
    → (heap' : Heap) × (reconnect_an_old_client atoi heap (waiting c t) socket
        ≡ ok (
          record c { socket = socket; connected = 1; topics = emptied t ∷ [] },
          heap',
          copies atoi socket xs,
        ))
      × Freed xs heap heap'
unfolding reconnect_an_old_client resend_topics free_topics empty_topics
reconnect-copies atoi heap c t xs socket e array held apart =
    let (heap', freed_ok, freed) = free_all-Freed heap xs held apart in
    (
      heap',
      rw (
        e,
        array,
        resend-copies atoi socket heap xs held,
        freed_ok,
        append-nil (copies atoi socket xs),
      ),
      freed,
    )

-- `disconnect_subscriber` finds the first client with the socket, and no other.
disconnect-split :
    (front rest : List Client) (c : Client)
    → All (λ d. d.socket ≢ c.socket) front
    → disconnect_clients (front ++ c ∷ rest) c.socket
      ≡ front ++ record c { connected = 0; topics = reset_topics c.topics } ∷ rest
unfolding disconnect_clients
disconnect-split [] rest c out = ground arith
disconnect-split (d ∷ front) rest c out = ground (arith, disconnect-split front rest c out.1)

All-split {ℓ} :
    {A : Type ℓ} (P : A → Type 0) (xs ys : List A) → All P (xs ++ ys) → All P xs × All P ys
All-split P [] ys h = (tt, h)
All-split P (x ∷ xs) ys h = let (hx, hy) = All-split P xs ys h.1 in ((h.0, hx), hy)

abbrev fresh_topic : TopicPacket → TopicPacket
fresh_topic t = record t { tcps = []; tcp_capacity = 10; storage = allocated }

abbrev pub Resent : (Text → ℕ) → Heap → List Sent → ℕ → Client → Type 0
Resent atoi heap xs socket c =
    (c' : Client) × (heap' : Heap) × (reconnect_an_old_client atoi heap c socket
      ≡ ok (c', heap', copies atoi socket xs))
    × (c'.connected ≡ 1)
    × (c'.socket ≡ socket)
    × Freed xs heap heap'

Resent-published :
    (atoi : Text → ℕ) (heap : Heap) (c : Client) (t : TopicPacket) (xs : List Sent) (socket : ℕ)
    → t.sf ≡ 1
    → Held heap (matching t.topic xs)
    → Distinct (matching t.topic xs)
    → Resent atoi heap (matching t.topic xs) socket (published xs (waiting c (fresh_topic t)))
Resent-published atoi heap c t xs socket keeps held apart =
    let (capacity, e) = published-waiting c (fresh_topic t) xs keeps in
    let kept = with_pending (fresh_topic t) (pointers (matching t.topic xs)) capacity in
    let (heap', back, freed) =
      reconnect-copies atoi heap c kept (matching t.topic xs) socket refl refl held apart in
    (
      record c { socket = socket; connected = 1; topics = emptied kept ∷ [] },
      heap',
      rw e back,
      refl,
      refl,
      freed,
    )

module _ (atoi : Text → ℕ) (heap : Heap) (front rest : List Client) (c : Client) (t : TopicPacket)
    (xs : List Sent) (socket : ℕ) where
  -- A client with one subscription with `sf == 1`, the first of its list with its socket, in a
  -- well-formed list of clients, disconnects; the server publishes any packets; then the client
  -- reconnects on a new socket. The publications all succeed, and the reconnection succeeds, sends
  -- exactly the published packets of that topic, each once and in order, to the new socket, and
  -- frees exactly those. The packets of the topic are live and at distinct addresses.
  pub store-forward :
      c.topics ≡ t ∷ []
      → t.sf ≡ 1
      → All ClientOk front
      → ClientOk c
      → All ClientOk rest
      → All (λ d. d.socket ≢ c.socket) front
      → Held heap (matching t.topic xs)
      → Distinct (matching t.topic xs)
      → (front' rest' : List Client) × (away : Client) × (publish atoi xs
            (disconnect_clients (front ++ c ∷ rest) c.socket)
          ≡ ok (front' ++ away ∷ rest'))
        × Resent atoi heap (matching t.topic xs) socket away
  unfolding reset_topics
  store-forward one keeps front_ok c_ok rest_ok out held apart = (
    map (published xs) front,
    map (published xs) rest,
    published xs (waiting c (fresh_topic t)),
    rw (disconnect-split front rest c out, gone_waiting)
        (publish-published atoi xs _ all_ok
          ∙ ap (λ (l : List Client). ok l) (map-append (published xs) front _)),
    Resent-published atoi heap c t xs socket keeps held apart,
  )
    where
      keeps_test : (t.sf == 1) ≡ true
      keeps_test = ground arith

      gone_waiting :
          record c { connected = 0; topics = reset_topics c.topics } ≡ waiting c (fresh_topic t)
      gone_waiting = rw (one, keeps_test)

      all_ok : All ClientOk (front ++ waiting c (fresh_topic t) ∷ rest)
      all_ok = All-append ClientOk front _ front_ok (
        record {
          flag = inl refl;
          room = omega (arith, c_ok.room, ap (λ (l : List TopicPacket). length l) one);
          some_room = c_ok.some_room;
          topics_ok = ((omega arith, λ _ _. omega arith), tt);
        },
        rest_ok,
      )
