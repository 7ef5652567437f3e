-- ===== src/Broker/WellFormed.antt =====
-- The invariant of `Subscribers`: every array has room for its elements, a flag is 0 or 1, and a
-- disconnected client's topics with `sf == 1` have an array to store into.
use pc_communication_protoco.Prelude.{
  ltb, false, fault, ℕ, suc, ◌≤◌, ◌<◌, ◌≡◌, refl, ◌⊎◌, inl, inr, List, [], ◌∷◌, ◌++◌, arith, Text,
  ◌==◌, Bool-cases, length, length-append, lt→ltb, All, All-append, ok,
}
use pc_communication_protoco.Broker.Types.{TopicPacket, Client, Subscribers, Action}
use pc_communication_protoco.Broker.Registry.{
  grow, push, add_new_client, create_subscribers, new_subscriber, new_topic, add_topic,
  subscribe_clients,
}

abbrev pub TopicOk : ℕ → TopicPacket → Type 0
TopicOk connected t =
    (length t.tcps ≤ t.tcp_capacity) × (connected ≡ 0 → t.sf ≡ 1 → 0 < t.tcp_capacity)

pub record ClientOk (c : Client) : Type 0 where
  pub flag : (c.connected ≡ 0) ⊎ (c.connected ≡ 1)
  pub room : length c.topics ≤ c.topic_capacity
  pub some_room : 0 < c.topic_capacity
  pub topics_ok : All (TopicOk c.connected) c.topics

pub record WellFormed (s : Subscribers) : Type 0 where
  pub room : length s.clients ≤ s.capacity
  pub some_room : 0 < s.capacity
  pub clients_ok : All ClientOk s.clients

-- A full array is doubled, so a push after `grow` has room.
pub push-grow {ℓ} :
    {A : Type ℓ} (capacity : ℕ) (xs : List A) (x : A)
    → length xs ≤ capacity
    → 0 < capacity
    → push (grow (length xs) capacity) xs x ≡ ok (xs ++ x ∷ [])
unfolding push grow
push-grow capacity xs x room pos = ground arith

pub le-grow : (capacity size : ℕ) → size ≤ capacity → 0 < capacity → suc size ≤ grow size capacity
unfolding grow
le-grow capacity size room pos = ground arith

pub create_subscribers-WellFormed : WellFormed create_subscribers
unfolding create_subscribers
create_subscribers-WellFormed = record {
  room = omega arith;
  some_room = omega arith;
  clients_ok = tt;
}

module _ (s : Subscribers) (buffer : Text) (socket : ℕ) (wf : WellFormed s) where
  -- What `add_new_client` makes of the array.
  abbrev pub with_client : Subscribers
  with_client = record {
    capacity = grow (length s.clients) s.capacity;
    clients = s.clients ++ new_subscriber buffer socket ∷ [];
  }

  pub add_new_client-ok : length buffer < 11 → add_new_client s buffer socket ≡ ok with_client
  unfolding add_new_client
  add_new_client-ok short = rw (
    lt→ltb (length buffer) 11 short,
    push-grow s.capacity s.clients (new_subscriber buffer socket) wf.room wf.some_room,
  )

  pub add_new_client-long : ltb (length buffer) 11 ≡ false → add_new_client s buffer socket ≡ fault
  unfolding add_new_client
  add_new_client-long long = rw long refl

  pub add_new_client-WellFormed : WellFormed with_client
  add_new_client-WellFormed = record {
    room = omega (
      arith,
      le-grow s.capacity (length s.clients) wf.room wf.some_room,
      length-append s.clients (new_subscriber buffer socket ∷ []),
    );
    some_room = omega (arith, le-grow s.capacity (length s.clients) wf.room wf.some_room);
    clients_ok = All-append ClientOk s.clients _ wf.clients_ok (
      record { flag = inr refl; room = omega arith; some_room = omega arith; topics_ok = tt },
      tt,
    );
  }

-- A new subscription needs no array while its client is connected.
module _ (c : Client) (action : Action) (okay : ClientOk c) where
  abbrev pub with_topic : Client
  with_topic = record c {
    topic_capacity = grow (length c.topics) c.topic_capacity;
    topics = c.topics ++ new_topic action ∷ [];
  }

  pub add_topic-ok : add_topic c action ≡ ok with_topic
  unfolding add_topic
  add_topic-ok =
      rw (push-grow c.topic_capacity c.topics (new_topic action) okay.room okay.some_room)

  pub add_topic-ClientOk : c.connected ≡ 1 → ClientOk with_topic
  add_topic-ClientOk on = record {
    flag = okay.flag;
    room = omega (
      arith,
      le-grow c.topic_capacity (length c.topics) okay.room okay.some_room,
      length-append c.topics (new_topic action ∷ []),
    );
    some_room = omega (arith, le-grow c.topic_capacity (length c.topics) okay.room okay.some_room);
    topics_ok =
        All-append (TopicOk c.connected) c.topics _ okay.topics_ok
          ((omega arith, λ off _. absurd (omega arith)), tt);
  }

-- Every client that has the socket is connected: no client that left still names it.
abbrev pub Live : ℕ → List Client → Type 0
Live socket = All (λ c. c.socket ≡ socket → c.connected ≡ 1)

pub subscribe_clients-ok :
    (cs : List Client) (action : Action) (socket : ℕ)
    → All ClientOk cs
    → Live socket cs
    → (cs' : List Client) × (subscribe_clients cs action socket ≡ ok cs')
      × All ClientOk cs'
      × (length cs' ≡ length cs)
unfolding subscribe_clients
subscribe_clients-ok [] action socket okay live = ([], refl, tt, refl)
subscribe_clients-ok (c ∷ cs) action socket okay live = elim (Bool-cases (c.socket == socket)) [
  | inl hit ↦ (
    with_topic c action okay.0 ∷ cs,
    rw (hit, add_topic-ok c action okay.0),
    (add_topic-ClientOk c action okay.0 (live.0 (ground arith)), okay.1),
    refl,
  )
  | inr miss ↦
      (let (cs', e, okay', len) = subscribe_clients-ok cs action socket okay.1 live.1 in
        (c ∷ cs', rw (miss, e), (okay.0, okay'), omega arith))
]
