-- ===== src/Broker/Registry.antt =====
-- `create_subscribers`, `get_client`, `add_new_client` and `subscribe_to_topic` of
-- `tcp & udp communication/helper.c`, and the `unsubscribe` branch of server.c. A write past the
-- allocated capacity is a `fault`.
use pc_communication_protoco.Prelude.{
  ℕ, ◌*◌, Bool, true, false, Option, none, some, List, [], ◌∷◌, ◌++◌, Text, text_eq, ◌==◌, ltb,
  if◌then◌else◌, length, Run, ok, fault, ◌>>=◌,
}
use pc_communication_protoco.Broker.Types.{TopicPacket, unset, Client, Subscribers, Action}

unfoldable pub create_subscribers : Subscribers
create_subscribers = record { capacity = 10; clients = [] }

unfoldable pub find_client : List Client → Text → Option Client
find_client [] buffer = none
find_client (c ∷ cs) buffer = if text_eq c.id buffer then some c else find_client cs buffer

unfoldable pub get_client : Subscribers → Text → Option Client
unfolding find_client
get_client subscribers buffer = find_client subscribers.clients buffer

-- `if (size == capacity) { capacity *= 2; realloc }`
unfoldable pub grow : ℕ → ℕ → ℕ
grow size capacity = if capacity == size then capacity * 2 else capacity

-- `array[size++] = x`, with room for `capacity` elements.
unfoldable pub push {ℓ} : {A : Type ℓ} → ℕ → List A → A → Run (List A)
push capacity xs x = if ltb (length xs) capacity then ok (xs ++ x ∷ []) else fault

abbrev pub new_subscriber : Text → ℕ → Client
new_subscriber buffer newtcp_socket = record {
  id = buffer;
  connected = 1;
  socket = newtcp_socket;
  topic_capacity = 20;
  topics = [];
}

-- `id` has eleven bytes; to copy a longer name is a `fault`.
unfoldable pub add_new_client : Subscribers → Text → ℕ → Run Subscribers
unfolding grow push
add_new_client subscribers buffer newtcp_socket =
    let capacity = grow (length subscribers.clients) subscribers.capacity in
    if ltb (length buffer) 11
    then (do
      clients ← push capacity subscribers.clients (new_subscriber buffer newtcp_socket)
      ok (record { capacity = capacity; clients = clients }))
    else fault

abbrev pub new_topic : Action → TopicPacket
new_topic action = record {
  sf = action.sf;
  topic = action.topic;
  tcps = [];
  tcp_capacity = 0;
  storage = unset;
}

unfoldable pub add_topic : Client → Action → Run Client
unfolding grow push
add_topic c action =
    let capacity = grow (length c.topics) c.topic_capacity in
    do
      topics ← push capacity c.topics (new_topic action)
      ok (record c { topic_capacity = capacity; topics = topics })

-- The loop over the clients stops at the first one with this socket.
unfoldable pub subscribe_clients : List Client → Action → ℕ → Run (List Client)
unfolding add_topic
subscribe_clients [] action socket = ok []
subscribe_clients (c ∷ cs) action socket =
    if c.socket == socket
    then (do c' ← add_topic c action; ok (c' ∷ cs))
    else (do cs' ← subscribe_clients cs action socket; ok (c ∷ cs'))

unfoldable pub subscribe_to_topic : Subscribers → Action → ℕ → Run Subscribers
unfolding subscribe_clients
subscribe_to_topic subscribers action socket = do
  clients ← subscribe_clients subscribers.clients action socket
  ok (record subscribers { clients = clients })

-- `strcpy(topic, "")` on the first topic of that name; the flag is `ok` of the source.
unfoldable pub clear_topic : List TopicPacket → Text → List TopicPacket × Bool
clear_topic [] name = ([], false)
clear_topic (t ∷ ts) name =
    let rest = clear_topic ts name in
    if text_eq t.topic name then (record t { topic = [] } ∷ ts, true) else (t ∷ rest.0, rest.1)

-- A client with the socket but without the topic does not stop the outer loop.
unfoldable pub unsubscribe_clients : List Client → Text → ℕ → List Client
unfolding clear_topic
unsubscribe_clients [] name socket = []
unsubscribe_clients (c ∷ cs) name socket =
    let rest = unsubscribe_clients cs name socket in
    if c.socket == socket
    then (let (topics, done) = clear_topic c.topics name in
        if done then record c { topics = topics } ∷ cs else c ∷ rest)
    else c ∷ rest

unfoldable pub unsubscribe : Subscribers → Text → ℕ → Subscribers
unfolding unsubscribe_clients
unsubscribe subscribers name socket = record subscribers {
  clients = unsubscribe_clients subscribers.clients name socket;
}
