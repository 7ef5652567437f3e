-- ===== src/Broker/Session.antt =====
-- What happens to a subscriber across a disconnection: the invariant, the packets that wait for
-- it, and the resend of `reconnect_an_old_client`.
use mathlib.Core.Path.{sym, ◌∙◌}
use pc_communication_protoco.Prelude.{
  ℕ, ◌≡◌, ◌≢◌, refl, ap, inl, inr, true, none, some, List, [], ◌∷◌, ◌++◌, map, append-nil,
  append_assoc, arith, Text, text_eq, ◌==◌, if◌then◌else◌, Bool-cases, among, All, Run, ok, ◌>>=◌,
}
use pc_communication_protoco.Broker.Types.{TcpPacket, TopicPacket, Client, Heap, write, Output}
use pc_communication_protoco.Broker.Delivery.{send_both, send_clients, resend, free_all}
use pc_communication_protoco.Broker.WellFormed.{ClientOk}
use pc_communication_protoco.Broker.Publish.{
  with_packet, received, received-ClientOk, send_clients-received,
}

-- A packet in use: its address and its contents.
abbrev pub Sent : Type 0
Sent = ℕ × TcpPacket

abbrev pub pointers : List Sent → List ℕ
pointers [] = []
pointers (x ∷ xs) = x.0 ∷ pointers xs

abbrev pub Held : Heap → List Sent → Type 0
Held heap = All (λ x. heap x.0 ≡ some x.1)

abbrev pub Distinct : List Sent → Type 0
Distinct [] = Unit
Distinct (x ∷ xs) = All (λ y. y.0 ≢ x.0) xs × Distinct xs

-- The sends for these packets, in order.
abbrev pub copies : (Text → ℕ) → ℕ → List Sent → List Output
copies atoi socket [] = []
copies atoi socket (x ∷ xs) = send_both atoi socket x.1 ++ copies atoi socket xs

-- Exactly these packets are freed.
abbrev pub Freed : List Sent → Heap → Heap → Type 0
Freed xs h g = (q : ℕ) → g q ≡ (if among q (pointers xs) then none else h q)

pub resend-copies :
    (atoi : Text → ℕ) (socket : ℕ) (heap : Heap) (xs : List Sent)
    → Held heap xs
    → resend atoi socket heap (pointers xs) ≡ ok (copies atoi socket xs)
unfolding resend
resend-copies atoi socket heap [] held = refl
resend-copies atoi socket heap (x ∷ xs) held = rw (held.0, resend-copies atoi socket heap xs held.1)

Held-write :
    (heap : Heap) (p : ℕ) (xs : List Sent)
    → All (λ y. y.0 ≢ p) xs
    → Held heap xs
    → Held (write heap p none) xs
unfolding write
Held-write heap p [] out held = tt
Held-write heap p (x ∷ xs) out held = (ground arith, Held-write heap p xs out.1 held.1)

pub free_all-Freed :
    (heap : Heap) (xs : List Sent)
    → Held heap xs
    → Distinct xs
    → (heap' : Heap) × (free_all heap (pointers xs) ≡ ok heap') × Freed xs heap heap'
unfolding free_all write
free_all-Freed heap [] held apart = (heap, refl, λ q. refl)
free_all-Freed heap (x ∷ xs) held apart =
    let (heap', e, freed) =
      free_all-Freed (write heap x.0 none) xs (Held-write heap x.0 xs apart.0 held.1) apart.1 in
    (heap', rw held.0 e, λ q. ground (arith, freed q))

-- The server's calls of `send_tcp` for these packets, one after the other.
abbrev pub publish : (Text → ℕ) → List Sent → List Client → Run (List Client)
publish atoi [] cs = ok cs
publish atoi (x ∷ xs) cs = do (cs', out) ← send_clients atoi x.0 x.1 cs; publish atoi xs cs'

abbrev pub published : List Sent → Client → Client
published [] c = c
published (x ∷ xs) c = published xs (received x.0 x.1 c)

map_self : (cs : List Client) → map (published []) cs ≡ cs
map_self [] = refl
map_self (c ∷ cs) = rw (map_self cs)

map-published :
    (x : Sent) (xs : List Sent) (cs : List Client)
    → map (published xs) (map (received x.0 x.1) cs) ≡ map (published (x ∷ xs)) cs
map-published x xs [] = refl
map-published x xs (c ∷ cs) = rw (map-published x xs cs)

received-All :
    (x : Sent) (cs : List Client) → All ClientOk cs → All ClientOk (map (received x.0 x.1) cs)
received-All x [] okay = tt
received-All x (c ∷ cs) okay = (received-ClientOk x.0 x.1 c okay.0, received-All x cs okay.1)

pub publish-published :
    (atoi : Text → ℕ) (xs : List Sent) (cs : List Client)
    → All ClientOk cs
    → publish atoi xs cs ≡ ok (map (published xs) cs)
publish-published atoi [] cs okay = ap (λ (t : List Client). ok t) (sym (map_self cs))
publish-published atoi (x ∷ xs) cs okay = rw (send_clients-received atoi x.0 x.1 cs okay) (
    publish-published atoi xs (map (received x.0 x.1) cs) (received-All x cs okay)
    ∙ ap (λ (t : List Client). ok t) (map-published x xs cs))

-- The packets on this topic.
abbrev pub matching : Text → List Sent → List Sent
matching name [] = []
matching name (x ∷ xs) = if text_eq name x.1.topic then x ∷ matching name xs else matching name xs

-- A disconnected client with one subscription.
abbrev pub waiting : Client → TopicPacket → Client
waiting c t = record c { connected = 0; topics = t ∷ [] }

abbrev pub with_pending : TopicPacket → List ℕ → ℕ → TopicPacket
with_pending t ps capacity = record t { tcps = t.tcps ++ ps; tcp_capacity = capacity }

pub published-waiting :
    (c : Client) (t : TopicPacket) (xs : List Sent)
    → t.sf ≡ 1
    → (capacity : ℕ) × (published xs (waiting c t)
        ≡ waiting c (with_pending t (pointers (matching t.topic xs)) capacity))
published-waiting c t [] keeps = (
  t.tcp_capacity,
  ap (λ (ps : List ℕ). waiting c (record t { tcps = ps })) (sym (append-nil t.tcps)),
)
published-waiting c t (x ∷ xs) keeps = elim (Bool-cases (text_eq t.topic x.1.topic)) [
  | inr miss ↦ (let (capacity, e) = published-waiting c t xs keeps in (capacity, rw (miss) e))
  | inl hit ↦
      (let (capacity, e) = published-waiting c (with_packet x.0 t) xs keeps in
        (
          capacity,
          rw (hit, keeps_test)
              (e
                ∙ ap (λ (ps : List ℕ). waiting c (record t { tcps = ps; tcp_capacity = capacity }))
                    (append_assoc t.tcps (x.0 ∷ []) (pointers (matching t.topic xs)))),
        ))
]
  where
    keeps_test : (t.sf == 1) ≡ true
    keeps_test = ground arith
