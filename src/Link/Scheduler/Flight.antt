-- ===== src/Link/Scheduler/Flight.antt =====
-- Messages in flight: when they are sent, and in which order.
use pc_communication_protoco.Prelude.{
  ℕ, ◌+◌, ◌≤◌, ◌<◌, ◌≡◌, refl, sym, ap, ◌∙◌, true, Bool-cases, inl, inr, List, [], ◌∷◌, ◌++◌,
  append_assoc, ltb, leb, All, All-append, All-map, ltb→lt, arith,
}
use pc_communication_protoco.Link.Scheduler.{
  Message, MsgInFlight, in_flight_until, Link, deliver, take_from, put_in_flight,
}

abbrev pub messages : List MsgInFlight → List Message
messages [] = []
messages (f ∷ fs) = f.m ∷ messages fs

pub messages-append : (xs ys : List MsgInFlight) → messages (xs ++ ys) ≡ messages xs ++ messages ys
messages-append [] ys = refl
messages-append (x ∷ xs) ys = ap (λ (t : List Message). x.m ∷ t) (messages-append xs ys)

-- The oldest finishes first.
abbrev pub InOrder : List MsgInFlight → Type 0
InOrder [] = Unit
InOrder (f ∷ fs) = All (λ g. f.finish_time ≤ g.finish_time) fs × InOrder fs

abbrev Due : ℕ → MsgInFlight → Type 0
Due crt_time f = crt_time < f.finish_time

-- What is delivered and what stays make up what was in flight; what was due is a first part of it.
pub deliver-splits :
    (crt_time : ℕ) (fs : List MsgInFlight)
    → InOrder fs
    → (due : List MsgInFlight) × (fs ≡ due ++ (deliver crt_time fs).1)
      × ((deliver crt_time fs).0 ≡ messages due)
      × All (λ f. f.finish_time ≤ crt_time) due
      × All (λ f. crt_time < f.finish_time) (deliver crt_time fs).1
      × InOrder (deliver crt_time fs).1
unfolding deliver
deliver-splits crt_time [] ordered = ([], refl, refl, tt, tt, tt)
deliver-splits crt_time (f ∷ fs) (first, ordered) = elim (Bool-cases (ltb crt_time f.finish_time)) [
  | inl later ↦ rw later (
    [],
    refl,
    refl,
    tt,
    (ltb→lt crt_time f.finish_time later, All-map fs (λ g h. ground (arith, later, h)) first),
    (first, ordered),
  )
  | inr now ↦
      (let (due, e, sent, ready, waiting, rest) = deliver-splits crt_time fs ordered in
        rw now (
          f ∷ due,
          ap (λ (t : List MsgInFlight). f ∷ t) e,
          ap (λ (t : List Message). f.m ∷ t) sent,
          (ground arith, ready),
          waiting,
          rest,
        ))
]

InOrder-append_one :
    (fs : List MsgInFlight) (g : MsgInFlight)
    → InOrder fs
    → All (λ f. f.finish_time ≤ g.finish_time) fs
    → InOrder (fs ++ g ∷ [])
InOrder-append_one [] g ordered below = (tt, tt)
InOrder-append_one (f ∷ fs) g (first, ordered) (b, below) = (
  All-append (λ h. f.finish_time ≤ h.finish_time) fs (g ∷ []) first (b, tt),
  InOrder-append_one fs g ordered below,
)

module _ (serialization_delay delay : ℕ) where
  -- Finish times grow from the oldest on, and none is later than when the link is idle and the
  -- delay is over.
  abbrev pub Timed : Link → Type 0
  Timed s = InOrder s.in_flight × All (λ f. f.finish_time ≤ s.idle_time + delay) s.in_flight

  pub put_in_flight-Timed :
      (crt_time : ℕ) (s : Link)
      → Timed s
      → Timed (put_in_flight serialization_delay delay crt_time s)
  unfolding put_in_flight
  put_in_flight-Timed crt_time s (ordered, below) = elim (Bool-cases (leb s.idle_time crt_time)) [
    | inr busy ↦ rw busy (ordered, below)
    | inl idle ↦ rw idle (go s.buffer idle)
  ]
    where
      go :
          (b : List Message)
          → leb s.idle_time crt_time ≡ true
          → Timed (take_from serialization_delay delay crt_time s b)
      go [] idle = unfold take_from in (ordered, below)
      go (m ∷ buffer) idle =
          let last = in_flight_until m (crt_time + serialization_delay + delay) in
          let earlier : All (λ f. f.finish_time ≤ last.finish_time) s.in_flight =
            All-map s.in_flight (λ f h. ground (arith, idle, h)) below in
          unfold take_from in
          (
            InOrder-append_one s.in_flight last ordered earlier,
            All-append (λ f. f.finish_time ≤ crt_time + serialization_delay + delay) s.in_flight
                (last ∷ []) earlier (omega arith, tt),
          )

  -- Putting a message in flight keeps the order of the messages.
  pub put_in_flight-order :
      (crt_time : ℕ) (s : Link)
      → let s' = put_in_flight serialization_delay delay crt_time s in
        (messages s'.in_flight ++ s'.buffer ≡ messages s.in_flight ++ s.buffer)
        × (s'.to_remote ≡ s.to_remote)
  unfolding put_in_flight
  put_in_flight-order crt_time s = elim (Bool-cases (leb s.idle_time crt_time)) [
    | inr busy ↦ rw busy (refl, refl)
    | inl idle ↦ rw idle (go s.buffer refl)
  ]
    where
      go :
          (b : List Message)
          → s.buffer ≡ b
          → let s' = take_from serialization_delay delay crt_time s b in
            (messages s'.in_flight ++ s'.buffer ≡ messages s.in_flight ++ s.buffer)
            × (s'.to_remote ≡ s.to_remote)
      go [] e = unfold take_from in (refl, refl)
      go (m ∷ buffer) e =
          let last = in_flight_until m (crt_time + serialization_delay + delay) in
          unfold take_from in
          (
            ap (λ (t : List Message). t ++ buffer) (messages-append s.in_flight (last ∷ []))
                ∙ append_assoc (messages s.in_flight) (m ∷ []) buffer
                ∙ ap (λ (t : List Message). messages s.in_flight ++ t) (sym e),
            refl,
          )

  take_from-later :
      (crt_time : ℕ) (s : Link) (b : List Message)
      → 0 < serialization_delay
      → All (λ f. crt_time < f.finish_time) s.in_flight
      → All
          (λ f. crt_time < f.finish_time)
          (take_from serialization_delay delay crt_time s b).in_flight
  unfolding take_from
  take_from-later crt_time s [] real later = later
  take_from-later crt_time s (m ∷ b) real later =
      All-append (λ f. crt_time < f.finish_time) s.in_flight
        (in_flight_until m (crt_time + serialization_delay + delay) ∷ []) later (omega arith, tt)

  pub put_in_flight-later :
      (crt_time : ℕ) (s : Link)
      → 0 < serialization_delay
      → All (λ f. crt_time < f.finish_time) s.in_flight
      → All
          (λ f. crt_time < f.finish_time)
          (put_in_flight serialization_delay delay crt_time s).in_flight
  unfolding put_in_flight
  put_in_flight-later crt_time s real later = elim (Bool-cases (leb s.idle_time crt_time)) [
    | inl idle ↦ rw idle (take_from-later crt_time s s.buffer real later)
    | inr busy ↦ rw busy later
  ]
