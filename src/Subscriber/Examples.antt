-- ===== src/Subscriber/Examples.antt =====
-- The client at small inputs.
use pc_communication_protoco.Prelude.{◌≡◌, false, none, some, List, [], ok, codes, arith}
use pc_communication_protoco.Broker.Types.{TopicPacket, Action}
use pc_communication_protoco.Broker.Registry.{clear_topic}
use pc_communication_protoco.Broker.Publish.{subscribed}
use pc_communication_protoco.Subscriber.{Session, send_action, on_line}
use pc_communication_protoco.Subscriber.Commands.{unsubscribe-newline}

abbrev session : Session
session = record { action = none; ended = false; sent = []; shown = []; stop = false }

unsubscribe-newline_example :
    (action : Action) × (on_line (codes "unsubscribe news\n") session
      ≡ ok (send_action session (some action)))
    × (action.topic ≡ codes "news\n")
    × ((ts : List TopicPacket)
        → subscribed (codes "news\n") ts ≡ false
        → clear_topic ts action.topic ≡ (ts, false))
unsubscribe-newline_example =
    unsubscribe-newline session (codes "news") (omega arith) (omega arith) (omega arith)
      (omega arith)
