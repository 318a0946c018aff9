-- ===== src/Alerts/Client/Accepted.antt =====
-- The client and the relay together.
use nomctl.Prelude.{
  ◌≡◌, ◌↔◌, ◌≤◌, length, true, some, Option, Text, text_eq, text_eqb_iff, ℕ, ℤ, format_int, ok,
  arith,
}
use nomctl.Time.{Time}
use nomctl.AlertProto.Sign.Laws.{AreBytes, IsFresh, verify-sign}
use nomctl.Relay.Store.{Node, StoreOps}
use nomctl.Relay.Server.{Env}
use nomctl.Relay.Http.Types.{Codec, Options, max_body, read_body}
use nomctl.Relay.Http.Names.{valid_node_id}
use nomctl.Relay.Http.Handlers.{authenticate}
use nomctl.Relay.Http.Auth.{authenticate_iff}
use nomctl.Alerts.Daemon.{unpaired}
use nomctl.Alerts.Client.{unknown_node_message, relay_error, signed_request, read_answer}

module _ {S : Type 0} (ops : StoreOps S) (env : Env) (codec : Codec) (options : Options)
    (bytes_of_hmac : (k m : Text) → AreBytes (codec.hmac k m)) where
  -- The relay takes the client's request for that of the node whose id and secret the client has,
  -- with the body that the client sent, if the body has at most 64 KiB, the store holds the node under
  -- a well-formed id, the timestamp is within the replay window, and reading a decimal timestamp gives
  -- it back.
  pub authenticate-signed_request :
      (node : Node) (store : S) (peer forwarded body : Text) (ts : ℤ) (now : Time)
      → length body ≤ max_body
      → valid_node_id node.id ≡ true
      → ops.get_node node.id store ≡ ok node
      → codec.parse_int (format_int ts) ≡ some ts
      → IsFresh ts now
      → authenticate ops env codec options now
          (signed_request codec.hmac
            (record { node_id = node.id; secret = node.secret })
            peer
            forwarded
            ts
            body)
          store
        ≡ ok (node, body)
  unfolding signed_request read_body
  authenticate-signed_request node store peer forwarded body ts now small valid known parsed fresh =
      (authenticate_iff ops env codec options now _ store (node, body)).1 (record {
        valid_id = valid;
        body = ground arith;
        node = known;
        signature =
            (ts, parsed, verify-sign codec.hmac bytes_of_hmac node.secret ts body now fresh);
      })

-- The client takes the node for unpaired exactly if the relay answers 401 with the message for an
-- unknown node.
pub read_answer_unpaired :
    (decode : Text → Option Text) (path : Text) (status : ℕ) (body : Text)
    → (read_answer decode path status body ≡ some unpaired)
      ↔ ((status ≡ 401) × (relay_error decode status body ≡ unknown_node_message))
unfolding read_answer
read_answer_unpaired decode path status body = (
  (λ h. ground (arith, text_eqb_iff (relay_error decode status body) unknown_node_message)),
  (λ h. ground (arith, text_eqb_iff (relay_error decode status body) unknown_node_message)),
)
