-- ===== src/Alerts/Client.antt =====
-- The node's client of internal/alerts/client.go: the signed request that `post` sends, and what it
-- makes of the relay's answer.
pub mod Accepted
use nomctl.Prelude.{
  ℕ, ◌-◌, Bool, ◌&&◌, Option, none, some, ◌++◌, Text, bytes, text_eq, ◌==◌, ℤ, format_int,
  format_nat, nat_eqb, leb, ltb, if◌then◌else◌,
}
use nomctl.AlertProto.Sign.{sign}
use nomctl.Relay.Http.Types.{Request, read_body}
use nomctl.Alerts.Daemon.{ClientError, unpaired}

pub record Client : Type 0 where
  pub node_id : Text
  pub secret : Text

abbrev pub unknown_node_message : Text
unknown_node_message = bytes "unknown node"

-- `decode` is the error field of a JSON body, none for a body that is no JSON or has an empty one.
unfoldable pub relay_error : (Text → Option Text) → ℕ → Text → Text
relay_error decode code body = elim (decode body) [
  | none ↦ bytes "HTTP " ++ format_nat code
  | some e ↦ e
]

-- The request of `post` as the relay reads it, behind no proxy that adds to it.
unfoldable pub signed_request : (Text → Text → Text) → Client → Text → Text → ℤ → Text → Request
signed_request hmac c peer forwarded timestamp body = record {
  peer = peer;
  forwarded = forwarded;
  node_header = c.node_id;
  timestamp_header = format_int timestamp;
  signature_header = sign hmac c.secret timestamp body;
  body = read_body body;
}

-- `post` after the transport's answer: its status and body, or the text of its error.
unfoldable pub read_answer : (Text → Option Text) → Text → ℕ → Text → Option ClientError
read_answer decode path status body =
    if nat_eqb status 401 && relay_error decode status body == unknown_node_message
    then some unpaired
    else if leb 200 status && ltb status 300
    then none
    else some
        (ClientError.other (bytes "relay " ++ path ++ bytes ": " ++ relay_error decode status body))
