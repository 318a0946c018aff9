-- ===== src/Relay/Http/Types.antt =====
-- Requests and responses of the relay, and what the handlers of internal/relay/server.go take from the
-- standard library: JSON, base64, addresses and the MAC, as a record of functions.
use nomctl.Prelude.{ℕ, ◌*◌, Bool, Option, none, some, List, Text, ℤ, leb, length, if◌then◌else◌}
use nomctl.Time.{Time}
use nomctl.AlertProto.{AlertRequest, PairRequest, Summary}

abbrev pub max_body : ℕ
max_body = 64 * 1024

-- `readBody`: none for a body that is too large.
unfoldable pub read_body : Text → Option Text
read_body body = if leb (length body) max_body then some body else none

-- A request as the server reads it: `peer` is the host of the remote address, `body` is none if it is
-- larger than 64 KiB, and a header that is not there is empty.
pub record Request : Type 0 where
  pub peer : Text
  pub forwarded : Text
  pub node_header : Text
  pub timestamp_header : Text
  pub signature_header : Text
  pub body : Option Text

pub data Response : Type 0 where
  error : ℕ → Text → Response
  paired : Text → Text → Response
  no_content : Response

pub record HeartbeatRequest : Type 0 where
  pub at : Time
  pub summary : Summary

-- What the handlers take from the standard library.
pub record Codec : Type 0 where
  pub hmac : Text → Text → Text
  pub trim_space : Text → Text
  pub to_upper : Text → Text
  pub parse_int : Text → Option ℤ
  pub pair_request : Text → Option PairRequest
  pub alert_request : Text → Option AlertRequest
  pub heartbeat_request : Text → Option HeartbeatRequest
  pub base64 : Text → Text
  pub parse_ip : Text → Option ℕ

-- `Options`: each trusted proxy range is the test of an address.
pub record Options : Type 0 where
  pub trusted_proxies : List (ℕ → Bool)
