-- ===== src/Tests/Relay.antt =====
-- The relay's delivery and its handlers, over the in-memory store.
use mathlib.Core.List.{reverse}
use nomctl.Prelude.{
  List, ◌*◌, ◌%◌, ◌≡◌, ◌≢◌, ◌↔◌, refl, false, Option, none, some, [], ◌∷◌, Text, bytes, text_eq,
  arith, pos, ok, err, length, ◌==◌, nat_eq,
}
use nomctl.Prelude.Dict.{get}
use nomctl.Time.{minute}
use nomctl.AlertProto.{State, Severity, AlertRequest, empty_summary}
use nomctl.Relay.Limiter.{new_rate_limiter, allow, counted, count_request}
use nomctl.Relay.Store.{StoreError, Node}
use nomctl.Relay.Store.Memory.{
  MemoryStore, new_memory_store, memory, get_node, muted, last_sent, set_last_sent,
}
use nomctl.Relay.Store.Laws.{memory_laws}
use nomctl.Relay.Markdown.{escape}
use nomctl.Relay.Markdown.Laws.{read_plain, AreRunes, text_of, read_plain-escape}
use nomctl.Relay.Server.{
  Env, SendError, blocked, Server, new_server, chat_blocked, format_message, send, after_send,
  notify_if, notify, record_sent, then_record, record_error, send_unmuted, deliver_after, deliver,
}
use nomctl.Relay.Server.Delivery.{OneMessage, OneMessage-deliver}
use nomctl.Relay.Server.Records.{deliver_failed, deliver_once}
use nomctl.Relay.Http.Types.{Request, Codec, Options}
use nomctl.Relay.Http.Client.{client_ip, split_commas, trusted, client_ip-forged}
use nomctl.Relay.Http.Handlers.{authed, authenticate, handle_heartbeat}
use nomctl.Relay.Http.Auth.{IsSigned, authenticate_iff, authed_unsigned}

abbrev pub node : Node
node = record {
  id = bytes "n_1";
  chat_id = pos 7;
  name = bytes "one";
  host = bytes "vps";
  version = bytes "v1.0.0";
  secret = bytes "secret";
  created = minute;
  last_seen = minute;
  silent = false;
  blocked = false;
  summary = empty_summary;
}

abbrev disk_low : AlertRequest
disk_low = record {
  alert = bytes "disk_low";
  state = State.firing;
  severity = Severity.warning;
  title = bytes "disk space low";
  detail = bytes "9%";
  at = minute;
}

abbrev disk_ok : AlertRequest
disk_ok = record disk_low { state = State.ok }

-- Telegram accepts every message, or reports that the bot is blocked.
abbrev pub answering : Option SendError → Env
answering e = record {
  send = λ n chat text. e;
  format_time = λ t. [];
  format_clock = λ t. [];
  format_duration = λ d. [];
}

abbrev server : Server MemoryStore
server = new_server new_memory_store

nothing_sent : (alert : Text) → last_sent (bytes "n_1") alert server.store ≡ ok (State.other [], 0)
unfolding last_sent get new_server
nothing_sent alert = refl

firing_is_no_event : disk_low.state ≢ State.info
firing_is_no_event e = ground arith

ok_is_no_event : disk_ok.state ≢ State.info
ok_is_no_event e = ground arith

accepted_delivery : (deliver memory (answering none) minute node disk_low server).0 ≡ none
unfolding deliver deliver_after send_unmuted notify notify_if send after_send then_record
    record_sent record_error last_sent muted set_last_sent get new_server new_rate_limiter allow
    counted count_request
accepted_delivery = refl

blocked_delivery :
    (deliver memory (answering (some blocked)) minute node disk_low server).0 ≡ some chat_blocked
unfolding deliver deliver_after send_unmuted notify notify_if send after_send then_record last_sent
    muted get new_server new_rate_limiter allow counted count_request
blocked_delivery = refl

OneMessage-deliver_example :
    OneMessage node
      (format_message (answering none) node disk_low)
      server.outbox
      (deliver memory (answering none) minute node disk_low server).1.outbox
OneMessage-deliver_example = OneMessage-deliver memory (answering none) minute node disk_low server

deliver_failed_example :
    last_sent
      (bytes "n_1")
      (bytes "disk_low")
      (deliver memory (answering (some blocked)) minute node disk_low server).1.store
    ≡ last_sent (bytes "n_1") (bytes "disk_low") server.store
deliver_failed_example =
    deliver_failed memory memory_laws (answering (some blocked)) minute node disk_low server
      chat_blocked blocked_delivery (bytes "n_1") (bytes "disk_low")

deliver_once_example :
    deliver memory
      (answering none)
      (2 * minute)
      node
      disk_low
      (deliver memory (answering none) minute node disk_low server).1
    ≡ (none, (deliver memory (answering none) minute node disk_low server).1)
deliver_once_example =
    deliver_once memory memory_laws (answering none) minute (2 * minute) node disk_low disk_low
      server (State.other []) 0 firing_is_no_event (nothing_sent (bytes "disk_low")) refl
      accepted_delivery refl refl (omega arith)

-- A letter, the euro sign, a dot and a star.
abbrev runes : List Text
runes = bytes "a" ∷ (226 ∷ 130 ∷ 172 ∷ []) ∷ bytes "." ∷ bytes "*" ∷ []

runes-AreRunes : AreRunes runes
runes-AreRunes = ground arith

read_plain-escape_example : read_plain false (escape (text_of runes)) ≡ some (text_of runes)
read_plain-escape_example = read_plain-escape runes runes-AreRunes

-- Addresses are texts, of which the length stands for the parsed address; those of one byte are
-- proxies.
abbrev pub codec : Codec
codec = record {
  hmac = λ k m. length m % 256 ∷ [];
  trim_space = λ s. s;
  to_upper = λ s. s;
  parse_int = λ s. some (pos (length s));
  pair_request = λ s. none;
  alert_request = λ s. none;
  heartbeat_request = λ s. none;
  base64 = λ s. s;
  parse_ip = λ s. some (length s);
}

abbrev pub options : Options
options = record { trusted_proxies = (λ ip. ip == 1) ∷ [] }

abbrev request : Request
request = record {
  peer = bytes "p";
  forwarded = bytes "1.2.3.4,q";
  node_header = bytes "n_0123456789abcdef";
  timestamp_header = [];
  signature_header = bytes "00";
  body = some (bytes "{}");
}

authenticate_iff_example :
    (authenticate memory (answering none) codec options minute request new_memory_store
      ≡ ok (node, bytes "{}"))
    ↔ IsSigned memory
        (answering none)
        codec
        options
        minute
        request
        new_memory_store
        (node, bytes "{}")
authenticate_iff_example =
    authenticate_iff memory (answering none) codec options minute request new_memory_store
      (node, bytes "{}")

unknown_node :
    (signed : Node × Text)
    → ¬ IsSigned memory (answering none) codec options minute request server.store signed
unfolding get_node get new_server
unknown_node signed v = let known : err StoreError.not_found ≡ ok signed.0 = v.node in ground arith

authed_unsigned_example :
    (authed memory
      (answering none)
      codec
      options
      (handle_heartbeat memory (answering none) codec options)
      minute
      request
      server).1
    ≡ record server {
      admit_limit = (allow minute (client_ip codec options request) server.admit_limit).1;
    }
authed_unsigned_example =
    authed_unsigned memory (answering none) codec options
      (handle_heartbeat memory (answering none) codec options) minute request server unknown_node

entries : reverse (split_commas (bytes "1.2.3.4,q")) ≡ bytes "q" ∷ bytes "1.2.3.4" ∷ []
unfolding split_commas
entries = refl

no_proxy : trusted codec options (bytes "1.2.3.4") ≡ false
unfolding trusted
no_proxy = refl

client_ip-forged_example :
    client_ip codec options (record request { forwarded = bytes "6.6.6.6,1.2.3.4,q" })
    ≡ client_ip codec options (record request { forwarded = bytes "1.2.3.4,q" })
client_ip-forged_example =
    client_ip-forged codec options request (bytes "6.6.6.6") (bytes "1.2.3.4,q") (bytes "q" ∷ [])
      (bytes "1.2.3.4") [] entries ((λ e. ground arith), no_proxy)

abbrev random : Text
random = 1 ∷ 2 ∷ 3 ∷ 4 ∷ 5 ∷ 6 ∷ 7 ∷ 255 ∷ []
