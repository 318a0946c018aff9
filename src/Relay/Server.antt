-- ===== src/Relay/Server.antt =====
-- The relay's state and its delivery of alerts, of internal/relay/server.go: `notify`, `deliver`,
-- `clearBlocked`, `CheckSilent` and the notice of suppressed alerts. A handler reads the clock once,
-- and that reading is the argument `now`. Log lines are left out.
pub mod Delivery
pub mod Records
use nomctl.Prelude.{
  ℕ, suc, ◌+◌, ◌-◌, ◌*◌, Bool, true, false, not, ◌&&◌, ◌||◌, Option, none, some, List, [], ◌∷◌,
  ◌++◌, Text, bytes, text_eq, int_eq, ◌==◌, ltb, nat_eqb, length, ℤ, Result, ok, err, format_int,
  format_nat, if◌then◌else◌,
}
use nomctl.Prelude.Dict.{Dict, get, put, remove}
use nomctl.Time.{Time, Duration, minute}
use nomctl.AlertProto.{
  State, state_eq, Severity, severity_eqb, AlertRequest, AlertInfo, lookup, info_or_zero,
}
use nomctl.Relay.Limiter.{RateLimiter, new_rate_limiter, allow}
use nomctl.Relay.Store.{StoreError, Node, StoreOps}
use nomctl.Relay.Markdown.{escape, code, bold}

abbrev pub reminder_every : Duration
reminder_every = 10 * minute

-- What `Sender.Send` returns, where it is not nil.
pub data SendError : Type 0 where
  blocked failed : SendError

-- What the server does not implement: Telegram's answer to the n-th message, and the standard
-- library's rendering of times and durations.
pub record Env : Type 0 where
  pub send : ℕ → ℤ → Text → Option SendError
  pub format_time : Time → Text
  pub format_clock : Time → Text
  pub format_duration : Duration → Text

pub record Sent : Type 0 where
  pub chat : ℤ
  pub text : Text
  pub error : Option SendError

-- `outbox` holds the messages handed to Telegram, newest first; `notices` the chats for which a
-- goroutine waits to report suppressed alerts.
pub record Server (S : Type 0) : Type 0 where
  pub store : S
  pub node_limit : RateLimiter
  pub admit_limit : RateLimiter
  pub pair_limit : RateLimiter
  pub chat_limit : RateLimiter
  pub suppressed : Dict ℤ ℕ
  pub notices : List ℤ
  pub outbox : List Sent

unfoldable pub new_server : {S : Type 0} → S → Server S
new_server store = record {
  store = store;
  node_limit = new_rate_limiter 60;
  admit_limit = new_rate_limiter 120;
  pair_limit = new_rate_limiter 10;
  chat_limit = new_rate_limiter 20;
  suppressed = [];
  notices = [];
  outbox = [];
}

-- The errors of `notify` and `deliver`.
pub data DeliverError : Type 0 where
  chat_blocked chat_limited send_failed : DeliverError
  lookup_failed mute_failed record_failed : StoreError → DeliverError

-- The icons in UTF-8: information, a green, a red and an orange circle.
abbrev info_icon : Text
info_icon = 0xe2 ∷ 0x84 ∷ 0xb9 ∷ 0xef ∷ 0xb8 ∷ 0x8f ∷ []

abbrev pub green_icon : Text
green_icon = 0xf0 ∷ 0x9f ∷ 0x9f ∷ 0xa2 ∷ []

abbrev pub red_icon : Text
red_icon = 0xf0 ∷ 0x9f ∷ 0x94 ∷ 0xb4 ∷ []

abbrev orange_icon : Text
orange_icon = 0xf0 ∷ 0x9f ∷ 0x9f ∷ 0xa0 ∷ []

-- " · "
abbrev pub dot : Text
dot = 0x20 ∷ 0xc2 ∷ 0xb7 ∷ 0x20 ∷ []

pub icon_of : AlertRequest → Text
icon_of a =
    if a.state == State.ok
    then green_icon
    else if a.state == State.firing && severity_eqb a.severity Severity.critical
    then red_icon
    else if a.state == State.firing
    then orange_icon
    else info_icon

unfoldable pub format_message : Env → Node → AlertRequest → Text
format_message env node a =
    icon_of a
    ++ bytes " "
    ++ bold node.name
    ++ dot
    ++ escape a.title
    ++ (if a.detail == [] then [] else b'\n' ∷ escape a.detail)
    ++ b'\n' ∷ escape (bytes "host " ++ node.host ++ dot ++ env.format_time a.at)

abbrev pub get_count : Option ℕ → ℕ
get_count none = 0
get_count (some n) = n

-- A message that the chat's limit holds back; the first of a burst starts the notice.
unfoldable pub suppress : {S : Type 0} → ℤ → Server S → Server S
suppress chat s =
    let n = suc (get_count (get chat s.suppressed)) in
    record s {
      suppressed = put chat n s.suppressed;
      notices = if nat_eqb n 1 then chat ∷ s.notices else s.notices;
    }

-- `s.tg.Send`
unfoldable pub send : {S : Type 0} → Env → ℤ → Text → Server S → Option SendError × Server S
send env chat text s =
    let e = env.send (length s.outbox) chat text in
    (e, record s { outbox = record { chat = chat; text = text; error = e } ∷ s.outbox })

-- What the goroutine of a notice does when its minute is over.
unfoldable pub send_notice : {S : Type 0} → Env → ℤ → Server S → Server S
send_notice env chat s =
    let n = get_count (get chat s.suppressed) in
    (send env chat
      (escape (
        0xe2 ∷ 0x9a ∷ 0xa0 ∷ 0xef ∷ 0xb8 ∷ 0x8f ∷ bytes " "
        ++ format_nat n
        ++ bytes " alerts suppressed in the last minute (rate limit)."))
      (record s { suppressed = remove chat s.suppressed })).1

unfoldable pub record_error : Result StoreError (Unit {0}) → Option DeliverError
record_error (ok _) = none
record_error (err e) = some (record_failed e)

-- The `switch`: whether there is something to say, after what was sent last.
abbrev pub is_due : Time → AlertRequest → State → Time → Bool
is_due now a last_state last_at =
    let unchanged = a.state == last_state in
    if unchanged && a.state == State.ok
    then false
    else if unchanged && ltb (now - last_at) reminder_every
    then false
    else if a.state == State.ok && last_state == State.other []
    then false
    else true

module _ {S : Type 0} (ops : StoreOps S) (env : Env) where
  -- The outcome of a message to a node's chat: a chat that blocks the bot is marked on the node.
  unfoldable pub after_send : Node → Option SendError → Server S → Option DeliverError × Server S
  after_send node none s = (none, s)
  after_send node (some blocked) s = (
    some chat_blocked,
    record s { store = (ops.update_node (record node { blocked = true }) s.store).1 },
  )
  after_send node (some failed) s = (some send_failed, s)

  -- What follows the test of the chat's limit.
  unfoldable pub notify_if : Bool → Node → Text → Server S → Option DeliverError × Server S
  notify_if true node text s = let (e, s') = send env node.chat_id text s in after_send node e s'
  notify_if false node text s = (some chat_limited, suppress node.chat_id s)

  unfoldable pub notify : Time → Node → Text → Server S → Option DeliverError × Server S
  notify now node text s =
      if node.blocked
      then (some chat_blocked, s)
      else let (admitted, limit) = allow now (format_int node.chat_id) s.chat_limit in
        notify_if admitted node text (record s { chat_limit = limit })

  -- `SetLastSent`, the last step of a delivery.
  unfoldable pub record_sent :
      Time → Node → AlertRequest → Server S → Option DeliverError × Server S
  record_sent now node a s =
      let (r, store) = ops.set_last_sent node.id a.alert a.state now s.store in
      (record_error r, record s { store = store })

  -- A delivery is recorded only after the message was accepted.
  unfoldable pub then_record :
      Time → Node → AlertRequest → Option DeliverError × Server S → Option DeliverError × Server S
  then_record now node a (none, s) = record_sent now node a s
  then_record now node a (some x, s) = (some x, s)

  unfoldable pub send_unmuted :
      Time
      → Node
      → AlertRequest
      → Result StoreError Bool
      → Server S
      → Option DeliverError × Server S
  send_unmuted now node a (err e) s = (some (mute_failed e), s)
  send_unmuted now node a (ok true) s = record_sent now node a s
  send_unmuted now node a (ok false) s =
      then_record now node a (notify now node (format_message env node a) s)

  unfoldable pub deliver_after :
      Time
      → Node
      → AlertRequest
      → Result StoreError (State × Time)
      → Server S
      → Option DeliverError × Server S
  deliver_after now node a (err e) s = (some (lookup_failed e), s)
  deliver_after now node a (ok (last_state, last_at)) s =
      if is_due now a last_state last_at
      then send_unmuted now node a (ops.muted node.id a.alert now s.store) s
      else (none, s)

  unfoldable pub deliver : Time → Node → AlertRequest → Server S → Option DeliverError × Server S
  deliver now node a s =
      if a.state == State.info
      then notify now node (format_message env node a) s
      else deliver_after now node a (ops.last_sent node.id a.alert s.store) s

  -- The loop of `clearBlocked`.
  unfoldable pub unblock_all : List Node → S → S
  unblock_all [] st = st
  unblock_all (n ∷ ns) st =
      unblock_all ns
        (if n.blocked then (ops.update_node (record n { blocked = false }) st).1 else st)

  unfoldable pub clear_blocked : ℤ → Server S → Server S
  clear_blocked chat s = elim (ops.list_nodes chat s.store) [
    | err _ ↦ s
    | ok nodes ↦ record s { store = unblock_all nodes s.store }
  ]

  -- The alert that the relay raises for a silent node.
  unfoldable pub silence_request : AlertInfo → Time → Node → AlertRequest
  silence_request info now n = record {
    alert = bytes "node_silent";
    state = State.firing;
    severity = info.severity;
    title = info.title;
    detail =
        bytes "no heartbeat for "
        ++ env.format_duration (now - n.last_seen)
        ++ bytes " (last seen "
        ++ env.format_clock n.last_seen
        ++ bytes ")";
    at = now;
  }

  -- The loop of `CheckSilent`: a node stays a candidate if its alert could not be delivered.
  unfoldable pub mark_silent : AlertInfo → Time → List Node → Server S → Server S
  mark_silent info now [] s = s
  mark_silent info now (n ∷ ns) s =
      let (e, s1) = deliver now n (silence_request info now n) s in
      mark_silent info now ns (elim e [
        | some _ ↦ s1
        | none ↦ record s1 { store = (ops.update_node (record n { silent = true }) s1.store).1 }
      ])

  -- Nodes whose last request is older than `silent_after` and that are not flagged yet.
  unfoldable pub check_silent : Duration → Time → Server S → Option StoreError × Server S
  check_silent silent_after now s = elim (ops.silent_candidates (now - silent_after) s.store) [
    | err e ↦ (some e, s)
    | ok nodes ↦ (none, mark_silent (info_or_zero (lookup (bytes "node_silent"))) now nodes s)
  ]
