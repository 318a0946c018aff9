-- ===== src/Relay/Commands.antt =====
-- The bot's commands of internal/relay/commands.go. `now` is the server's clock, and `wall` the reading
-- that the store takes of its own.
pub mod Chats
use nomctl.Prelude.{
  ℕ, ◌+◌, ◌*◌, Bool, true, false, not, ◌||◌, Option, none, some, List, [], ◌∷◌, ◌++◌, map, Text,
  bytes, text_eq, nat_eq, int_eq, ◌==◌, ℤ, pos, Result, ok, err, starts_with, if◌then◌else◌, ◌-◌,
  ◌%◌, ◌^◌, ltb,
}
use nomctl.Time.{Time, Duration, minute, hour}
use nomctl.AlertProto.{alerts, lookup}
use nomctl.Relay.Store.{StoreError, too_many_codes, Node, StoreOps}
use nomctl.Metrics.{Floats}
use nomctl.Relay.Card.{node_card}
use nomctl.Relay.Markdown.{escape, code}
use nomctl.Relay.Server.{Env, SendError, Server, send, clear_blocked}
use nomctl.Relay.Http.Names.{new_code}

-- A message of a chat.
pub record Update : Type 0 where
  pub chat_id : ℤ
  pub text : Text

-- What the commands take from the standard library, float64 and the
-- server's public address: none where it has no host. `parse_duration` and `atoi` give none for
-- what is not positive, where the source refuses it. A number of days is multiplied in 64 bits.
pub record Lang : Type 0 where
  pub fields : Text → List Text
  pub to_lower : Text → Text
  pub equal_fold : Text → Text → Bool
  pub quote : Text → Text
  pub atoi : Text → Option ℕ
  pub parse_duration : Text → Option Duration
  pub floats : Floats
  pub public_url : Text
  pub url_host : Text → Option Text

-- `t.Add(d)` for a duration as its 64 bits, of which the upper half is negative.
unfoldable pub add : Time → Duration → Time
add t d = if ltb d (2 ^ 63) then t + d else t - (2 ^ 64 - d)

-- A command's reply, or its error.
abbrev pub Reply : Type 0 → Type 0
Reply S = Result StoreError Text × Server S

abbrev pub code_ttl : Duration
code_ttl = 10 * minute

abbrev pub day : Duration
day = 24 * hour

abbrev help_text : Text
help_text =
    bytes "*nomctl alerts bot*"
    ++ 10 ∷ 10 ∷ bytes "/start \\- get a pairing code for a new node"
    ++ 10 ∷ bytes "/nodes \\- list your paired nodes"
    ++ 10
      ∷ bytes "/mute NAME ALERT \\[DURATION\\] \\- silence an alert \\(or \"all\"\\), default 24h"
    ++ 10 ∷ bytes "/unmute NAME ALERT \\- resume an alert \\(or \"all\"\\)"
    ++ 10 ∷ bytes "/unpair NAME \\- forget a node"
    ++ 10 ∷ bytes "/help \\- this text"
    ++ 10 ∷ 10 ∷ bytes "Pair a node with: `sudo nomctl alerts setup`"

unfoldable pub privacy_notice : Text → Text
privacy_notice relay_host =
    bytes "Privacy notice: once paired, your node sends a heartbeat to "
    ++ relay_host
    ++ bytes
        " every 30 seconds and forwards alerts through it. The relay operator can see your node's public IP address, host name, node name and status summary. The IP address is used only to rate-limit pairing and is not stored in the relay database, but it is visible to the relay and may appear in the logs of the proxy in front of it. If your pillar's IP address must stay private, run your own relay (see the docs) or do not pair."

-- `cmd[:i]` for the first '@' at `i > 0`.
unfoldable pub before_at : Text → Text
before_at [] = []
before_at (c ∷ s) = let rest = before_at s in if c == b'@' then [] else c ∷ rest

unfoldable pub strip_bot : Text → Text
strip_bot cmd = if before_at cmd == [] then cmd else before_at cmd

-- The text without a last "d", if it has one.
unfoldable pub trim_d : Text → Option Text
trim_d [] = none
trim_d (c ∷ []) = if c == b'd' then some [] else none
trim_d (c ∷ d ∷ s) = elim (trim_d (d ∷ s)) [ none ↦ none | some t ↦ some (c ∷ t) ]

unfoldable pub valid_mute_alert : Text → Bool
valid_mute_alert name = name == bytes "all" || (elim (lookup name) [ none ↦ false | some _ ↦ true ])

unfoldable pub join_with : Text → List Text → Text
join_with sep [] = []
join_with sep (t ∷ []) = t
join_with sep (t ∷ u ∷ ts) = t ++ sep ++ join_with sep (u ∷ ts)

unfoldable pub alert_names : List Text
alert_names = map (λ a. a.name) alerts

module _ (lang : Lang) where
  unfoldable pub relay_host : Text
  relay_host = elim (lang.url_host lang.public_url) [ none ↦ bytes "the relay" | some h ↦ h ]

  unfoldable pub parse_mute_duration : Text → Option Duration
  parse_mute_duration s = elim (trim_d s) [
    | some number ↦ elim (lang.atoi number) [ none ↦ none | some n ↦ some (n * day % 2 ^ 64) ]
    | none ↦ lang.parse_duration s
  ]

  unfoldable pub find_named : Text → List Node → Option Node
  find_named name [] = none
  find_named name (n ∷ ns) =
      let rest = find_named name ns in if lang.equal_fold n.name name then some n else rest

  unfoldable pub no_node : Text → Text
  no_node name =
      escape (bytes "No node named " ++ lang.quote name ++ bytes " in this chat. See /nodes.")

  unfoldable pub unknown_alert_text : Text → Text
  unknown_alert_text alert = escape (
      bytes "Unknown alert "
      ++ lang.quote alert
      ++ bytes ". Use one of: "
      ++ join_with (bytes ", ") alert_names
      ++ bytes ", or all.")

  module _ {S : Type 0} (ops : StoreOps S) (env : Env) where
    -- What a command does with the node that was looked for.
    unfoldable pub on_node : Text → Server S → (Node → Reply S) → Option Node → Reply S
    on_node name s run none = (ok (no_node name), s)
    on_node name s run (some n) = run n

    -- `findNode`, and what follows it.
    unfoldable pub on_nodes :
        Text → Server S → (Node → Reply S) → Result StoreError (List Node) → Reply S
    on_nodes name s run (err e) = (err e, s)
    on_nodes name s run (ok nodes) = on_node name s run (find_named name nodes)

    unfoldable pub with_node : ℤ → Text → Server S → (Node → Reply S) → Reply S
    with_node chat name s run = on_nodes name s run (ops.list_nodes chat s.store)

    unfoldable pub start_text : Text → Text
    start_text pairing_code =
        escape (privacy_notice relay_host)
        ++ 10 ∷ 10 ∷ bytes "Your pairing code is "
        ++ code pairing_code
        ++ bytes " \\(valid 10 minutes\\)\\."
        ++ 10 ∷ 10 ∷ bytes "On the node run:"
        ++ 10 ∷ code (bytes "sudo nomctl alerts setup --code " ++ pairing_code)
        ++ 10 ∷ 10 ∷ bytes "and enter the code when asked\\."
        ++ (if lang.public_url == []
            then []
            else 10 ∷ 10 ∷ bytes "Relay: " ++ escape lang.public_url)

    -- What `/start` replies, after the store's answer.
    unfoldable pub start_reply : Text → Result StoreError (Unit {0}) → Result StoreError Text
    start_reply pairing_code (ok _) = ok (start_text pairing_code)
    start_reply pairing_code (err too_many_codes) = ok (
        escape (
          bytes
            "You already have several unused pairing codes. Use one of them, or wait 10 minutes."))
    start_reply pairing_code (err e) = err e

    unfoldable pub cmd_start : Time → Time → Text → ℤ → Server S → Reply S
    cmd_start wall now random chat s =
        let pairing_code = new_code random in
        let (r, store) = ops.create_code wall chat pairing_code (now + code_ttl) s.store in
        (start_reply pairing_code r, record s { store = store })

    unfoldable pub nodes_text : Time → List Node → Text
    nodes_text now [] =
        escape (bytes "No nodes paired with this chat yet. Send /start to get a pairing code.")
    nodes_text now (n ∷ ns) =
        join_with (10 ∷ 10 ∷ []) (map (λ m. node_card lang.floats m now) (n ∷ ns))

    unfoldable pub cmd_nodes : Time → ℤ → Server S → Reply S
    cmd_nodes now chat s = elim (ops.list_nodes chat s.store) [
      | err e ↦ (err e, s)
      | ok nodes ↦ (ok (nodes_text now nodes), s)
    ]

    abbrev stored : Text → Result StoreError (Unit {0}) × S → Server S → Reply S
    stored text (ok _, store) s = (ok text, record s { store = store })
    stored text (err e, store) s = (err e, record s { store = store })

    -- The duration of a mute: a day, if none is given.
    unfoldable pub mute_duration : List Text → Option Duration
    mute_duration [] = some day
    mute_duration (t ∷ _) = parse_mute_duration t

    unfoldable pub mute_node : Time → Text → List Text → Node → Server S → Reply S
    mute_node now arg rest node s =
        let alert = lang.to_lower arg in
        if not (valid_mute_alert alert)
        then (ok (unknown_alert_text arg), s)
        else (elim (mute_duration rest) [
          | none ↦ (ok (escape (bytes "Duration must look like 30m, 2h, 1d.")), s)
          | some d ↦
              stored
                (escape (
                  bytes "Muted "
                  ++ alert
                  ++ bytes " on "
                  ++ node.name
                  ++ bytes " for "
                  ++ env.format_duration d
                  ++ bytes "."))
                (ops.set_mute (record { node_id = node.id; alert = alert; until = add now d })
                  s.store)
                s
        ])

    unfoldable pub cmd_mute : Time → ℤ → List Text → Server S → Reply S
    cmd_mute now chat (name ∷ arg ∷ rest) s =
        with_node chat name s (λ n. mute_node now arg rest n s)
    cmd_mute now chat _ s = (
      ok (escape (bytes "Usage: /mute NAME ALERT [DURATION], e.g. /mute pillar-1 disk_low 2d")),
      s,
    )

    unfoldable pub unmute_node : Text → Node → Server S → Reply S
    unmute_node arg node s =
        let alert = lang.to_lower arg in
        if not (valid_mute_alert alert)
        then (ok (unknown_alert_text arg), s)
        else stored (escape (bytes "Unmuted " ++ alert ++ bytes " on " ++ node.name ++ bytes "."))
            (ops.clear_mute node.id alert s.store) s

    unfoldable pub cmd_unmute : ℤ → List Text → Server S → Reply S
    cmd_unmute chat (name ∷ arg ∷ rest) s = with_node chat name s (λ n. unmute_node arg n s)
    cmd_unmute chat _ s = (ok (escape (bytes "Usage: /unmute NAME ALERT")), s)

    unfoldable pub unpair_node : Node → Server S → Reply S
    unpair_node node s =
        stored
          (escape (
            bytes "Unpaired "
            ++ node.name
            ++ bytes
                ". Its alerts daemon will stop reporting; run `sudo nomctl alerts setup` on the node to pair again."))
          (ops.delete_node node.id s.store) s

    unfoldable pub cmd_unpair : ℤ → List Text → Server S → Reply S
    cmd_unpair chat (name ∷ rest) s = with_node chat name s (λ n. unpair_node n s)
    cmd_unpair chat [] s = (ok (escape (bytes "Usage: /unpair NAME")), s)

    -- The `switch` over the command.
    unfoldable pub run_command : Time → Time → Text → ℤ → Text → List Text → Server S → Reply S
    run_command wall now random chat cmd args s =
        if cmd == bytes "/start"
        then cmd_start wall now random chat s
        else if cmd == bytes "/nodes"
        then cmd_nodes now chat s
        else if cmd == bytes "/mute"
        then cmd_mute now chat args s
        else if cmd == bytes "/unmute"
        then cmd_unmute chat args s
        else if cmd == bytes "/unpair"
        then cmd_unpair chat args s
        else (ok help_text, s)

    unfoldable pub reply_text : Result StoreError Text → Text
    reply_text (ok t) = t
    reply_text (err _) = escape (bytes "Something went wrong; please try again.")

    -- A text that begins with a slash has a first field.
    unfoldable pub run_fields : Time → Time → Text → ℤ → List Text → Server S → Reply S
    run_fields wall now random chat [] s = (ok help_text, s)
    run_fields wall now random chat (cmd ∷ args) s =
        run_command wall now random chat (strip_bot (lang.to_lower cmd)) args s

    unfoldable pub handle_update :
        Time → Time → Text → Update → Server S → Option SendError × Server S
    handle_update wall now random u s =
        if u.chat_id == pos 0 || not (starts_with (bytes "/") u.text)
        then (none, s)
        else let s1 = clear_blocked ops env u.chat_id s in
          let (r, s2) = run_fields wall now random u.chat_id (lang.fields u.text) s1 in
          send env u.chat_id (reply_text r) s2
