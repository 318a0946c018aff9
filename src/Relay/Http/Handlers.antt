-- ===== src/Relay/Http/Handlers.antt =====
-- The handlers of internal/relay/server.go. One clock reading serves a whole request, and the checks
-- of `authed` that change no state stand together in `authenticate`, in the source's order.
use nomctl.Prelude.{
  Bool, true, false, not, Option, none, some, [], ◌∷◌, ◌++◌, Text, bytes, text_eq, ℤ, Result, ok,
  err, if◌then◌else◌,
}
use nomctl.Time.{Time, is_zero}
use nomctl.AlertProto.{
  State, AlertRequest, PairRequest, empty_summary, valid_alert, lookup, info_or_zero,
}
use nomctl.AlertProto.Sign.{SignError, stale, bad_signature, verify}
use nomctl.Relay.Limiter.{allow}
use nomctl.Relay.Store.{StoreError, not_found, code_invalid, name_taken, Node, StoreOps}
use nomctl.Relay.Markdown.{bold, code}
use nomctl.Relay.Server.{Server, Env, DeliverError, notify, deliver}
use nomctl.Relay.Http.Types.{Request, Response, error, paired, no_content, Codec, Options}
use nomctl.Relay.Http.Names.{valid_name, valid_node_id, new_node_id}
use nomctl.Relay.Http.Client.{client_ip}

abbrev pub sign_message : SignError → Text
sign_message stale = bytes "request timestamp outside the replay window"
sign_message bad_signature = bytes "bad signature"

-- The information icon and a space.
abbrev info_mark : Text
info_mark = 0xe2 ∷ 0x84 ∷ 0xb9 ∷ 0xef ∷ 0xb8 ∷ 0x8f ∷ 0x20 ∷ []

module _ {S : Type 0} (ops : StoreOps S) (env : Env) (codec : Codec) (options : Options) where
  -- The two buffers of random bytes that a pairing reads.
  unfoldable pub node_of : Time → Text → Text → ℤ → PairRequest → Node
  node_of now random_id random_secret chat req = record {
    id = new_node_id random_id;
    chat_id = chat;
    name = req.name;
    host = req.host;
    version = req.version;
    secret = random_secret;
    created = now;
    last_seen = now;
    silent = false;
    blocked = false;
    summary = empty_summary;
  }

  -- The end of a pairing: the node is there, the chat is told, and the failure to tell it is ignored.
  unfoldable pub welcome : Time → Node → Server S → Response × Server S
  welcome now node s =
      let text =
        info_mark
        ++ bold node.name
        ++ bytes " paired and reporting from host "
        ++ code node.host
        ++ bytes "\\." in
      (paired node.id (codec.base64 node.secret), (notify ops env now node text s).1)

  -- `%q` of a valid name is the name in double quotes.
  unfoldable pub create_failed : Text → StoreError → Response
  create_failed name name_taken = error 409 (
      bytes "a node named \""
      ++ name
      ++ bytes "\" is already paired to this chat; choose another name (the code was consumed, "
      ++ bytes "send /start again)")
  create_failed name _ = error 500 (bytes "store error")

  unfoldable pub consume_failed : StoreError → Response
  consume_failed code_invalid =
      error 400 (bytes "pairing code is invalid or expired; send /start to the bot for a new one")
  consume_failed _ = error 500 (bytes "store error")

  unfoldable pub pair_node : Time → Node → Server S → Response × Server S
  pair_node now node s =
      let (r, store) = ops.create_node node s.store in
      let s1 = record s { store = store } in
      elim r [ ok _ ↦ welcome now node s1 | err e ↦ (create_failed node.name e, s1) ]

  unfoldable pub pair_with : Time → Text → Text → PairRequest → Server S → Response × Server S
  pair_with now random_id random_secret req s =
      if not (valid_name req.name)
      then (error 400 (bytes "name must be 1-32 characters: letters, digits, '-', '_' or '.'"), s)
      else let (r, store) =
          ops.consume_code (codec.to_upper (codec.trim_space req.code)) now s.store in
        let s1 = record s { store = store } in
        elim r [
          | err e ↦ (consume_failed e, s1)
          | ok chat ↦ pair_node now (node_of now random_id random_secret chat req) s1
        ]

  -- `json.Unmarshal` of the body that was read.
  unfoldable pub pair_body : Time → Text → Text → Option Text → Server S → Response × Server S
  pair_body now random_id random_secret none s = (error 413 (bytes "body too large"), s)
  pair_body now random_id random_secret (some body) s = elim (codec.pair_request body) [
    | none ↦ (error 400 (bytes "bad json"), s)
    | some req ↦ pair_with now random_id random_secret req s
  ]

  unfoldable pub handle_pair : Time → Text → Text → Request → Server S → Response × Server S
  handle_pair now random_id random_secret r s =
      let (admitted, limit) = allow now (client_ip codec options r) s.pair_limit in
      let s1 = record s { pair_limit = limit } in
      if admitted
      then pair_body now random_id random_secret r.body s1
      else (error 429 (bytes "too many pairing attempts; try again in a minute"), s1)

  abbrev pub Handler : Type 0
  Handler = Time → Node → Text → Server S → Response × Server S

  -- The signature of a request of a known node.
  unfoldable pub check_signature : Time → Request → Node → Text → Result Response (Node × Text)
  check_signature now r node body = elim (codec.parse_int r.timestamp_header) [
    | none ↦ err (error 401 (bytes "bad timestamp"))
    | some ts ↦ elim (verify codec.hmac node.secret ts body r.signature_header now) [
      | none ↦ ok (node, body)
      | some e ↦ err (error 401 (sign_message e))
    ]
  ]

  unfoldable pub find_signer :
      Time → Request → Text → Result StoreError Node → Result Response (Node × Text)
  find_signer now r body (err not_found) = err (error 401 (bytes "unknown node"))
  find_signer now r body (err _) = err (error 500 (bytes "store error"))
  find_signer now r body (ok node) = check_signature now r node body

  unfoldable pub read_signed : Time → Request → Option Text → S → Result Response (Node × Text)
  read_signed now r none store = err (error 413 (bytes "body too large"))
  read_signed now r (some body) store = find_signer now r body (ops.get_node r.node_header store)

  unfoldable pub authenticate : Time → Request → S → Result Response (Node × Text)
  authenticate now r store =
      if not (valid_node_id r.node_header)
      then err (error 401 (bytes "missing node id"))
      else read_signed now r r.body store

  -- The alert that a silent node is back. If it cannot be delivered, the node is flagged again.
  unfoldable pub recovery : Time → AlertRequest
  recovery now =
      let info = info_or_zero (lookup (bytes "node_silent")) in
      record {
        alert = bytes "node_silent";
        state = State.ok;
        severity = info.severity;
        title = info.ok_title;
        detail = [];
        at = now;
      }

  unfoldable pub after_recovery : Node → Option DeliverError × Server S → Node × Server S
  after_recovery node (none, s) = (node, s)
  after_recovery node (some _, s) =
      let again = record node { silent = true } in
      (again, record s { store = (ops.update_node again s.store).1 })

  unfoldable pub recover : Time → Bool → Node → Server S → Node × Server S
  recover now was_silent node s =
      if was_silent
      then after_recovery node (deliver ops env now node (recovery now) s)
      else (node, s)

  unfoldable pub serve_node : Handler → Time → Node → Text → Server S → Response × Server S
  serve_node h now node body s =
      let seen = record node { last_seen = now; silent = false } in
      let (r, store) = ops.update_node seen s.store in
      let s1 = record s { store = store } in
      elim r [
        | err _ ↦ (error 500 (bytes "store error"), s1)
        | ok _ ↦ (let (node', s2) = recover now node.silent seen s1 in h now node' body s2)
      ]

  -- Only a request that is proven to come from the node counts against it.
  unfoldable pub limit_node : Handler → Time → Node × Text → Server S → Response × Server S
  limit_node h now (node, body) s =
      let (admitted, limit) = allow now node.id s.node_limit in
      let s1 = record s { node_limit = limit } in
      if admitted then serve_node h now node body s1 else (error 429 (bytes "rate limited"), s1)

  unfoldable pub authed : Handler → Time → Request → Server S → Response × Server S
  authed h now r s =
      let (admitted, limit) = allow now (client_ip codec options r) s.admit_limit in
      let s1 = record s { admit_limit = limit } in
      if admitted
      then (elim (authenticate now r s1.store) [
        | err response ↦ (response, s1)
        | ok signed ↦ limit_node h now signed s1
      ])
      else (error 429 (bytes "rate limited"), s1)

  abbrev pub alert_response : Option DeliverError → Response
  alert_response none = no_content
  alert_response (some _) = error 502 (bytes "delivery failed")

  unfoldable pub handle_alert : Handler
  handle_alert now node body s = elim (codec.alert_request body) [
    | none ↦ (error 400 (bytes "bad alert"), s)
    | some req ↦
        if valid_alert req
        then (let at = if is_zero req.at then now else req.at in
            let (e, s1) = deliver ops env now node (record req { at = at }) s in
            (alert_response e, s1))
        else (error 400 (bytes "bad alert"), s)
  ]

  abbrev pub store_response : Result StoreError (Unit {0}) → Response
  store_response (ok _) = no_content
  store_response (err _) = error 500 (bytes "store error")

  unfoldable pub handle_heartbeat : Handler
  handle_heartbeat now node body s = elim (codec.heartbeat_request body) [
    | none ↦ (error 400 (bytes "bad heartbeat"), s)
    | some req ↦
        let (r, store) = ops.update_node (record node { summary = req.summary }) s.store in
        (store_response r, record s { store = store })
  ]

  -- The chat is told also where the node was gone already.
  unfoldable pub goodbye : Time → Node → Server S → Response × Server S
  goodbye now node s = (
    no_content,
    (notify ops env now node (info_mark ++ bold node.name ++ bytes " unpaired\\.") s).1,
  )

  unfoldable pub after_delete :
      Result StoreError (Unit {0}) → Time → Node → Server S → Response × Server S
  after_delete (ok _) now node s = goodbye now node s
  after_delete (err not_found) now node s = goodbye now node s
  after_delete (err _) now node s = (error 500 (bytes "store error"), s)

  unfoldable pub handle_unpair : Handler
  handle_unpair now node body s =
      let (r, store) = ops.delete_node node.id s.store in
      after_delete r now node (record s { store = store })
