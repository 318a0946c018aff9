-- ===== src/Relay/Http/Auth.antt =====
-- What an authenticated request must show before the relay acts on it, over any store.
use nomctl.Prelude.{
  ◌≡◌, ◌⊎◌, inl, inr, refl, subst, ◌↔◌, true, Option, none, some, Text, text_eq, ℤ, Result, ok, err,
  arith, Bool-cases, Option-cases,
}
use nomctl.Time.{Time}
use nomctl.AlertProto.Sign.{verify}
use nomctl.Relay.Limiter.{allow}
use nomctl.Relay.Store.{StoreError, Node, StoreOps}
use nomctl.Relay.Server.{Server, Env}
use nomctl.Relay.Http.Types.{Request, Codec, Options}
use nomctl.Relay.Http.Names.{valid_node_id}
use nomctl.Relay.Http.Client.{client_ip}
use nomctl.Relay.Http.Handlers.{
  check_signature, find_signer, read_signed, authenticate, authed, Handler,
}

module _ {S : Type 0} (ops : StoreOps S) (env : Env) (codec : Codec) (options : Options) where
  -- The request names a node of the store, and its signature and timestamp are those of that node.
  pub record IsSigned (now : Time) (r : Request) (store : S) (signed : Node × Text) : Type 0 where
    pub valid_id : valid_node_id r.node_header ≡ true
    pub body : r.body ≡ some signed.1
    pub node : ops.get_node r.node_header store ≡ ok signed.0
    pub signature :
        (ts : ℤ) × (codec.parse_int r.timestamp_header ≡ some ts)
        × (verify codec.hmac signed.0.secret ts signed.1 r.signature_header now ≡ none)

  check_signature→verify :
      (now : Time) (r : Request) (node : Node) (body : Text) (signed : Node × Text)
      → check_signature ops env codec options now r node body ≡ ok signed
      → ((node, body) ≡ signed)
        × ((ts : ℤ) × (codec.parse_int r.timestamp_header ≡ some ts)
            × (verify codec.hmac node.secret ts body r.signature_header now ≡ none))
  unfolding check_signature
  check_signature→verify now r node body signed h =
      elim (Option-cases (codec.parse_int r.timestamp_header)) [
        | inl bad ↦ absurd (ground arith)
        | inr (ts, parsed) ↦
            elim (Option-cases (verify codec.hmac node.secret ts body r.signature_header now)) [
              | inl good ↦ (ground arith, (ts, parsed, good))
              | inr (e, bad) ↦ absurd (ground arith)
            ]
      ]

  find_signer→node :
      (now : Time) (r : Request) (body : Text) (found : Result StoreError Node)
      (signed : Node × Text)
      → find_signer ops env codec options now r body found ≡ ok signed
      → (node : Node) × (found ≡ ok node)
        × (check_signature ops env codec options now r node body ≡ ok signed)
  unfolding find_signer
  find_signer→node now r body (err e) signed h = absurd (ground arith)
  find_signer→node now r body (ok node) signed h = (node, refl, h)

  read_signed→IsSigned :
      (now : Time) (r : Request) (content : Option Text) (store : S) (signed : Node × Text)
      → r.body ≡ content
      → valid_node_id r.node_header ≡ true
      → read_signed ops env codec options now r content store ≡ ok signed
      → IsSigned now r store signed
  unfolding read_signed
  read_signed→IsSigned now r none store signed e valid h = absurd (ground arith)
  read_signed→IsSigned now r (some body) store signed e valid h =
      let (node, found, checked) =
        find_signer→node now r body (ops.get_node r.node_header store) signed h in
      let (same, signature) = check_signature→verify now r node body signed checked in
      subst (IsSigned now r store) same
        (record { valid_id = valid; body = e; node = found; signature = signature })

  authenticate→IsSigned :
      (now : Time) (r : Request) (store : S) (signed : Node × Text)
      → authenticate ops env codec options now r store ≡ ok signed
      → IsSigned now r store signed
  unfolding authenticate
  authenticate→IsSigned now r store signed h = elim (Bool-cases (valid_node_id r.node_header)) [
    | inl valid ↦ read_signed→IsSigned now r r.body store signed refl valid (rw valid at h)
    | inr bad ↦ absurd (ground arith)
  ]

  IsSigned→authenticate :
      (now : Time) (r : Request) (store : S) (signed : Node × Text)
      → IsSigned now r store signed
      → authenticate ops env codec options now r store ≡ ok signed
  unfolding authenticate read_signed find_signer check_signature
  IsSigned→authenticate now r store signed v =
      let (ts, parsed, good) = v.signature in ground (arith, v.valid_id, v.body, v.node)

  -- A request passes the checks exactly if its id is well formed and names a node of the store, its body
  -- was read, and its signature is that node's over its timestamp and body, within the replay window.
  pub authenticate_iff :
      (now : Time) (r : Request) (store : S) (signed : Node × Text)
      → (authenticate ops env codec options now r store ≡ ok signed) ↔ IsSigned now r store signed
  authenticate_iff now r store signed =
      (authenticate→IsSigned now r store signed, IsSigned→authenticate now r store signed)

  Result-cases {ℓ κ} :
      {E : Type ℓ} {A : Type κ} (r : Result E A) → ((e : E) × (r ≡ err e)) ⊎ ((a : A) × (r ≡ ok a))
  Result-cases (err e) = inl (e, refl)
  Result-cases (ok a) = inr (a, refl)

  -- A request that is not signed by a node of the store leaves the server as it is but for the
  -- limiter of its address, whatever the handler would do.
  pub authed_unsigned :
      (h : Handler ops env codec options) (now : Time) (r : Request) (s : Server S)
      → ((signed : Node × Text) → ¬ IsSigned now r s.store signed)
      → (authed ops env codec options h now r s).1
        ≡ record s { admit_limit = (allow now (client_ip codec options r) s.admit_limit).1 }
  unfolding authed
  authed_unsigned h now r s unsigned =
      elim (Result-cases (authenticate ops env codec options now r s.store)) [
        | inl (response, refused) ↦ ground arith
        | inr (signed, passed) ↦
            absurd (unsigned signed (authenticate→IsSigned now r s.store signed passed))
      ]
