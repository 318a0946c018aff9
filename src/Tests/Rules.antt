-- ===== src/Tests/Rules.antt =====
-- Renderings, thresholds and rules. Float64 values are whole numbers here.
use nomctl.Metrics.{scale}
use nomctl.Metrics.Units.{IsUnitOf, scale-IsUnitOf}
use nomctl.Prelude.{
  ℕ, ◌+◌, ◌*◌, ◌/◌, ◌≡◌, inl, inr, refl, true, false, Option, none, some, [], ◌∷◌, Text, bytes,
  text_eq, ltb, format_nat, format_int, digits, arith, ok, pos,
}
use nomctl.Prelude.Dict.{get, put}
use nomctl.Time.{minute, second}
use nomctl.AlertProto.Sign.{unix_epoch}
use nomctl.AlertProto.Sign.Laws.{AreBytes}
use nomctl.Relay.Store.{Node}
use nomctl.Relay.Store.Memory.{MemoryStore, new_memory_store, memory, create_node, get_node}
use nomctl.Relay.Http.Names.{valid_node_id}
use nomctl.Relay.Http.Handlers.{authenticate}
use nomctl.Metrics.{Floats}
use nomctl.Alerts.Sample.{Sample}
use nomctl.Alerts.Config.{RuleConfig, threshold}
use nomctl.Alerts.Daemon.{drop_before}
use nomctl.Alerts.Rules.{is_active, minutes}
use nomctl.Alerts.Rules.Lasting.{rpc_unreachable, momentums_stalled}
use nomctl.Alerts.Rules.History.{since, covers, after_rollover}
use nomctl.Alerts.Rules.Windows.{momentums_stalled-firing}
use nomctl.Alerts.Client.{signed_request}
use nomctl.Alerts.Client.Accepted.{authenticate-signed_request}
use nomctl.Relay.Telegram.{Reply, Api, send_message}
use nomctl.Relay.Telegram.Attempts.{RepeatsUnprocessed, send_message-RepeatsUnprocessed}
use nomctl.Tests.Alerts.{sample}
use nomctl.Tests.Relay.{node, answering, codec, options}

abbrev pub floats : Floats
floats = record {
  of_nat = λ n. n;
  to_nat = λ x. x;
  times = λ x y. x * y;
  over = λ x y. x / y;
  gt = λ x y. ltb y x;
  whole = format_nat;
  one_decimal = format_nat;
}

-- Six minutes of samples, a minute apart, in which RPC does not answer.
abbrev dead : ℕ → Sample
dead m = record sample { taken = m * minute; node = record sample.node { reachable = false } }

abbrev stuck : ℕ → Sample
stuck m = record sample { taken = m * minute; node = record sample.node { current_height = 7 } }

abbrev rule_cfg : RuleConfig
rule_cfg = record { enabled = true; thresholds = (bytes "minutes", 2) ∷ [] }

rpc_fires : (rpc_unreachable floats (dead 1 ∷ dead 2 ∷ dead 3 ∷ []) rule_cfg).firing ≡ true
unfolding rpc_unreachable minutes threshold since covers drop_before get
rpc_fires = refl

rpc_minutes : minutes floats rule_cfg (bytes "rpc_unreachable") (bytes "minutes") ≡ 2 * minute
unfolding minutes threshold get
rpc_minutes = refl

stall_fires : (momentums_stalled floats (stuck 1 ∷ stuck 2 ∷ stuck 3 ∷ []) rule_cfg).firing ≡ true
unfolding momentums_stalled minutes threshold since covers drop_before get
stall_fires = refl

stall_minutes : minutes floats rule_cfg (bytes "momentums_stalled") (bytes "minutes") ≡ 2 * minute
unfolding minutes threshold get
stall_minutes = refl

momentums_stalled-firing_example :
    ((stuck 1).node.current_height ≡ (stuck 2).node.current_height)
    × ((is_active (stuck 1) ≡ true) × ((stuck 1).node.reachable ≡ true))
    × ((is_active (stuck 2) ≡ true) × ((stuck 2).node.reachable ≡ true))
momentums_stalled-firing_example =
    momentums_stalled-firing floats (stuck 1) (stuck 2 ∷ stuck 3 ∷ []) rule_cfg (stuck 1) (stuck 2)
      stall_fires (inl refl) (inr (inl refl)) (omega (arith, stall_minutes))
      (omega (arith, stall_minutes))

-- An epoch ends between the first two samples.
abbrev epoch : ℕ → Sample
epoch n = record sample {
  node = record sample.node { pillar = record sample.node.pillar { expected = n } };
}

rollover : after_rollover (epoch 90 ∷ epoch 2 ∷ epoch 5 ∷ []) ≡ epoch 2 ∷ epoch 5 ∷ []
unfolding after_rollover
rollover = refl

abbrev api : Api
api = record {
  reply =
      λ n. Reply.answered (record { status = 429; api_ok = false; result = []; retry_after = 3 });
  cancelled_at = λ n. false;
}

send_message-RepeatsUnprocessed_example : RepeatsUnprocessed api (send_message api).tried
send_message-RepeatsUnprocessed_example = send_message-RepeatsUnprocessed api

mac_bytes : (k m : Text) → AreBytes (codec.hmac k m)
mac_bytes k m = (omega arith, tt)

abbrev paired_node : Node
paired_node = record node { id = bytes "n_0123456789abcdef" }

abbrev paired_store : MemoryStore
paired_store = (create_node paired_node new_memory_store).1

id_is_valid : valid_node_id paired_node.id ≡ true
unfolding valid_node_id
id_is_valid = refl

node_is_known : get_node paired_node.id paired_store ≡ ok paired_node
unfolding get_node get create_node put
node_is_known = refl

-- The codec reads a timestamp by its length.
timestamp_is_read : codec.parse_int (format_int (pos 1)) ≡ some (pos 1)
unfolding format_int format_nat digits
timestamp_is_read = refl

authenticate-signed_request_example :
    authenticate memory
      (answering none)
      codec
      options
      ((unix_epoch + 1) * second)
      (signed_request codec.hmac
        (record { node_id = paired_node.id; secret = paired_node.secret })
        (bytes "p")
        []
        (pos 1)
        (bytes "{}"))
      paired_store
    ≡ ok (paired_node, bytes "{}")
authenticate-signed_request_example =
    authenticate-signed_request memory (answering none) codec options mac_bytes paired_node
      paired_store (bytes "p") [] (bytes "{}") (pos 1) ((unix_epoch + 1) * second) (omega arith)
      id_is_valid node_is_known timestamp_is_read
      (record { not_old = omega arith; not_ahead = omega arith })

abbrev decode : Text → Option Text
decode body = some body

abbrev unauthorized : ℕ
unauthorized = 401

scale-IsUnitOf_example : IsUnitOf 5000000 (scale 6 (5000000 / 1024) 1024 0)
scale-IsUnitOf_example = scale-IsUnitOf 5000000 (omega arith) (omega arith)
