-- ===== src/Relay/Server/Delivery.antt =====
-- When an alert is sent to a chat, and what is remembered of it.
use nomctl.Prelude.{
  ◌+◌, ◌<◌, ◌≡◌, ◌≢◌, ◌⊎◌, refl, Bool, true, false, Option, none, some, List, [], ◌∷◌, Text,
  text_eq, ℤ, format_int, Result, ok, err, arith, ◌==◌, eqb_ne, ◌∙◌, inl, inr, if_cases,
  if◌then◌else◌,
}
use nomctl.Time.{Time}
use nomctl.AlertProto.{State, state_eq, state_eqb_iff, AlertRequest}
use nomctl.Relay.Limiter.{allow}
use nomctl.Relay.Store.{StoreError, Node, StoreOps}
use nomctl.Relay.Server.{
  Server, Sent, Env, SendError, blocked, failed, DeliverError, chat_blocked, reminder_every,
  format_message, is_due, send, suppress, after_send, notify_if, notify, record_sent, then_record,
  send_unmuted, deliver_after, deliver,
}

-- At most one message, to the node's chat and with that text.
abbrev pub OneMessage : Node → Text → List Sent → List Sent → Type 0
OneMessage node text before after =
    (after ≡ before)
    ⊎ ((e : Option SendError) × (after
          ≡ record { chat = node.chat_id; text = text; error = e } ∷ before))

not_due :
    (now : Time) (a : AlertRequest) (st : State) (at : Time)
    → ((a.state ≡ st) × (a.state ≡ State.ok))
      ⊎ ((a.state ≡ st) × (now < at + reminder_every))
      ⊎ ((a.state ≡ State.ok) × (st ≡ State.other []))
    → is_due now a st at ≡ false
not_due now a st at quiet = ground (
  arith,
  state_eqb_iff a.state st,
  state_eqb_iff a.state State.ok,
  state_eqb_iff st (State.other []),
)

module _ {S : Type 0} (ops : StoreOps S) (env : Env) where
  outbox-after_send :
      (node : Node) (e : Option SendError) (s : Server S)
      → (after_send ops env node e s).1.outbox ≡ s.outbox
  unfolding after_send
  outbox-after_send node none s = refl
  outbox-after_send node (some blocked) s = refl
  outbox-after_send node (some failed) s = refl

  outbox-send_text :
      (node : Node) (text : Text) (s : Server S)
      → let (e, s2) = send env node.chat_id text s in
        (after_send ops env node e s2).1.outbox
        ≡ record { chat = node.chat_id; text = text; error = e } ∷ s.outbox
  unfolding send
  outbox-send_text node text s = outbox-after_send node _ _

  outbox-suppress : (chat : ℤ) (s : Server S) → (suppress chat s).outbox ≡ s.outbox
  unfolding suppress
  outbox-suppress chat s = refl

  OneMessage-notify_if :
      (admitted : Bool) (node : Node) (text : Text) (s : Server S)
      → OneMessage node text s.outbox (notify_if ops env admitted node text s).1.outbox
  unfolding notify_if
  OneMessage-notify_if true node text s =
      inr ((send env node.chat_id text s).0, outbox-send_text node text s)
  OneMessage-notify_if false node text s = inl (outbox-suppress node.chat_id s)

  OneMessage-notify :
      (now : Time) (node : Node) (text : Text) (s : Server S)
      → OneMessage node text s.outbox (notify ops env now node text s).1.outbox
  unfolding notify
  OneMessage-notify now node text s =
      let (admitted, limit) = allow now (format_int node.chat_id) s.chat_limit in
      if_cases (λ (r : Option DeliverError × Server S). OneMessage node text s.outbox r.1.outbox)
        node.blocked (some chat_blocked, s) _ (λ _. inl refl)
        (λ _. OneMessage-notify_if admitted node text (record s { chat_limit = limit }))

  outbox-record_sent :
      (now : Time) (node : Node) (a : AlertRequest) (s : Server S)
      → (record_sent ops env now node a s).1.outbox ≡ s.outbox
  unfolding record_sent
  outbox-record_sent now node a s = refl

  outbox-then_record :
      (now : Time) (node : Node) (a : AlertRequest) (r : Option DeliverError × Server S)
      → (then_record ops env now node a r).1.outbox ≡ r.1.outbox
  unfolding then_record
  outbox-then_record now node a (none, s) = outbox-record_sent now node a s
  outbox-then_record now node a (some x, s) = refl

  OneMessage-send_unmuted :
      (now : Time) (node : Node) (a : AlertRequest) (m : Result StoreError Bool) (s : Server S)
      → OneMessage node
          (format_message env node a)
          s.outbox
          (send_unmuted ops env now node a m s).1.outbox
  unfolding send_unmuted
  OneMessage-send_unmuted now node a (err e) s = inl refl
  OneMessage-send_unmuted now node a (ok true) s = inl (outbox-record_sent now node a s)
  OneMessage-send_unmuted now node a (ok false) s =
      rw outbox-then_record (OneMessage-notify now node (format_message env node a) s)

  OneMessage-deliver_after :
      (now : Time) (node : Node) (a : AlertRequest) (last : Result StoreError (State × Time))
      (s : Server S)
      → OneMessage node
          (format_message env node a)
          s.outbox
          (deliver_after ops env now node a last s).1.outbox
  unfolding deliver_after
  OneMessage-deliver_after now node a (err e) s = inl refl
  OneMessage-deliver_after now node a (ok (st, at)) s =
      if_cases
        (λ (r : Option DeliverError × Server S).
          OneMessage node (format_message env node a) s.outbox r.1.outbox)
        (is_due now a st at) _ (none, s)
        (λ _. OneMessage-send_unmuted now node a (ops.muted node.id a.alert now s.store) s)
        (λ _. inl refl)

  -- A delivery hands Telegram at most one message: the alert's, to the chat of its node.
  pub OneMessage-deliver :
      (now : Time) (node : Node) (a : AlertRequest) (s : Server S)
      → OneMessage node (format_message env node a) s.outbox (deliver ops env now node a s).1.outbox
  unfolding deliver
  OneMessage-deliver now node a s =
      if_cases
        (λ (r : Option DeliverError × Server S).
          OneMessage node (format_message env node a) s.outbox r.1.outbox)
        (a.state == State.info) _ _ (λ _. OneMessage-notify now node (format_message env node a) s)
        (λ _. OneMessage-deliver_after now node a (ops.last_sent node.id a.alert s.store) s)

  -- For an alert that is no event, what is done depends on the record of what was sent last.
  pub deliver_known :
      (now : Time) (node : Node) (a : AlertRequest) (s : Server S) (st : State) (at : Time)
      → a.state ≢ State.info
      → ops.last_sent node.id a.alert s.store ≡ ok (st, at)
      → deliver ops env now node a s ≡ (
          if is_due now a st at
          then send_unmuted ops env now node a (ops.muted node.id a.alert now s.store) s
          else (none, s))
  unfolding deliver
  deliver_known now node a s st at event last =
      rw (eqb_ne a.state State.info event) (rw last (unfold deliver_after in refl))

  -- Nothing is sent, stored or counted where the alert is no event, the store answers what was sent
  -- last, and there is nothing new to say: it is still ok, it is as it was and the reminder is not
  -- due, or it is ok and never fired.
  pub deliver_quiet :
      (now : Time) (node : Node) (a : AlertRequest) (s : Server S) (st : State) (at : Time)
      → a.state ≢ State.info
      → ops.last_sent node.id a.alert s.store ≡ ok (st, at)
      → ((a.state ≡ st) × (a.state ≡ State.ok))
        ⊎ ((a.state ≡ st) × (now < at + reminder_every))
        ⊎ ((a.state ≡ State.ok) × (st ≡ State.other []))
      → deliver ops env now node a s ≡ (none, s)
  deliver_quiet now node a s st at event last quiet =
      deliver_known now node a s st at event last ∙ rw (not_due now a st at quiet)
