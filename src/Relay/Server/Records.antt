-- ===== src/Relay/Server/Records.antt =====
-- What the relay remembers of a delivery, over any store that keeps the laws.
use nomctl.Prelude.{
  ◌+◌, ◌<◌, ◌≡◌, ◌≢◌, refl, sym, ◌∙◌, Bool, true, false, Option, none, some, Text, text_eq,
  format_int, Result, ok, err, ◌==◌, inl, inr, if_cases,
}
use nomctl.Time.{Time}
use nomctl.AlertProto.{State, state_eq, AlertRequest}
use nomctl.Relay.Limiter.{allow}
use nomctl.Relay.Store.{StoreError, Node, StoreOps}
use nomctl.Relay.Store.Laws.{StoreLaws}
use nomctl.Relay.Server.{
  Server, Env, SendError, blocked, failed, DeliverError, chat_blocked, reminder_every,
  format_message, record_error, is_due, send, suppress, after_send, notify_if, notify, record_sent,
  then_record, send_unmuted, deliver_after, deliver,
}
use nomctl.Relay.Server.Delivery.{deliver_known, deliver_quiet}

record_error-none : (r : Result StoreError (Unit {0})) → record_error r ≡ none → r ≡ ok tt
unfolding record_error
record_error-none (ok u) e = refl
record_error-none (err x) e = cc

record_error-some :
    (r : Result StoreError (Unit {0})) (x : DeliverError)
    → record_error r ≡ some x
    → (y : StoreError) × (r ≡ err y)
unfolding record_error
record_error-some (ok u) x e = absurd (cc)
record_error-some (err y) x e = (y, refl)

module _ {S : Type 0} (ops : StoreOps S) (laws : StoreLaws ops) (env : Env) where
  -- The record of what was sent is what it was.
  abbrev pub SameRecords : S → S → Type 0
  SameRecords st st' = (id alert : Text) → ops.last_sent id alert st' ≡ ops.last_sent id alert st

  SameRecords-after_send :
      (node : Node) (e : Option SendError) (s : Server S)
      → SameRecords s.store (after_send ops env node e s).1.store
  unfolding after_send
  SameRecords-after_send node none s id alert = refl
  SameRecords-after_send node (some blocked) s id alert =
      laws.last_sent-update (record node { blocked = true }) s.store id alert
  SameRecords-after_send node (some failed) s id alert = refl

  SameRecords-notify_if :
      (admitted : Bool) (node : Node) (text : Text) (s : Server S)
      → SameRecords s.store (notify_if ops env admitted node text s).1.store
  unfolding notify_if send suppress
  SameRecords-notify_if true node text s = SameRecords-after_send node _ _
  SameRecords-notify_if false node text s = λ id alert. refl

  pub SameRecords-notify :
      (now : Time) (node : Node) (text : Text) (s : Server S)
      → SameRecords s.store (notify ops env now node text s).1.store
  unfolding notify
  SameRecords-notify now node text s =
      let (admitted, limit) = allow now (format_int node.chat_id) s.chat_limit in
      if_cases (λ (r : Option DeliverError × Server S). SameRecords s.store r.1.store) node.blocked
        (some chat_blocked, s) _ (λ _ id alert. refl)
        (λ _. SameRecords-notify_if admitted node text (record s { chat_limit = limit }))

  -- An error keeps the records; no error leaves the record of this alert.
  abbrev Recorded : Time → Node → AlertRequest → S → Option DeliverError × Server S → Type 0
  Recorded now node a st r =
      ((x : DeliverError) → r.0 ≡ some x → SameRecords st r.1.store)
      × (r.0 ≡ none → ops.last_sent node.id a.alert r.1.store ≡ ok (a.state, now))

  Recorded-record_sent :
      (now : Time) (node : Node) (a : AlertRequest) (s : Server S)
      → Recorded now node a s.store (record_sent ops env now node a s)
  unfolding record_sent
  Recorded-record_sent now node a s =
      let r = (ops.set_last_sent node.id a.alert a.state now s.store).0 in
      (
        λ x e id alert.
            let (y, failure) = record_error-some r x e in
            laws.set_failed node.id a.alert a.state now s.store y id alert failure,
        λ e. laws.last_sent-set node.id a.alert a.state now s.store (record_error-none r e),
      )

  Recorded-then_record :
      (now : Time) (node : Node) (a : AlertRequest) (st : S) (r : Option DeliverError × Server S)
      → SameRecords st r.1.store
      → Recorded now node a st (then_record ops env now node a r)
  unfolding then_record
  Recorded-then_record now node a st (none, s) same =
      let (error, done) = Recorded-record_sent now node a s in
      ((λ x e id alert. error x e id alert ∙ same id alert), done)
  Recorded-then_record now node a st (some x, s) same = ((λ y e. same), (λ e. cc))

  Recorded-send_unmuted :
      (now : Time) (node : Node) (a : AlertRequest) (m : Result StoreError Bool) (s : Server S)
      → Recorded now node a s.store (send_unmuted ops env now node a m s)
  unfolding send_unmuted
  Recorded-send_unmuted now node a (err e) s = ((λ x p id alert. refl), (λ p. cc))
  Recorded-send_unmuted now node a (ok true) s = Recorded-record_sent now node a s
  Recorded-send_unmuted now node a (ok false) s =
      Recorded-then_record now node a s.store _
        (SameRecords-notify now node (format_message env node a) s)

  KeepsOnError : S → Option DeliverError × Server S → Type 0
  KeepsOnError st r = (x : DeliverError) → r.0 ≡ some x → SameRecords st r.1.store

  deliver_after_failed :
      (now : Time) (node : Node) (a : AlertRequest) (last : Result StoreError (State × Time))
      (s : Server S)
      → KeepsOnError s.store (deliver_after ops env now node a last s)
  unfolding deliver_after KeepsOnError
  deliver_after_failed now node a (err e) s = λ x p id alert. refl
  deliver_after_failed now node a (ok (st, at)) s =
      if_cases (KeepsOnError s.store) (is_due now a st at) _ (none, s)
        (λ _. (Recorded-send_unmuted now node a (ops.muted node.id a.alert now s.store) s).0)
        (λ _ x p. cc)

  -- Over a store that keeps the laws, a delivery that returns an error leaves every record of what
  -- was sent as it was.
  pub deliver_failed :
      (now : Time) (node : Node) (a : AlertRequest) (s : Server S) (x : DeliverError)
      → (deliver ops env now node a s).0 ≡ some x
      → SameRecords s.store (deliver ops env now node a s).1.store
  unfolding deliver KeepsOnError
  deliver_failed now node a s =
      if_cases (KeepsOnError s.store) (a.state == State.info) _ _
        (λ _ x p. SameRecords-notify now node (format_message env node a) s)
        (λ _. deliver_after_failed now node a (ops.last_sent node.id a.alert s.store) s)

  -- An alert that is due and delivered without an error is recorded with its state and the time.
  pub deliver_recorded :
      (now : Time) (node : Node) (a : AlertRequest) (s : Server S) (st : State) (at : Time)
      → a.state ≢ State.info
      → ops.last_sent node.id a.alert s.store ≡ ok (st, at)
      → is_due now a st at ≡ true
      → (deliver ops env now node a s).0 ≡ none
      → ops.last_sent node.id a.alert (deliver ops env now node a s).1.store ≡ ok (a.state, now)
  deliver_recorded now node a s st at event last due =
      rw (deliver_known ops env now node a s st at event last)
        (rw due (Recorded-send_unmuted now node a (ops.muted node.id a.alert now s.store) s).1)

  -- Over a store that keeps the laws: once an alert that is no event and was due has been delivered
  -- without an error, delivering it again with the same state within ten minutes changes nothing.
  pub deliver_once :
      (now later : Time) (node : Node) (a b : AlertRequest) (s : Server S) (st : State) (at : Time)
      → a.state ≢ State.info
      → ops.last_sent node.id a.alert s.store ≡ ok (st, at)
      → is_due now a st at ≡ true
      → (deliver ops env now node a s).0 ≡ none
      → b.alert ≡ a.alert
      → b.state ≡ a.state
      → later < now + reminder_every
      → deliver ops env later node b (deliver ops env now node a s).1
        ≡ (none, (deliver ops env now node a s).1)
  deliver_once now later node a b s st at event last due done same_alert same_state soon =
      deliver_quiet ops env later node b _ a.state now (λ e. event (sym same_state ∙ e))
        (rw same_alert (deliver_recorded now node a s st at event last due done))
        (inr (inl (same_state, soon)))
