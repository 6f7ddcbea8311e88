-- ===== src/Retrieval/Client/Accounts.antt =====
-- retrievalmarket/impl/clientstates: what holds of the amounts of a retrieval client's deal under
-- any events at all.
use go_fil_markets.Prelude.{◌≡◌, Option, none, some, List, [], ◌∷◌, arith, ◌∙◌, sym, ap, subst}
use go_fil_markets.Prelude.Int.{ℤ, pos, ◌+ℤ◌, ◌-ℤ◌, int_laws, +ℤ_assoc}
use go_fil_markets.Fsm.{Engine, Fired, refused, faulted, moved, settle, run}
use go_fil_markets.Retrieval.Client.Deal.{ClientEvent, ClientDealState, client_machine}
use go_fil_markets.Retrieval.Client.Transfer.{record_payment, advance_interval}
use go_fil_markets.Retrieval.Client.Table.{edges, action, fire}

-- What an event asks the client to pay.
abbrev pub asked : ClientEvent → ℤ
asked (ClientEvent.last_payment_requested owed) = owed
asked (ClientEvent.payment_requested owed) = owed
asked (ClientEvent.unseal_payment_requested owed) = owed
asked _ = pos 0

-- What is requested and not yet paid, and what was spent.
abbrev pub ledger : ClientDealState → ℤ
ledger d = d.payment_requested +ℤ d.funds_spent

repaid : (r v f : ℤ) → r -ℤ (v -ℤ f) +ℤ v ≡ r +ℤ f +ℤ pos 0
repaid r v f = omega int_laws

owing : (r o f : ℤ) → r +ℤ o +ℤ f ≡ r +ℤ f +ℤ o
owing r o f = omega int_laws

unasked : (a : ℤ) → a ≡ a +ℤ pos 0
unasked a = omega int_laws

abbrev pub Balanced : ℤ → ClientDealState → Option ClientDealState → Type 0
Balanced owed d none = Unit
Balanced owed d (some d') =
    (ledger d' ≡ ledger d +ℤ owed) × (d'.proposal ≡ d.proposal) × (d'.status ≡ d.status)

record_payment-Balanced : (v : ℤ) (d : ClientDealState) → Balanced (pos 0) d (record_payment v d)
unfolding record_payment advance_interval
record_payment-Balanced v d = ground (arith, repaid d.payment_requested v d.funds_spent)

pub action-Balanced : (e : ClientEvent) (d : ClientDealState) → Balanced (asked e) d (action e d)
unfolding action
action-Balanced (ClientEvent.payment_sent v) d = ground (arith, record_payment-Balanced v d)
action-Balanced (ClientEvent.last_payment_requested o) d =
    ground (arith, owing d.payment_requested o d.funds_spent)
action-Balanced (ClientEvent.payment_requested o) d =
    ground (arith, owing d.payment_requested o d.funds_spent)
action-Balanced (ClientEvent.unseal_payment_requested o) d =
    ground (arith, owing d.payment_requested o d.funds_spent)
action-Balanced _ d = ground (arith, unasked (ledger d))

-- What the events that were not refused asked for, in a run from a deal.
abbrev counted : ℤ → Fired ClientDealState → ℤ
counted owed refused = pos 0
counted owed faulted = pos 0
counted owed (moved d enters) = owed

module _ (engine : Engine client_machine) where
  unfoldable pub asked_in : ClientDealState → List ClientEvent → ℤ
  asked_in d [] = pos 0
  asked_in d (e ∷ es) =
      counted (asked e) (fire engine e d) +ℤ asked_in (settle (fire engine) d (fire engine e d)) es

  abbrev Fair : ClientEvent → ClientDealState → Fired ClientDealState → Type 0
  Fair e d refused = Unit
  Fair e d faulted = Unit
  Fair e d (moved d' enters) = (ledger d' ≡ ledger d +ℤ asked e) × (d'.proposal ≡ d.proposal)

  fire-Fair : (e : ClientEvent) (d : ClientDealState) → Fair e d (fire engine e d)
  unfolding fire
  fire-Fair e d =
      subst (Fair e d) (sym (engine.process_lem (edges e) (action e) d))
        (ground (arith, action-Balanced e d))

  settle-Fair :
      (e : ClientEvent) (d : ClientDealState)
      → ledger (settle (fire engine) d (fire engine e d))
        ≡ ledger d +ℤ counted (asked e) (fire engine e d)
  settle-Fair e d = ground (arith, fire-Fair e d, unasked (ledger d))

  -- In every run the amounts add up: what is requested and not yet paid, and what was spent, grow
  -- together by exactly what the accepted events asked for. Payments move an amount from the first
  -- to the second.
  pub ledger-run :
      (es : List ClientEvent) (d : ClientDealState)
      → ledger (run (fire engine) d es) ≡ ledger d +ℤ asked_in d es
  unfolding run asked_in
  ledger-run [] d = unasked (ledger d)
  ledger-run (e ∷ es) d =
      let d' = settle (fire engine) d (fire engine e d) in
      let owed = counted (asked e) (fire engine e d) in
      ledger-run es d'
      ∙ ap (λ (a : ℤ). a +ℤ asked_in d' es) (settle-Fair e d)
      ∙ +ℤ_assoc (ledger d) owed (asked_in d' es)
