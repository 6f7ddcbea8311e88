-- ===== src/Retrieval/Provider/Env.antt =====
-- What the retrieval provider's entry functions call: `ProviderDealEnvironment` of
-- retrievalmarket/impl/providerstates/provider_states.go and the parts of `RetrievalProviderNode`
-- that they use. Their answers are a parameter; what is asked of them is recorded in order.
use go_fil_markets.Prelude.{ℕ, Option, List, [], ◌∷◌, String, Result}
use go_fil_markets.Prelude.Int.{ℤ}
use go_fil_markets.Retrieval.Params.{Cid}
use go_fil_markets.Retrieval.Voucher.{ChannelState, ValidationResult}
use go_fil_markets.Retrieval.Client.Deal.{Address, ChannelId}
use go_fil_markets.Retrieval.Provider.Deal.{ProviderEvent}

-- The answer of `CloseDataTransfer`: `terminated` is statemachine.ErrTerminated.
pub data CloseAnswer : Type 0 where
  closed terminated : CloseAnswer
  close_error : String → CloseAnswer

pub record ProviderEnv : Type 0 where
  pub prepare_blockstore : ℕ → Cid → Result (Unit {0})
  pub delete_store : ℕ → Result (Unit {0})
  pub resume_data_transfer : ChannelId → Result (Unit {0})
  pub close_data_transfer : ChannelId → CloseAnswer
  pub channel_state : ChannelId → Result ChannelState
  pub update_validation_status : ChannelId → ValidationResult → Result (Unit {0})
  pub get_chain_head : Result ℕ
  -- A received amount may be nil.
  pub save_payment_voucher : Address → ℕ → ℕ → Result (Option ℤ)

-- A call that changes something outside the deal, or an event that is triggered.
pub data Act : Type 0 where
  prepares_blockstore : ℕ → Cid → Act
  deletes_store : ℕ → Act
  resumes_transfer closes_transfer : ChannelId → Act
  saves_voucher : Address → ℕ → Act
  updates_validation : ChannelId → ValidationResult → Act
  trigger : ProviderEvent → Act

abbrev pub triggers : List Act → List ProviderEvent
triggers [] = []
triggers (trigger e ∷ acts) = e ∷ triggers acts
triggers (_ ∷ acts) = triggers acts
