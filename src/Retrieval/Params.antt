-- ===== src/Retrieval/Params.antt =====
-- retrievalmarket/types.go, `Params`: the terms of a retrieval deal and the payment schedule that
-- both sides compute from them. A payment is due each time the bytes sent pass a threshold; the
-- gaps between thresholds start at the payment interval and grow by the increase.
pub mod Schedule
pub mod Thresholds
pub mod Balance
unfoldable pub use Schedule.*
