-- ===== src/Piecestore.antt =====
-- piecestore/impl/piecestore.go: the records of pieces and of blocks, over a state store.
pub mod Table
pub mod Store
pub mod Deals
