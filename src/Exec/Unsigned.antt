-- ===== src/Exec/Unsigned.antt =====
-- The transaction pool's questions about unsigned transactions.
use clamor.Base.{Bool, true, false}

-- where a transaction comes from
pub data TransactionSource : Type 0 where
  in_block local external : TransactionSource

pub data InvalidTransaction : Type 0 where
  bad_call bad_signer bad_proof : InvalidTransaction

-- An answer; a valid transaction provides a tag, which no other one of the pool may provide. The
-- prefix of the tag is the pallet's, and no valid transaction is propagated.
pub data Validity {ℓ} (Tag : Type ℓ) : Type ℓ where
  valid : Tag → Validity Tag
  invalid : InvalidTransaction → Validity Tag

-- The transaction was made on this node, or stands in a block.
abbrev pub is_local : TransactionSource → Bool
is_local in_block = true
is_local local = true
is_local external = false
