-- ===== src/Transfer/Result.antt =====
-- transfer.go: what its functions return, and the errors among it.
use oohttp.Base.{List, Bytes}

-- The errors of `readTransfer`.
pub data TransferError : Type 0 where
  too_many_encodings : List Bytes → TransferError
  unsupported_encoding : Bytes → TransferError
  multiple_lengths : List Bytes → TransferError
  empty_length : TransferError
  bad_length : Bytes → TransferError
  bad_trailer_key : Bytes → TransferError

-- A value or an error.
pub data Result {ℓ} (A : Type ℓ) : Type ℓ where
  fail : TransferError → Result A
  ok : A → Result A

abbrev pub and_then {ℓ κ} : {A : Type ℓ} {B : Type κ} → Result A → (A → Result B) → Result B
and_then (fail e) f = fail e
and_then (ok a) f = f a
