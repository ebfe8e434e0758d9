-- ===== src/Base/Errors.antt =====
-- A Go result with an error: the value, or the text of the error.
use fingered.Base.Lists.{Bytes}

pub data Result {ℓ} (A : Type ℓ) : Type ℓ where
  ok : A → Result A
  err : Bytes → Result A
