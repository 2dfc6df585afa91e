-- ===== src/Results.antt =====
-- include/ownedc_result.h: the result of a call that can fail.
use owned_c.Base.{ℕ, ℤ, pos, String, Bool, true, false, if◌then◌else◌}
use owned_c.Runtime.State.{Ptr, null, panic}
use owned_c.Runtime.Command.{Cmd, exited, pure, ◌>>◌, print}

-- `owned_result_t`
pub record OwnedResult : Type 0 where
  pub is_ok : Bool
  pub value : Ptr
  pub error_code : ℤ

-- `Ok` and `Err`
abbrev pub ok_result : Ptr → OwnedResult
ok_result value = record { is_ok = true; value = value; error_code = pos 0 }

abbrev pub err_result : ℤ → OwnedResult
err_result error_code = record { is_ok = false; value = null; error_code = error_code }

module _ {A : Type 0} where
  unfoldable pub owned_unwrap : OwnedResult → (file : String) → (line : ℕ) → Cmd A Ptr
  owned_unwrap res file line =
      if res.is_ok then pure res.value else (do print (panic res.error_code file line); exited 1)

  -- `TRY_UNWRAP`: what stands behind it is `rest`, on the value.
  unfoldable pub try_unwrap : OwnedResult → (rest : Ptr → Cmd A OwnedResult) → Cmd A OwnedResult
  try_unwrap res rest = if res.is_ok then rest res.value else pure (err_result res.error_code)
