-- ===== src/Domain/Errors.antt =====
-- The error values that the use cases compare with `==` or errors.Is, and Go's pair of a result
-- and an error. `other` is an error that is none of them: a driver's, a network's, an encoder's.
use sentinelix_backend.Base.{Bool, true, false, List}

pub data PasswordRule : Type 0 where
  too_short needs_uppercase needs_lowercase needs_digit needs_special_char : PasswordRule

pub data Error : Type 0 where
  user_not_found email_already_exist invalid_credential : Error
  weak_password : List PasswordRule → Error
  refresh_token_not_found refresh_token_expired refresh_token_revoked : Error
  project_not_found project_slug_not_found issue_not_found forbidden : Error
  invalid_api_key rate_limited : Error
  message_required level_invalid message_too_long stack_trace_too_long context_too_large : Error
  alert_rule_not_found condition_type_invalid alert_channel_invalid threshold_invalid : Error
  window_minutes_invalid cooldown_minutes_invalid alert_channel_target_required : Error
  monitor_not_found url_required url_invalid interval_invalid monitor_channel_invalid : Error
  monitor_channel_target_required failure_threshold_invalid : Error
  unknown_channel bad_status other : Error

pub data Result {ℓ} (A : Type ℓ) : Type ℓ where
  err : Error → Result A
  ok : A → Result A

module _ {ℓ} {A : Type ℓ} where
  abbrev pub is_ok : Result A → Bool
  is_ok (err reason) = false
  is_ok (ok value) = true

  -- An early return on an error, and the rest of the function on a value.
  abbrev pub and_then {κ} : {B : Type κ} → (A → Result B) → Result A → Result B
  and_then rest (err reason) = err reason
  and_then rest (ok value) = rest value

-- `if err := check; err != nil { return err }` where the check has no other result.
abbrev pub require : Bool → Error → Result (Unit {0})
require passed reason = elim passed [ true ↦ ok tt | false ↦ err reason ]

infixl 5 ◌>>=◌
abbrev pub ◌>>=◌ {ℓ κ} : {A : Type ℓ} {B : Type κ} → Result A → (A → Result B) → Result B
first >>= rest = and_then rest first

infixl 5 ◌>>◌
abbrev pub ◌>>◌ {κ} : {B : Type κ} → Result (Unit {0}) → Result B → Result B
check >> rest = and_then (λ u. rest) check
