-- ===== src/Kernel/Delivery/Validate.antt =====
-- crates/kernel/src/delivery.rs: the bounds on what a caller may ask of a delivery.
use fleetd.Base.{
  ℕ, Bool, true, false, ◌&&◌, ◌||◌, not, Option, none, some, String, len, [], ◌∷◌, ltb, ◌==◌,
  is_blank, concat, decimal,
}
use fleetd.Error.{FleetError, invalid, Result, ◌>>◌, refuse_if}
use fleetd.Model.{
  ClaimDeliveries, RetryDelivery, BlockDelivery, ResolveDeliveryBlock, BlockResolution,
}

abbrev pub max_claim_limit : ℕ
max_claim_limit = 100

abbrev pub max_lease_duration_ms : ℕ
max_lease_duration_ms = 3600000

abbrev pub max_retry_delay_ms : ℕ
max_retry_delay_ms = 86400000

abbrev pub max_error_length : ℕ
max_error_length = 4096

-- `is_some_and`.
abbrev pub is_some_and : Option String → (String → Bool) → Bool
is_some_and none p = false
is_some_and (some s) p = p s

unfoldable pub validate_claim : ClaimDeliveries → Result (Unit {0})
validate_claim input = do
  refuse_if (input.limit == 0 || ltb max_claim_limit input.limit)
      (invalid (concat ("claim limit must be between 1 and " ∷ decimal max_claim_limit ∷ [])))
  refuse_if (input.lease_duration_ms == 0 || ltb max_lease_duration_ms input.lease_duration_ms) (
      invalid (
        concat (
          "lease duration must be between 1 and "
          ∷ decimal max_lease_duration_ms
          ∷ " milliseconds"
          ∷ [])))

unfoldable pub validate_token : String → Result (Unit {0})
validate_token lease_token =
    refuse_if (is_blank lease_token) (invalid "lease token must not be empty")

abbrev retry_delay_error : FleetError
retry_delay_error =
    invalid
      (concat ("retry delay must not exceed " ∷ decimal max_retry_delay_ms ∷ " milliseconds" ∷ []))

unfoldable pub validate_retry : RetryDelivery → Result (Unit {0})
unfolding validate_token
validate_retry input = do
  validate_token input.lease_token
  refuse_if (ltb max_retry_delay_ms input.retry_after_ms) retry_delay_error
  refuse_if (is_some_and input.error (λ e. ltb max_error_length (len e)))
      (invalid (concat ("retry error must not exceed " ∷ decimal max_error_length ∷ " bytes" ∷ [])))

unfoldable pub validate_evidence : String → Option String → Result (Unit {0})
validate_evidence label value = do
  refuse_if (is_some_and value (λ v. ltb max_error_length (len v)))
      (invalid (concat (label ∷ " must not exceed " ∷ decimal max_error_length ∷ " bytes" ∷ [])))
  refuse_if (is_some_and value is_blank) (invalid (concat (label ∷ " must not be empty" ∷ [])))

unfoldable pub validate_block : BlockDelivery → Result (Unit {0})
unfolding validate_token validate_evidence
validate_block input = do
  validate_token input.lease_token
  validate_evidence "block reason" (some input.reason)

abbrev pub is_abandon : BlockResolution → Bool
is_abandon BlockResolution.requeue = false
is_abandon BlockResolution.abandon = true

-- A block id is an `i64`; one below 0 is refused like 0.
unfoldable pub validate_resolution : ℕ → ResolveDeliveryBlock → Result (Unit {0})
validate_resolution block_id input = do
  refuse_if (block_id == 0) (invalid "delivery block ID must be positive")
  refuse_if (ltb max_retry_delay_ms input.retry_after_ms) retry_delay_error
  refuse_if (is_abandon input.resolution && not (input.retry_after_ms == 0))
      (invalid "abandoned blocks cannot have a retry delay")
  validate_evidence "resolution note" input.note
