-- ===== src/Kernel/Delivery/Bounds.antt =====
-- What the checks of crates/kernel/src/delivery.rs let through.
use fleetd.Base.{ℕ, ◌≤◌, false, ◌≡◌, ◌↔◌, Option, none, some, String, len, arith, is_blank}
use fleetd.Error.{ok}
use fleetd.Model.{ClaimDeliveries, ResolveDeliveryBlock, BlockResolution}
use fleetd.Kernel.Delivery.Validate.{validate_claim, validate_resolution, validate_evidence}

-- A claim is let through exactly when it asks for 1 to 100 deliveries under a lease of 1 to
-- 3,600,000 milliseconds.
pub validate_claim-ok :
    (input : ClaimDeliveries)
    → (validate_claim input ≡ ok tt) ↔ (
        (1 ≤ input.limit)
        × (input.limit ≤ 100)
        × (1 ≤ input.lease_duration_ms)
        × (input.lease_duration_ms ≤ 3600000))
unfolding validate_claim
validate_claim-ok input = ground arith

-- The evidence of a note, of an error or of a reason: at most 4,096 bytes, and not blank.
abbrev pub IsEvidence : Option String → Type 0
IsEvidence none = Unit {0}
IsEvidence (some v) = (len v ≤ 4096) × (is_blank v ≡ false)

validate_evidence-ok :
    (label : String) (value : Option String)
    → (validate_evidence label value ≡ ok tt) ↔ IsEvidence value
unfolding validate_evidence
validate_evidence-ok label none = ground arith
validate_evidence-ok label (some v) = ground arith

-- An operator's decision is let through exactly when it names a positive block id, delays a retry
-- by at most a day, does not delay an abandonment, and its note, if any, is not blank and has at
-- most 4,096 bytes.
pub validate_resolution-ok :
    (block_id : ℕ) (input : ResolveDeliveryBlock)
    → (validate_resolution block_id input ≡ ok tt) ↔ (
        (1 ≤ block_id)
        × (input.retry_after_ms ≤ 86400000)
        × (input.resolution ≡ BlockResolution.abandon → input.retry_after_ms ≡ 0)
        × IsEvidence input.note)
unfolding validate_resolution
validate_resolution-ok block_id input =
    ground (arith, validate_evidence-ok "resolution note" input.note)
