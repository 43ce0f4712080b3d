-- ===== src/Digest.antt =====
-- The request hashes: SHA-256 over the JSON of a payload. The two are of the Go library; the
-- model takes the digest of a payload as a function with a type of hashes that can be compared,
-- and what the usecases put into the payload is written out where they do.
use shop_mall.Common.Base.{ℕ, ◌≡◌, ◌↔◌, Bool, true, List}
use shop_mall.Common.Int.{ℤ}
use shop_mall.Common.Text.{Text}

-- `RequestHashItem` of internal/application/order/create.go
pub record RequestHashItem : Type 0 where
  pub product_id : ℕ
  pub quantity : ℕ

-- `hashAddress`
pub record HashAddress : Type 0 where
  pub address_id : ℕ
  pub version : ℕ
  pub receiver : Text
  pub phone : Text
  pub region : Text
  pub detail : Text

-- `requestHashPayload`
pub record RequestHashPayload : Type 0 where
  pub cart_item_ids : List ℕ
  pub items : List RequestHashItem
  pub address : HashAddress

-- The payload of `computeAdjustHash` in internal/application/points/adjust.go
pub record AdjustPayload : Type 0 where
  pub user_id : ℕ
  pub delta : ℤ
  pub remark : Text

pub record Digest (H : Type 0) : Type 0 where
  pub of_order : RequestHashPayload → H
  pub of_adjust : AdjustPayload → H
  pub same : H → H → Bool
  pub same_iff : (a b : H) → (same a b ≡ true) ↔ (a ≡ b)
