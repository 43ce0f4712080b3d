-- ===== src/System.antt =====
-- Runs of the whole system: the usecases one after another, and within an order creation or a
-- points adjustment what other calls commit before it takes its locks.
use shop_mall.Digest.{Digest}
use shop_mall.Checkout.Request.{OrderRequest}
use shop_mall.Checkout.Commit
use shop_mall.Checkout.Execute.{create_order}
use shop_mall.Points
use shop_mall.Points.{PointsAdjustment, adjust_points}
use shop_mall.Orders.Fulfillment
use shop_mall.Orders.Fulfillment.{ship, confirm}
use shop_mall.Orders.Refund.{request, approve, reject}
use shop_mall.Database.Store.{Db}
use shop_mall.Common.Text.{Text}
use shop_mall.Common.Base.{ℕ}
pub mod Goods
pub mod Invariants
pub mod History
pub mod Final
pub mod Once

module _ {H : Type 0} (digest : Digest H) where
  -- The tables that a run leads to. `race` is what other calls commit while the call runs: itself
  -- a run from the tables that the call began on.
  pub data Runs : Db H → Db H → Type 0 where
    idle : {db : Db H} → Runs db db
    order :
        {db mid : Db H} (env : Commit.Env) (user_id : ℕ) (key : Text) (req : OrderRequest)
        (race : Db H → Db H)
        → Runs db mid
        → Runs mid (race mid)
        → Runs db (create_order digest env user_id key req race mid).1
    adjust :
        {db mid : Db H} (env : Points.Env) (admin_id : ℕ) (key : Text) (req : PointsAdjustment)
        (race : Db H → Db H)
        → Runs db mid
        → Runs mid (race mid)
        → Runs db (adjust_points digest env race admin_id key req mid).1
    ships :
        {db mid : Db H} (env : Fulfillment.Env) (admin_id order_id : ℕ)
        → Runs db mid
        → Runs db (ship env admin_id order_id mid).1
    confirms :
        {db mid : Db H} (env : Fulfillment.Env) (user_id order_id : ℕ)
        → Runs db mid
        → Runs db (confirm env user_id order_id mid).1
    requests :
        {db mid : Db H} (user_id order_id : ℕ) (reason : Text)
        → Runs db mid
        → Runs db (request user_id order_id reason mid).1
    approves :
        {db mid : Db H} (env : Fulfillment.Env) (entry_id admin_id order_id : ℕ)
        → Runs db mid
        → Runs db (approve env entry_id admin_id order_id mid).1
    rejects :
        {db mid : Db H} (env : Fulfillment.Env) (admin_id order_id : ℕ) (reason : Text)
        → Runs db mid
        → Runs db (reject env admin_id order_id reason mid).1
