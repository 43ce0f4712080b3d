-- ===== src/Examples/Points.antt =====
-- Points adjustments in the example shop.
use shop_mall.Common.Base.{ℕ, ◌≡◌, refl, []}
use shop_mall.Common.Int.{◌+ℤ◌}
use shop_mall.Common.Text.{
  rune_len, trim_left, trim_right, is_space, byte_len, rune_count, trim_space, text_eq,
}
use shop_mall.Database.Store.{Db, Result, ok, err}
use shop_mall.Payment.Balance.{lock_user, store_balance, adjust_balance}
use shop_mall.Payment.Ledger.{
  collides, direction_valid, checks_pass, create_entry, LedgerEntry, to_ledger_entry,
}
use shop_mall.Audit.{write, resolve_role}
use shop_mall.Points.{
  valid_idempotency_key, valid_adjustment, compute_adjust_hash, adjustment_row, apply_adjustment,
  finish_adjustment, run_adjustment, run_as, adjust_points,
}
use shop_mall.Examples.Shop.{checksum, bonus, shop, points_env, token, gift, alone}
use shop_mall.Points.Effect.{Outcome, adjust_points-Outcome}
use shop_mall.Points.Replay.{adjust_points-replay}

abbrev entry_or : LedgerEntry → Result LedgerEntry → LedgerEntry
entry_or v (ok w) = w
entry_or v (err e) = v

-- The shop after the gift, and the entry that the administrator was told.
abbrev gifted : Db ℕ
gifted = (adjust_points checksum points_env alone 8 token gift (shop [])).1

abbrev entry : LedgerEntry
entry =
    entry_or (to_ledger_entry bonus)
      (adjust_points checksum points_env alone 8 token gift (shop [])).0

gifted_lem : adjust_points checksum points_env alone 8 token gift (shop []) ≡ (ok entry, gifted)
unfolding adjust_points run_as run_adjustment finish_adjustment apply_adjustment
    valid_idempotency_key valid_adjustment byte_len rune_len rune_count trim_space trim_left
    trim_right is_space resolve_role lock_user adjust_balance store_balance create_entry checks_pass
    direction_valid collides adjustment_row compute_adjust_hash write to_ledger_entry text_eq ◌+ℤ◌
gifted_lem = refl

adjust_points-Outcome_example :
    Outcome checksum points_env 8 token gift alone
      (shop [])
      (adjust_points checksum points_env alone 8 token gift (shop []))
adjust_points-Outcome_example =
    adjust_points-Outcome checksum points_env 8 token gift alone (shop [])

adjust_points-replay_example :
    adjust_points checksum (record points_env { now = 99 }) alone 8 token gift gifted
    ≡ (ok entry, gifted)
adjust_points-replay_example =
    adjust_points-replay checksum points_env 8 token gift alone alone
      (record points_env { now = 99 }) (shop []) gifted gifted entry refl gifted_lem refl
