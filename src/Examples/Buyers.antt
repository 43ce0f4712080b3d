-- ===== src/Examples/Buyers.antt =====
-- The buyers in the example shop: a first login, a second one, and one that another call interferes with.
use shop_mall.Common.Base.{ℕ, ◌≡◌, refl, false, none, some, [], ◌∷◌, ltb}
use shop_mall.Common.Int.{pos}
use shop_mall.Common.Table.{update_by}
use shop_mall.Common.Text.{Text, is_space, rune_count, trim_space, text_eq}
use shop_mall.Database.Rows.{User, admin_adjust, admin_adjust_key, PointsLedger}
use shop_mall.Database.Store.{Db, Error, ok, err}
use shop_mall.Common.Text.{trim_left, trim_right}
use shop_mall.Payment.Balance.{user_key, set_balance}
use shop_mall.Payment.Ledger.{collides, checks_pass, direction_valid}
use shop_mall.Payment.Accounts.{IsBalanced}
use shop_mall.Buyers.Account.{
  to_buyer, Env, new_user, bonus_row, optional_string, upsert_buyer, upsert_by_openid,
  update_profile, insert_or_read, upsert_user, award_signup_bonus, award_if_due, read_user,
}
use shop_mall.Buyers.Login.{Services, login}
use shop_mall.Buyers.Bonus.{upsert_by_openid-IsBalanced}
use shop_mall.Buyers.Once.{upsert_by_openid-again}
use shop_mall.Buyers.Profile.{ProfileUpdate, update_profile-ProfileUpdate}
use shop_mall.Buyers.Signing.{Ends, login-signed}
use shop_mall.Examples.Shop.{buyer, shop, alone, shop-IsBalanced}

abbrev newcomer : Text
newcomer = 111 ∷ []

abbrev first_env : Env
first_env = record { user_id = 2; entry_id = 30; now = 70 }

abbrev second_env : Env
second_env = record { user_id = 3; entry_id = 31; now = 80 }

upsert_by_openid-IsBalanced_example :
    IsBalanced (upsert_by_openid first_env alone newcomer [] (pos 50) none (shop [])).1
upsert_by_openid-IsBalanced_example =
    upsert_by_openid-IsBalanced first_env alone newcomer [] (pos 50) none (shop [])
      (shop-IsBalanced []) (refl, tt) refl (λ mid balanced. balanced) (λ mid u same found. found)

-- The buyer that the first login makes, and the tables after it.
abbrev joined : User
joined = record { id = 2; openid = newcomer; nickname = []; avatar_url = []; points_balance = 50 }

abbrev shop_joined : Db ℕ
shop_joined = record (shop []) {
  users = joined ∷ buyer ∷ [];
  ledger = bonus_row first_env 2 50 ∷ (shop []).ledger;
}

first_login :
    upsert_by_openid first_env (λ d. d) newcomer [] (pos 50) none (shop [])
    ≡ (ok (to_buyer [] joined), shop_joined)
unfolding upsert_by_openid upsert_buyer upsert_user insert_or_read award_if_due award_signup_bonus
    read_user new_user optional_string checks_pass direction_valid collides trim_space trim_left
    trim_right is_space rune_count bonus_row text_eq to_buyer
first_login = refl

no_nickname : ltb 64 (rune_count (optional_string none)) ≡ false
unfolding rune_count optional_string
no_nickname = refl

upsert_by_openid-again_example :
    upsert_by_openid second_env (λ d. d) newcomer (7 ∷ []) (pos 50) none shop_joined
    ≡ (ok (record (to_buyer [] joined) { union_id = 7 ∷ [] }), shop_joined)
upsert_by_openid-again_example =
    upsert_by_openid-again first_env second_env newcomer [] (7 ∷ []) 50 none none (shop [])
      (to_buyer [] joined) shop_joined (refl, tt) refl first_login no_nickname

-- A buyer who has joined when there was no bonus, and the points that an administrator credits
-- while the buyer logs in again.
abbrev early : User
early = record { id = 1; openid = newcomer; nickname = []; avatar_url = []; points_balance = 0 }

abbrev credit : PointsLedger ℕ
credit = record {
  id = 25;
  user_id = 1;
  order_id = none;
  event_key = admin_adjust_key 9 (103 ∷ []);
  request_hash = some 4;
  kind = admin_adjust;
  delta = pos 5;
  balance_after = 5;
  created_by_admin_id = some 9;
  remark = 103 ∷ [];
  created_at = 60;
}

abbrev shop_early : Db ℕ
shop_early = record (shop []) { users = early ∷ []; ledger = [] }

abbrev crediting : Db ℕ → Db ℕ
crediting db = record db {
  users = update_by user_key 1 (set_balance 5) db.users;
  ledger = credit ∷ db.ledger;
}

update_profile-ProfileUpdate_example :
    ProfileUpdate (shop []) 1 (some newcomer) none (update_profile 1 (some newcomer) none (shop []))
update_profile-ProfileUpdate_example = update_profile-ProfileUpdate 1 (some newcomer) none (shop [])

-- A client that knows every code, and a signer that fails.
abbrev services : Services
services = record {
  exchange = λ code. some (record { openid = code; union_id = [] });
  issue = λ s version now. err (Error.other 7);
}

login-signed_example :
    Ends services first_env alone
      (pos 50)
      newcomer
      (shop [])
      (login services first_env alone (pos 50) newcomer (shop []))
login-signed_example = login-signed services first_env alone (pos 50) newcomer (shop [])
