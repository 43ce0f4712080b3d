-- ===== src/Buyers/Login.antt =====
-- internal/application/auth/login.go: the login of a buyer. The WeChat client and the signer of the
-- tokens are parameters.
use shop_mall.Common.Base.{ℕ, Option, none, some, if◌then◌else◌}
use shop_mall.Common.Int.{ℤ}
use shop_mall.Common.Text.{Text, trim_space, is_blank}
use shop_mall.Database.Store.{Db, Error, Result, ok, err, Action}
use shop_mall.Buyers.Account.{Buyer, Subject, subject, Env, upsert_by_openid}

-- What the code of WeChat is exchanged for, without the key of the session, which is dropped.
pub record Session : Type 0 where
  pub openid : Text
  pub union_id : Text

-- The parts that the login calls: `wechat.Code2Session` and `signer.Issue`, the latter with the
-- token version and the time.
pub record Services : Type 0 where
  pub exchange : Text → Option Session
  pub issue : Subject → ℕ → ℕ → Result Text

-- `LoginResult`: the buyer, with the subject, and the token.
pub record LoginResult : Type 0 where
  pub buyer : Buyer
  pub subject : Subject
  pub token : Text

module _ {H : Type 0} where
  -- The last step: the token is signed after the transaction, and what that wrote stays.
  unfoldable pub sign_in : Services → Env → Result Buyer × Db H → Result LoginResult × Db H
  sign_in services env (err e, db) = (err e, db)
  sign_in services env (ok buyer, db) = elim (services.issue (subject buyer) 1 env.now) [
    | ok token ↦ (ok (record { buyer = buyer; subject = subject buyer; token = token }), db)
    | err e ↦ (err e, db)
  ]

  -- The login with the session.
  unfoldable pub open_session :
      Services → Env → (Db H → Db H) → ℤ → Option Session → Action H LoginResult
  unfolding sign_in
  open_session services env race bonus none db = (err Error.wechat_lookup, db)
  open_session services env race bonus (some session) db =
      if is_blank (trim_space session.openid)
      then (err Error.empty_openid, db)
      else sign_in services env
          (upsert_by_openid env race session.openid session.union_id bonus none db)

  -- `LoginUsecase.Execute`
  unfoldable pub login : Services → Env → (Db H → Db H) → ℤ → Text → Action H LoginResult
  unfolding open_session
  login services env race bonus code db =
      if is_blank (trim_space code)
      then (err Error.login_code_required, db)
      else open_session services env race bonus (services.exchange code) db
