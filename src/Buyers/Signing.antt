-- ===== src/Buyers/Signing.antt =====
-- How internal/application/auth/login.go ends: the errors before the transaction, of it, and after it.
use shop_mall.Common.Base.{
  ◌≡◌, refl, ◌⊎◌, inl, inr, true, false, none, some, arith, Bool-cases, Option-cases,
}
use shop_mall.Common.Int.{ℤ, pos, negsuc}
use shop_mall.Common.Text.{Text, trim_space, is_blank}
use shop_mall.Database.Store.{Db, Error, Result, ok, err, Result-cases}
use shop_mall.Buyers.Account.{Buyer, Env, upsert_buyer, upsert_by_openid, subject}
use shop_mall.Buyers.Login.{Session, Services, LoginResult, sign_in, open_session, login}

-- What the login tells of the answer of the signer.
abbrev pub signed : Buyer → Result Text → Result LoginResult
signed buyer (ok token) = ok (record { buyer = buyer; subject = subject buyer; token = token })
signed buyer (err e) = err e

module _ {H : Type 0} where
  -- How a login ended: it was refused before the transaction and no table changed, for a blank code,
  -- a code that WeChat does not know or a session with a blank openid; or the transaction of the
  -- openid failed; or it was committed, and the answer is the signer's.
  abbrev pub Ends :
      Services → Env → (Db H → Db H) → ℤ → Text → Db H → Result LoginResult × Db H → Type 0
  Ends services env race bonus code db out =
      ((is_blank (trim_space code) ≡ true) × (out ≡ (err Error.login_code_required, db)))
      ⊎ ((is_blank (trim_space code) ≡ false)
          × (services.exchange code ≡ none)
          × (out ≡ (err Error.wechat_lookup, db)))
      ⊎ ((s : Session) × (services.exchange code ≡ some s)
          × (is_blank (trim_space s.openid) ≡ true)
          × (out ≡ (err Error.empty_openid, db)))
      ⊎ ((s : Session) × (e : Error) × (db' : Db H) × (services.exchange code ≡ some s)
          × (upsert_by_openid env race s.openid s.union_id bonus none db ≡ (err e, db'))
          × ((db' ≡ db) ⊎ (db' ≡ race db))
          × (out ≡ (err e, db')))
      ⊎ ((s : Session) × (buyer : Buyer) × (db' : Db H) × (services.exchange code ≡ some s)
          × (upsert_by_openid env race s.openid s.union_id bonus none db ≡ (ok buyer, db'))
          × (out ≡ (signed buyer (services.issue (subject buyer) 1 env.now), db')))

  upsert_by_openid-cases :
      (env : Env) (race : Db H → Db H) (openid union_id : Text) (bonus : ℤ) (db : Db H)
      → ((e : Error) × (db' : Db H) × (upsert_by_openid env race openid union_id bonus none db
            ≡ (err e, db'))
          × ((db' ≡ db) ⊎ (db' ≡ race db)))
        ⊎ ((buyer : Buyer) × (db' : Db H) × (upsert_by_openid env race openid union_id bonus none db
              ≡ (ok buyer, db')))
  unfolding upsert_by_openid
  upsert_by_openid-cases env race openid union_id (negsuc n) db =
      elim (Bool-cases (is_blank (trim_space openid))) [
        | inl blank ↦ inl (Error.openid_required, db, rw blank refl, inl refl)
        | inr filled ↦ inl (Error.negative_bonus, db, rw filled refl, inl refl)
      ]
  upsert_by_openid-cases env race openid union_id (pos bonus) db =
      elim (Bool-cases (is_blank (trim_space openid))) [
        | inl blank ↦ inl (Error.openid_required, db, rw blank refl, inl refl)
        | inr filled ↦
            elim (Result-cases (upsert_buyer env race openid union_id (pos bonus) none db)) [
              | inl (buyer, db', done) ↦ inr (buyer, db', ground (arith, filled, done))
              | inr (e, db', failed) ↦ inl (e, race db, ground (arith, filled, failed), inr refl)
            ]
      ]

  sign_in-signed :
      (services : Services) (env : Env) (buyer : Buyer) (db : Db H)
      → sign_in services env (ok buyer, db)
        ≡ (signed buyer (services.issue (subject buyer) 1 env.now), db)
  unfolding sign_in
  sign_in-signed services env buyer db = ground arith

  sign_in-err :
      (services : Services) (env : Env) (e : Error) (db : Db H)
      → sign_in services env (err e, db) ≡ (err e, db)
  unfolding sign_in
  sign_in-err services env e db = refl

  -- Every login of a buyer ends in one of these ways. A blank code, a code that WeChat does not know
  -- and a session with a blank openid are refused with their errors, and no table changes. Where the
  -- transaction with the openid fails, so does the login, with its error, and at most what other
  -- calls have committed meanwhile has changed. Where it is committed, the tables stay as it has
  -- left them, whether or not the token could then be signed; the answer is the signer's, asked for
  -- the subject of that buyer, version 1 and the time of the call.
  pub login-signed :
      (services : Services) (env : Env) (race : Db H → Db H) (bonus : ℤ) (code : Text) (db : Db H)
      → Ends services env race bonus code db (login services env race bonus code db)
  unfolding login open_session
  login-signed services env race bonus code db = elim (Bool-cases (is_blank (trim_space code))) [
    | inl blank ↦ inl (blank, rw blank refl)
    | inr filled ↦ elim (Option-cases (services.exchange code)) [
      | inl none_given ↦ inr (inl (filled, none_given, rw (filled, none_given) refl))
      | inr (s, given) ↦ elim (Bool-cases (is_blank (trim_space s.openid))) [
        | inl empty ↦ inr (inr (inl (s, given, empty, ground (arith, filled, given, empty))))
        | inr known ↦ elim (upsert_by_openid-cases env race s.openid s.union_id bonus db) [
          | inl (e, db', failed, left) ↦ inr (
              inr (
                inr (
                  inl (
                    s,
                    e,
                    db',
                    given,
                    failed,
                    left,
                    rw (filled, given, known, failed) (sign_in-err services env e db'),
                  ))))
          | inr (buyer, db', done) ↦ inr (
              inr (
                inr (
                  inr (
                    s,
                    buyer,
                    db',
                    given,
                    done,
                    rw (filled, given, known, done) (sign_in-signed services env buyer db'),
                  ))))
        ]
      ]
    ]
  ]
