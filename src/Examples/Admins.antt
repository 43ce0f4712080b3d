-- ===== src/Examples/Admins.antt =====
-- The administrators at work: one account, which logs in and out.
use shop_mall.Common.Base.{
  ℕ, zero, suc, ◌+◌, ◌-◌, ◌≡◌, refl, ap, ◌≢◌, true, false, none, some, [], ◌∷◌, arith,
}
use shop_mall.Common.Table.{length}
use shop_mall.Common.Text.{Text}
use shop_mall.Database.Rows.{AdminUser, Role}
use shop_mall.Database.Store.{Db, ok, undisturbed}
use shop_mall.Audit.{write}
use shop_mall.Admin.Names.{Classes}
use shop_mall.Admin.Hashing.{Argon, hash_password, verify_password}
use shop_mall.Admin.Accounts.{
  read_admin, store_admin, close_sessions, logout, is_token_version_current,
}
use shop_mall.Admin.Hashing.{argon_params, argon_version, dollar}
use shop_mall.Admin.Login.{AuthenticateInput, Signer, authenticate}
use shop_mall.Admin.Tokens.{unchanged, logs_in, logs_out, by_logout, superseded_is_stale}
use shop_mall.Admin.Overlap.{logout-revives}
use shop_mall.Admin.Verify.{Lacks, Documented, verify_password-hash_password}
use shop_mall.Admin.Outcome.{Login, authenticate-Login}
use shop_mall.Examples.Shop.{shop}

-- A key of so many runes, and an encoding without a dollar sign, in the place of the libraries.
abbrev repeat : ℕ → ℕ → Text
repeat c zero = []
repeat c (suc n) = c ∷ repeat c n

abbrev shift : Text → Text
shift [] = []
shift (c ∷ s) = (c + 37) ∷ shift s

abbrev unshift : Text → Text
unshift [] = []
unshift (c ∷ s) = (c - 37) ∷ unshift s

abbrev argon : Argon
argon = record {
  id_key = λ password salt params n. repeat (length password + length salt) n;
  encode64 = shift;
  decode64 = λ s. some (unshift s);
  scan_version = λ s. some argon_version;
  scan_params = λ s. some argon_params;
}

shift-Lacks : (s : Text) → Lacks dollar (shift s)
shift-Lacks [] = refl
shift-Lacks (c ∷ s) = ground (arith, shift-Lacks s)

unshift-shift : (s : Text) → unshift (shift s) ≡ s
unshift-shift [] = refl
unshift-shift (c ∷ s) = ground (arith, unshift-shift s)

length-repeat : (c n : ℕ) → length (repeat c n) ≡ n
length-repeat c zero = refl
length-repeat c (suc n) = ap suc (length-repeat c n)

argon-Documented : Documented argon
argon-Documented = record {
  encoded_lacks = shift-Lacks;
  decoded = λ s. (ap some (unshift-shift s));
  version_scanned = refl;
  params_scanned = refl;
  key_length = λ password salt params n. (length-repeat (length password + length salt) n);
}

verify_password-hash_password_example :
    verify_password argon (112 ∷ 119 ∷ []) (hash_password argon (9 ∷ []) (112 ∷ 119 ∷ [])) ≡ true
verify_password-hash_password_example =
    verify_password-hash_password argon argon-Documented (9 ∷ []) (112 ∷ 119 ∷ [])

-- Every rune is of every class.
abbrev classes : Classes
classes = record {
  is_upper = λ c. true;
  is_lower = λ c. true;
  is_digit = λ c. true;
  is_punct = λ c. true;
  is_symbol = λ c. true;
  is_letter = λ c. true;
}

abbrev root : AdminUser
root = record {
  id = 8;
  username = 114 ∷ [];
  password_hash = hash_password argon (9 ∷ []) (112 ∷ []);
  token_version = 3;
  role_id = 6;
  enabled = true;
  last_login_at = none;
}

abbrev manager : Role
manager = record { id = 6; name = 109 ∷ []; remark = [] }

abbrev office : Db ℕ
office = record (shop []) { admin_users = root ∷ []; roles = manager ∷ [] }

abbrev credentials : AuthenticateInput
credentials = record { username = 114 ∷ []; password = 112 ∷ []; ip = [] }

abbrev signer : Signer
signer = λ id version now. ok (id ∷ version ∷ [])

authenticate-Login_example :
    Login argon signer 90 credentials office
      (authenticate (λ s. s) argon signer 90 none credentials office).0
authenticate-Login_example = authenticate-Login argon signer 90 credentials (λ s. s) none office

-- The tables after the logout.
abbrev office_later : Db ℕ
office_later = (logout undisturbed [] 8 office).1

root_logout : logout undisturbed [] 8 office ≡ (ok tt, office_later)
unfolding logout close_sessions read_admin store_admin write
root_logout = refl

superseded_is_stale_example :
    (is_token_version_current 8 3
      (logout undisturbed [] 8
        (authenticate (λ s. s) argon signer 90 none credentials office_later).0.1).1).0
    ≢ ok true
superseded_is_stale_example =
    superseded_is_stale argon classes 8 3 3 office office_later
      (logout undisturbed [] 8
        (authenticate (λ s. s) argon signer 90 none credentials office_later).0.1).1
      (by_logout {a = root} [] 8 refl root_logout)
      (logs_out [] 8 (logs_in (λ s. s) signer 90 none credentials unchanged)) (ground arith)

-- What others commit while the root account logs out: its password changes twice.
abbrev changed_twice : Db ℕ → Db ℕ
changed_twice db = record db { admin_users = record root { token_version = 5 } ∷ [] }

logout-revives_example :
    (let out = logout changed_twice [] 8 office in
      ((is_token_version_current 8 4 (changed_twice office)).0 ≡ ok false)
      × (out.0 ≡ ok tt)
      × ((is_token_version_current 8 4 out.1).0 ≡ ok true))
logout-revives_example =
    logout-revives changed_twice [] 8 office root (record root { token_version = 5 }) refl refl refl
      refl (omega arith)
