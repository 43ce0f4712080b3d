-- ===== src/Admin/Verify.antt =====
-- The stored password hashes of internal/admin/service.go are read back as they were printed.
use shop_mall.Common.Base.{ℕ, ◌≡◌, refl, ap, ◌∙◌, true, false, some, [], ◌∷◌, ◌++◌, arith, ◌==◌}
use shop_mall.Common.Table.{any, length}
use shop_mall.Common.Text.{Text, text_eq_refl}
use shop_mall.Admin.Hashing.{
  ArgonParams, Argon, argon_params, argon_key_length, argon_version, dollar, algorithm,
  version_text, params_text, split, print_hash, hash_password, decode_parts, decode_split,
  decode_password_hash, verify_password,
}

-- A text without the rune.
abbrev pub Lacks : ℕ → Text → Type 0
Lacks d s = any (λ c. c == d) s ≡ false

split-piece : (d : ℕ) (p s : Text) → Lacks d p → split d (p ++ d ∷ s) ≡ p ∷ split d s
unfolding split
split-piece d [] s h = ground arith
split-piece d (c ∷ p) s h = ground (arith, split-piece d p s)

split-last : (d : ℕ) (p : Text) → Lacks d p → split d p ≡ p ∷ []
unfolding split
split-last d [] h = refl
split-last d (c ∷ p) h = ground (arith, split-last d p)

-- What base64, fmt.Sscanf and package argon2 document: an encoding has no dollar sign and is decoded
-- to what it was made of, the scans read what is printed, and a key has the length asked for.
pub record Documented (argon : Argon) : Type 0 where
  pub encoded_lacks : (s : Text) → Lacks dollar (argon.encode64 s)
  pub decoded : (s : Text) → argon.decode64 (argon.encode64 s) ≡ some s
  pub version_scanned : argon.scan_version version_text ≡ some argon_version
  pub params_scanned : argon.scan_params params_text ≡ some argon_params
  pub key_length :
      (password salt : Text) (params : ArgonParams) (n : ℕ)
      → length (argon.id_key password salt params n) ≡ n

decode_parts-known :
    (argon : Argon) (params salt key : Text) (ps : ArgonParams) (s k : Text)
    → argon.scan_params params ≡ some ps
    → argon.decode64 salt ≡ some s
    → argon.decode64 key ≡ some k
    → decode_parts argon params salt key ≡ some (ps, s, k)
unfolding decode_parts
decode_parts-known argon params salt key ps s k scanned first second = ground arith

module _ (argon : Argon) (documented : Documented argon) where
  split_hash :
      (salt key : Text)
      → split dollar (print_hash argon salt key)
        ≡ []
          ∷ algorithm
          ∷ version_text
          ∷ params_text
          ∷ argon.encode64 salt
          ∷ argon.encode64 key
          ∷ []
  unfolding print_hash
  split_hash salt key =
      let e1 =
        split-piece dollar []
          (algorithm
            ++ dollar ∷ version_text
            ++ dollar ∷ params_text
            ++ dollar ∷ argon.encode64 salt
            ++ dollar ∷ argon.encode64 key)
          refl in
      let e2 =
        split-piece dollar algorithm
          (version_text
            ++ dollar ∷ params_text
            ++ dollar ∷ argon.encode64 salt
            ++ dollar ∷ argon.encode64 key)
          refl in
      let e3 =
        split-piece dollar version_text
          (params_text ++ dollar ∷ argon.encode64 salt ++ dollar ∷ argon.encode64 key) refl in
      let e4 =
        split-piece dollar params_text (argon.encode64 salt ++ dollar ∷ argon.encode64 key) refl in
      let e5 =
        split-piece dollar (argon.encode64 salt) (argon.encode64 key)
          (documented.encoded_lacks salt) in
      let e6 = split-last dollar (argon.encode64 key) (documented.encoded_lacks key) in
      e1
      ∙ ap (λ r. [] ∷ r)
          (e2
            ∙ ap (λ r. algorithm ∷ r)
                (e3
                  ∙ ap (λ r. version_text ∷ r)
                      (e4 ∙ ap (λ r. params_text ∷ r) (e5 ∙ ap (λ r. argon.encode64 salt ∷ r) e6))))

  decode_known :
      (salt key : Text)
      → decode_parts argon params_text (argon.encode64 salt) (argon.encode64 key)
        ≡ some (argon_params, salt, key)
  decode_known salt key =
      decode_parts-known argon params_text (argon.encode64 salt) (argon.encode64 key) argon_params
        salt key documented.params_scanned (documented.decoded salt) (documented.decoded key)

  decode_print :
      (salt key : Text)
      → decode_password_hash argon (print_hash argon salt key) ≡ some (argon_params, salt, key)
  unfolding decode_password_hash decode_split
  decode_print salt key =
      rw (split_hash salt key, text_eq_refl algorithm, documented.version_scanned)
        (decode_known salt key)

  -- The password that a hash is made of is verified by it, whatever the salt.
  pub verify_password-hash_password :
      (salt password : Text)
      → verify_password argon password (hash_password argon salt password) ≡ true
  unfolding verify_password hash_password
  verify_password-hash_password salt password =
      let key = argon.id_key password salt argon_params argon_key_length in
      rw (decode_print salt key, documented.key_length password salt argon_params argon_key_length)
        (text_eq_refl key)
