-- ===== src/Admin/Hashing.antt =====
-- internal/admin/service.go: the Argon2id hashes of the passwords, as they are stored. Package
-- argon2, base64 and fmt.Sscanf are a parameter; a byte string is a text.
use shop_mall.Common.Base.{
  ℕ, Bool, false, not, Option, none, some, List, [], ◌∷◌, ◌++◌, ◌==◌, if◌then◌else◌,
}
use shop_mall.Common.Table.{length}
use shop_mall.Common.Text.{Text, text_eq}

-- `argonParams`
pub record ArgonParams : Type 0 where
  pub memory : ℕ
  pub iterations : ℕ
  pub parallelism : ℕ

pub record Argon : Type 0 where
  pub id_key : Text → Text → ArgonParams → ℕ → Text
  pub encode64 : Text → Text
  pub decode64 : Text → Option Text
  pub scan_version : Text → Option ℕ
  pub scan_params : Text → Option ArgonParams

-- argonMemory, argonIterations and argonParallelism.
abbrev pub argon_params : ArgonParams
argon_params = record { memory = 65536; iterations = 3; parallelism = 2 }

-- argonKeyLength
abbrev pub argon_key_length : ℕ
argon_key_length = 32

-- argon2.Version
abbrev pub argon_version : ℕ
argon_version = 19

-- '$'
abbrev pub dollar : ℕ
dollar = 36

-- "argon2id"
abbrev pub algorithm : Text
algorithm = 97 ∷ 114 ∷ 103 ∷ 111 ∷ 110 ∷ 50 ∷ 105 ∷ 100 ∷ []

-- "v=19"
abbrev pub version_text : Text
version_text = 118 ∷ 61 ∷ 49 ∷ 57 ∷ []

-- "m=65536,t=3,p=2"
abbrev pub params_text : Text
params_text = 109 ∷ 61 ∷ 54 ∷ 53 ∷ 53 ∷ 51 ∷ 54 ∷ 44 ∷ 116 ∷ 61 ∷ 51 ∷ 44 ∷ 112 ∷ 61 ∷ 50 ∷ []

abbrev pub put_head : ℕ → List Text → List Text
put_head c [] = (c ∷ []) ∷ []
put_head c (p ∷ ps) = (c ∷ p) ∷ ps

-- strings.Split by one rune.
unfoldable pub split : ℕ → Text → List Text
split d [] = [] ∷ []
split d (c ∷ s) = let rest = split d s in if c == d then [] ∷ rest else put_head c rest

module _ (argon : Argon) where
  -- The string that `hashPassword` prints, for the salt and the key.
  unfoldable pub print_hash : Text → Text → Text
  print_hash salt key =
      dollar ∷ algorithm
      ++ dollar ∷ version_text
      ++ dollar ∷ params_text
      ++ dollar ∷ argon.encode64 salt
      ++ dollar ∷ argon.encode64 key

  -- `hashPassword`, with the salt that rand.Read gives.
  unfoldable pub hash_password : Text → Text → Text
  unfolding print_hash
  hash_password salt password =
      print_hash salt (argon.id_key password salt argon_params argon_key_length)

  -- The salt and the key of the last two parts.
  unfoldable pub decode_parts : Text → Text → Text → Option (ArgonParams × Text × Text)
  decode_parts params salt key = elim (argon.scan_params params) [
    | none ↦ none
    | some ps ↦ elim (argon.decode64 salt) [
      | none ↦ none
      | some s ↦ elim (argon.decode64 key) [ none ↦ none | some k ↦ some (ps, s, k) ]
    ]
  ]

  -- The parts after the split: there are six, of the algorithm and the version at hand.
  unfoldable pub decode_split : List Text → Option (ArgonParams × Text × Text)
  unfolding decode_parts
  decode_split (empty ∷ name ∷ version ∷ params ∷ salt ∷ key ∷ []) =
      if not (text_eq name algorithm) then none else elim (argon.scan_version version) [
        | none ↦ none
        | some v ↦ if not (v == argon_version) then none else decode_parts params salt key
      ]
  decode_split _ = none

  -- `decodePasswordHash`
  unfoldable pub decode_password_hash : Text → Option (ArgonParams × Text × Text)
  unfolding decode_split split
  decode_password_hash encoded = decode_split (split dollar encoded)

  -- `verifyPassword`
  unfoldable pub verify_password : Text → Text → Bool
  unfolding decode_password_hash
  verify_password password encoded = elim (decode_password_hash encoded) [
    | none ↦ false
    | some (params, salt, key) ↦ text_eq (argon.id_key password salt params (length key)) key
  ]
