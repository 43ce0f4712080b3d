-- ===== src/Admin/Names.antt =====
-- internal/admin/service.go: `ValidatePassword` and `ValidateUsername`. The classes of package
-- unicode are a parameter.
use shop_mall.Common.Base.{ℕ, Bool, true, false, not, ◌&&◌, ◌||◌, [], ◌∷◌, ltb, ◌==◌, if◌then◌else◌}
use shop_mall.Common.Text.{Text, byte_len, trim_space, is_blank}

-- unicode.IsUpper and its kin.
pub record Classes : Type 0 where
  pub is_upper : ℕ → Bool
  pub is_lower : ℕ → Bool
  pub is_digit : ℕ → Bool
  pub is_punct : ℕ → Bool
  pub is_symbol : ℕ → Bool
  pub is_letter : ℕ → Bool

-- The classes of runes that a password has been seen to have.
pub record Seen : Type 0 where
  pub has_upper : Bool
  pub has_lower : Bool
  pub has_digit : Bool
  pub has_symbol : Bool

module _ (classes : Classes) where
  -- The `switch` of the loop: the first class that fits.
  unfoldable pub see : ℕ → Seen → Seen
  see r seen =
      if classes.is_upper r
      then record seen { has_upper = true }
      else if classes.is_lower r
      then record seen { has_lower = true }
      else if classes.is_digit r
      then record seen { has_digit = true }
      else if classes.is_punct r || classes.is_symbol r
      then record seen { has_symbol = true }
      else seen

  unfoldable pub see_all : Text → Seen → Seen
  unfolding see
  see_all [] seen = seen
  see_all (r ∷ rs) seen = see_all rs (see r seen)

  -- `ValidatePassword`: at least 12 bytes, of four classes.
  unfoldable pub valid_password : Text → Bool
  unfolding see_all
  valid_password value =
      let seen =
        see_all value (record {
          has_upper = false;
          has_lower = false;
          has_digit = false;
          has_symbol = false;
        }) in
      not (ltb (byte_len value) 12)
      && seen.has_upper
      && seen.has_lower
      && seen.has_digit
      && seen.has_symbol

  -- A letter, a digit, a dot, a dash or an underscore.
  unfoldable pub username_rune : ℕ → Bool
  username_rune r = classes.is_letter r || classes.is_digit r || r == 46 || r == 45 || r == 95

  unfoldable pub all_username_runes : Text → Bool
  unfolding username_rune
  all_username_runes [] = true
  all_username_runes (r ∷ rs) = username_rune r && all_username_runes rs

  -- A space, a tab, a carriage return or a line feed.
  unfoldable pub has_blank : Text → Bool
  has_blank [] = false
  has_blank (r ∷ rs) = r == 32 || r == 9 || r == 13 || r == 10 || has_blank rs

  -- `ValidateUsername`
  unfoldable pub valid_username : Text → Bool
  unfolding has_blank all_username_runes
  valid_username value =
      let trimmed = trim_space value in
      not (is_blank trimmed)
      && not (has_blank trimmed)
      && not (ltb (byte_len trimmed) 3 || ltb 32 (byte_len trimmed))
      && all_username_runes trimmed
