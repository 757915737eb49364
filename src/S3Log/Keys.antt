-- ===== src/S3Log/Keys.antt =====
-- IsLogKey of internal/s3log/s3log.go.
use ctaudit.Prelude.{
  ℕ, if◌then◌else◌, Bool, false, ◌&&◌, ◌||◌, not, [], ◌∷◌, eqb, leb, any_of, is_empty,
}
use ctaudit.Text.{Str, codes}

abbrev pub is_digit : ℕ → Bool
is_digit c = leb b'0' c && leb c b'9'

abbrev pub is_alphanumeric : ℕ → Bool
is_alphanumeric c = is_digit c || (leb b'A' c && leb c b'Z') || (leb b'a' c && leb c b'z')

-- A text that follows the shape, in which `0` stands for a digit, and then has letters and digits
-- alone, one at least.
unfoldable pub follows : Str → Str → Bool
follows [] s = not (is_empty s) && not (any_of (λ c. not (is_alphanumeric c)) s)
follows (p ∷ shape) [] = false
follows (p ∷ shape) (c ∷ s) = (if eqb p b'0' then is_digit c else eqb c p) && follows shape s

-- The regular expression matches some end of the key.
unfoldable pub ends_with_shape : Str → Str → Bool
unfolding follows
ends_with_shape shape [] = false
ends_with_shape shape (c ∷ key) = follows shape (c ∷ key) || ends_with_shape shape key

-- IsLogKey(key)
unfoldable pub is_s3_log_key : Str → Bool
unfolding codes
is_s3_log_key key = ends_with_shape (codes "0000-00-00-00-00-00-") key
