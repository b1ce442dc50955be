-- ===== src/Limiter/Keys.antt =====
-- src/limiter.rs: identities and bucket keys.
pub mod Injective
use postfix_ratelimitd.Base.{ℕ, Bool, ◌||◌, List, [], ◌∷◌, ◌++◌, ◌==◌, if◌then◌else◌, false}
use postfix_ratelimitd.Base.Text.{Text, codes}
use postfix_ratelimitd.Base.Decimal.{decimal}

-- `s.contains(c)`
unfoldable pub contains_char : ℕ → Text → Bool
contains_char c [] = false
contains_char c (d ∷ s) = d == c || contains_char c s

-- `s.replace(c, with)` for a single character
unfoldable pub replace_char : ℕ → Text → Text → Text
replace_char c with [] = []
replace_char c with (d ∷ s) =
    let rest = replace_char c with s in if d == c then with ++ rest else d ∷ rest

unfoldable pub escape_identity_value : Text → Text
unfolding contains_char replace_char
escape_identity_value value =
    if contains_char b'\\' value || contains_char b':' value
    then replace_char b':' (b'\\' ∷ b':' ∷ []) (replace_char b'\\' (b'\\' ∷ b'\\' ∷ []) value)
    else value

abbrev pub sasl_identity_kind : Text
sasl_identity_kind = codes "sasl"

abbrev pub bucket_key_type : Text
bucket_key_type = codes "bucket"

abbrev pub bucket_schema_version : Text
bucket_schema_version = codes "v1"

-- The `debug_assert!` on `kind` is a hypothesis of the theorems: release builds skip it.
unfoldable pub identity : Text → Text → Text
identity kind value = kind ++ b':' ∷ escape_identity_value value

unfoldable pub bucket_key : Text → Text → ℕ → Text
bucket_key key_prefix id bucket_size =
    key_prefix
    ++ (b':' ∷ bucket_key_type
        ++ (b':' ∷ bucket_schema_version ++ (b':' ∷ id ++ (b':' ∷ decimal bucket_size))))
