-- ===== src/UnitTests/Keys.antt =====
-- src/limiter.rs, `tests`: identities and bucket keys that must differ.
use postfix_ratelimitd.Base.{◌≡◌, refl, Bool, true, not}
use postfix_ratelimitd.Base.Text.{codes, text_eq}
use postfix_ratelimitd.Base.Decimal.{decimal}
use postfix_ratelimitd.Limiter.Keys.{
  contains_char, replace_char, escape_identity_value, identity, bucket_key, sasl_identity_kind,
}

abbrev identity_distinguishes_kinds_sharing_the_same_value : Bool
identity_distinguishes_kinds_sharing_the_same_value = not (
    text_eq (identity (codes "sasl") (codes "alice"))
      (identity (codes "mail-from") (codes "alice")))

abbrev bucket_key_does_not_collide_across_the_identity_bucket_size_boundary : Bool
bucket_key_does_not_collide_across_the_identity_bucket_size_boundary = not (
    text_eq (bucket_key (codes "prefix") (identity sasl_identity_kind (codes "alice:64")) 1)
      (bucket_key (codes "prefix") (identity sasl_identity_kind (codes "alice")) 64))

abbrev bucket_key_does_not_collide_when_a_username_ends_in_a_backslash : Bool
bucket_key_does_not_collide_when_a_username_ends_in_a_backslash = not (
    text_eq (bucket_key (codes "prefix") (identity sasl_identity_kind (codes "alice\\")) 64)
      (bucket_key (codes "prefix") (identity sasl_identity_kind (codes "alice")) 64))

all_pass :
    (identity_distinguishes_kinds_sharing_the_same_value ≡ true)
    × (bucket_key_does_not_collide_across_the_identity_bucket_size_boundary ≡ true)
    × (bucket_key_does_not_collide_when_a_username_ends_in_a_backslash ≡ true)
unfolding text_eq identity bucket_key escape_identity_value contains_char replace_char decimal
all_pass = (refl, refl, refl)
