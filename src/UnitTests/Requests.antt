-- ===== src/UnitTests/Requests.antt =====
-- src/protocol.rs, `tests`: what counts as a SASL username.
use postfix_ratelimitd.Base.{◌≡◌, refl, Bool, true, false, [], ◌∷◌, Option, none, some, is_none}
use postfix_ratelimitd.Base.Text.{Text, codes, text_eq}
use postfix_ratelimitd.Protocol.{Request, get, is_whitespace, trim_end, sasl_username}

abbrev request_with_sasl_username : Text → Request
request_with_sasl_username username = record { attributes = (codes "sasl_username", username) ∷ [] }

abbrev is_username : Text → Option Text → Bool
is_username name none = false
is_username name (some other) = text_eq other name

abbrev empty_sasl_username_is_absent : Bool
empty_sasl_username_is_absent = is_none (sasl_username (request_with_sasl_username (codes "")))

abbrev whitespace_only_sasl_username_is_absent : Bool
whitespace_only_sasl_username_is_absent =
    is_none (sasl_username (request_with_sasl_username (codes "   ")))

abbrev sasl_username_is_trimmed : Bool
sasl_username_is_trimmed =
    is_username (codes "alice") (sasl_username (request_with_sasl_username (codes "  alice  ")))

all_pass :
    (empty_sasl_username_is_absent ≡ true)
    × (whitespace_only_sasl_username_is_absent ≡ true)
    × (sasl_username_is_trimmed ≡ true)
unfolding sasl_username get is_whitespace trim_end text_eq
all_pass = (refl, refl, refl)
