-- ===== src/Protocol/Reading/Roundtrip.antt =====
-- What a client writes is what `Request::read_from` of src/protocol.rs reads.
use postfix_ratelimitd.Base.{
  ℕ, zero, suc, ◌-◌, ◌≡◌, ◌≢◌, ◌≤◌, ◌<◌, refl, true, false, List, [], ◌∷◌, ◌++◌, some, is_empty,
  length, arith, if◌then◌else◌, All, All-append, All-weaken, length-append,
}
use postfix_ratelimitd.Base.Text.{Text}
use postfix_ratelimitd.Protocol.{Attributes, insert, trim_end}
use postfix_ratelimitd.Protocol.Utf8.{from_utf8, from_utf8-ascii}
use postfix_ratelimitd.Protocol.Utf8.Encoding.{IsScalar, to_utf8, from_utf8-to_utf8, to_utf8-ne}
use postfix_ratelimitd.Base.{inl}
use postfix_ratelimitd.Protocol.Reading.{
  Ending, closes, fails, eof, request, Line, take_line, ends_with_newline, is_line_end, split_once,
  add_attribute, hits_failure, read_lines, read_from, max_request_bytes,
}

-- A character that ends no line.
abbrev pub IsPlain : ℕ → Type 0
IsPlain c = IsScalar c × (c ≢ 10) × (c ≢ 13)

-- A key is plain and has no `=`; a value is plain.
abbrev pub IsAttribute : Text × Text → Type 0
IsAttribute (key, value) = All (λ c. IsPlain c × (c ≢ 61)) key × All IsPlain value

abbrev pub attribute_text : Text × Text → Text
attribute_text (key, value) = key ++ 61 ∷ value

-- In UTF-8, one line for each attribute, then an empty line.
abbrev pub encode : Attributes → List ℕ → List ℕ
encode [] rest = 10 ∷ rest
encode (a ∷ more) rest = to_utf8 (attribute_text a) ++ 10 ∷ encode more rest

abbrev pub insert_all : Attributes → Attributes → Attributes
insert_all [] m = m
insert_all ((key, value) ∷ rest) m = insert_all rest (insert key value m)

pub take_line-plain :
    (limit : ℕ) (s rest : List ℕ)
    → All (λ b. b ≢ 10) s
    → length s < limit
    → take_line limit (s ++ 10 ∷ rest)
      ≡ record { line = s ++ 10 ∷ []; rest = rest; limit = limit - suc (length s) }
unfolding take_line
take_line-plain limit [] rest h lt = (ground arith)
take_line-plain limit (c ∷ s) rest h lt =
    let ih = take_line-plain (limit - 1) s rest h.1 (omega arith) in (ground (arith, ih, h.0))

pub ends_with_newline-snoc : (s : List ℕ) → ends_with_newline (s ++ 10 ∷ []) ≡ true
unfolding ends_with_newline
ends_with_newline-snoc [] = refl
ends_with_newline-snoc (c ∷ []) = refl
ends_with_newline-snoc (c ∷ d ∷ s) = ends_with_newline-snoc (d ∷ s)

pub trim_end-plain : (s : Text) → All IsPlain s → trim_end is_line_end (s ++ 10 ∷ []) ≡ s
unfolding trim_end
trim_end-plain [] h = refl
trim_end-plain (c ∷ []) h = (ground (arith, h.0.0, h.0.1))
trim_end-plain (c ∷ d ∷ s) h = let ih = trim_end-plain (d ∷ s) h.1 in (ground (arith, ih))

split_once-join :
    (key value : Text)
    → All (λ c. IsPlain c × (c ≢ 61)) key
    → split_once (key ++ 61 ∷ value) ≡ some (key, value)
unfolding split_once
split_once-join [] value h = refl
split_once-join (c ∷ key) value h =
    let ih = split_once-join key value h.1 in (ground (arith, ih, h.0.1))

attribute-IsPlain : (a : Text × Text) → IsAttribute a → All IsPlain (attribute_text a)
attribute-IsPlain (key, value) h =
    All-append IsPlain key (61 ∷ value) (All-weaken _ IsPlain key (λ c p. p.0) h.0)
      (((omega arith, inl (omega arith)), λ e. omega (arith, e), λ e. omega (arith, e)), h.1)

pub line-decoded :
    (s : Text) → All IsPlain s → from_utf8 (to_utf8 s ++ 10 ∷ []) ≡ some (s ++ 10 ∷ [])
line-decoded s h =
    from_utf8-to_utf8 s (10 ∷ []) (10 ∷ []) (All-weaken IsPlain IsScalar s (λ c p. p.0) h)
      (from_utf8-ascii (10 ∷ []) (omega arith, tt))

pub line-bytes : (s : Text) → All IsPlain s → All (λ b. b ≢ 10) (to_utf8 s)
line-bytes s h = to_utf8-ne 10 s (omega arith) (All-weaken IsPlain _ s (λ c p. p.1) h)

pub snoc-not-empty : (s : List ℕ) (c : ℕ) → is_empty (s ++ c ∷ []) ≡ false
snoc-not-empty [] c = refl
snoc-not-empty (d ∷ s) c = refl

attribute-not-empty : (a : Text × Text) → is_empty (attribute_text a) ≡ false
attribute-not-empty ([], value) = refl
attribute-not-empty (c ∷ key, value) = refl

pub not-failing :
    (ending : Ending) (l : Line) → ends_with_newline l.line ≡ true → hits_failure ending l ≡ false
unfolding hits_failure
not-failing closes l h = refl
not-failing fails l h = rw h refl

-- A plain line: one round of the loop, whatever the line says.
read_lines-line :
    (fuel limit : ℕ) (m : Attributes) (ending : Ending) (s : Text) (rest : List ℕ)
    → All IsPlain s
    → length (to_utf8 s) < limit
    → read_lines (suc fuel) limit m (record { bytes = to_utf8 s ++ 10 ∷ rest; ending = ending }) ≡ (
        if is_empty s
        then request (record { attributes = m }) (record { bytes = rest; ending = ending })
        else read_lines fuel
            (limit - suc (length (to_utf8 s)))
            (add_attribute s m)
            (record { bytes = rest; ending = ending }))
unfolding read_lines
read_lines-line fuel limit m ending s rest h lt =
    let took = take_line-plain limit (to_utf8 s) rest (line-bytes s h) lt in
    let newline = ends_with_newline-snoc (to_utf8 s) in
    let text_newline = ends_with_newline-snoc s in
    let healthy = not-failing ending (take_line limit (to_utf8 s ++ 10 ∷ rest)) (rw took newline) in
    let decoded = line-decoded s h in
    let trimmed = trim_end-plain s h in
    let some_line = snoc-not-empty s 10 in
    ground (arith, took, newline, text_newline, healthy, decoded, trimmed, some_line)

add_attribute-join :
    (key value : Text) (m : Attributes)
    → All (λ c. IsPlain c × (c ≢ 61)) key
    → add_attribute (key ++ 61 ∷ value) m ≡ insert key value m
unfolding add_attribute
add_attribute-join key value m h = rw (add_attribute, split_once-join key value h) refl

read_lines-encode :
    (attributes : Attributes) (fuel limit : ℕ) (m : Attributes) (ending : Ending) (rest : List ℕ)
    → All IsAttribute attributes
    → length attributes < fuel
    → length (encode attributes []) ≤ limit
    → read_lines fuel limit m (record { bytes = encode attributes rest; ending = ending })
      ≡ request
          (record { attributes = insert_all attributes m })
          (record { bytes = rest; ending = ending })
read_lines-encode [] zero limit m ending rest h lt le = elim lt [ ]
read_lines-encode (a ∷ more) zero limit m ending rest h lt le = elim lt [ ]
read_lines-encode [] (suc fuel) limit m ending rest h lt le =
    read_lines-line fuel limit m ending [] rest tt (omega arith)
read_lines-encode ((key, value) ∷ more) (suc fuel) limit m ending rest h lt le =
    let size = length-append (to_utf8 (key ++ 61 ∷ value)) (10 ∷ encode more []) in
    let fits : length (to_utf8 (attribute_text (key, value))) < limit = omega (arith, size, le) in
    rw
      (
        read_lines-line fuel limit m ending (attribute_text (key, value)) (encode more rest)
            (attribute-IsPlain (key, value) h.0) fits,
        attribute-not-empty (key, value),
        add_attribute-join key value m h.0.0,
      )
      (read_lines-encode more fuel (limit - suc (length (to_utf8 (attribute_text (key, value)))))
        (insert key value m) ending rest h.1 (omega arith) (omega (arith, size, le)))

length-encode :
    (attributes : Attributes) (rest : List ℕ) → length attributes < length (encode attributes rest)
length-encode [] rest = omega arith
length-encode (a ∷ more) rest = omega (
  arith,
  length-encode more rest,
  length-append (to_utf8 (attribute_text a)) (10 ∷ encode more rest),
)

pub read_from_nothing : read_from (record { bytes = []; ending = closes }) ≡ eof
unfolding read_from
read_from_nothing = let none_read = from_utf8-ascii [] tt in ground (arith, none_read)

-- A client that writes attributes in UTF-8, one line each, and then an empty line, 64 KiB at most in
-- all, with no line end in any of them and no `=` in a key, is answered for exactly these: the request
-- read holds them, a later value of a key standing before an earlier one, and the next request begins
-- behind the empty line. How the connection ends then, and what follows, makes no difference.
pub read_from-encode :
    (attributes : Attributes) (rest : List ℕ) (ending : Ending)
    → All IsAttribute attributes
    → length (encode attributes []) ≤ max_request_bytes
    → read_from (record { bytes = encode attributes rest; ending = ending })
      ≡ request
          (record { attributes = insert_all attributes [] })
          (record { bytes = rest; ending = ending })
unfolding read_from
read_from-encode attributes rest ending h le =
    let more = length-encode attributes rest in
    read_lines-encode attributes (suc (length (encode attributes rest))) max_request_bytes [] ending
      rest h (omega (arith, more)) le
