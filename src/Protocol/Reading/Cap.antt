-- ===== src/Protocol/Reading/Cap.antt =====
-- How far `Request::read_from` of src/protocol.rs reads, and that it always comes to an end.
use postfix_ratelimitd.Base.{
  ℕ, zero, suc, ◌+◌, ◌-◌, ◌≡◌, ◌≤◌, ◌<◌, refl, false, List, [], ◌∷◌, some, ◌==◌, is_empty, length,
  arith, Bool-cases, Option-cases, inl, inr,
}
use postfix_ratelimitd.Base.Text.{Text}
use postfix_ratelimitd.Protocol.{Attributes, trim_end}
use postfix_ratelimitd.Protocol.Utf8.{from_utf8, from_utf8-ascii}
use postfix_ratelimitd.Protocol.Reading.{
  Stream, ReadResult, request, eof, failed, out_of_fuel, too_large, unexpected_eof, invalid_utf8,
  io_failed, take_line, ends_with_newline, is_line_end, add_attribute, hits_failure, read_lines,
  read_from, max_request_bytes,
}

-- With `n` bytes to come and `limit` of them allowed: a request takes at least one byte and at most
-- `limit`, the size error means that the cap was reached, and the loop ends.
abbrev pub IsWithin : ℕ → ℕ → ReadResult → Type 0
IsWithin limit n (request r s) = (length s.bytes < n) × (n ≤ length s.bytes + limit)
IsWithin limit n eof = Unit {0}
IsWithin limit n (failed too_large) = limit ≤ n
IsWithin limit n (failed unexpected_eof) = Unit {0}
IsWithin limit n (failed invalid_utf8) = Unit {0}
IsWithin limit n (failed io_failed) = Unit {0}
IsWithin limit n out_of_fuel = ⊥

IsWithin-later :
    (taken limit n : ℕ) (r : ReadResult)
    → IsWithin limit n r
    → IsWithin (taken + limit) (taken + n) r
IsWithin-later taken limit n (request r s) h = (omega arith, omega arith)
IsWithin-later taken limit n eof h = tt
IsWithin-later taken limit n (failed too_large) h = omega arith
IsWithin-later taken limit n (failed unexpected_eof) h = tt
IsWithin-later taken limit n (failed invalid_utf8) h = tt
IsWithin-later taken limit n (failed io_failed) h = tt
IsWithin-later taken limit n out_of_fuel h = h

pub take_line-counts :
    (limit : ℕ) (bytes : List ℕ)
    → (length (take_line limit bytes).line + length (take_line limit bytes).rest ≡ length bytes)
      × (length (take_line limit bytes).line + (take_line limit bytes).limit ≡ limit)
unfolding take_line
take_line-counts limit [] = (refl, omega arith)
take_line-counts limit (b ∷ bytes) =
    let ih = take_line-counts (limit - 1) bytes in
    elim (Bool-cases (limit == 0)) [
      | inl e ↦ ground (arith, e)
      | inr e ↦ elim (Bool-cases (b == 10)) [
        | inl f ↦ ground (arith, e, f)
        | inr f ↦ ground (arith, e, f, ih.0, ih.1)
      ]
    ]

pub length-positive :
    (bytes : List ℕ) (text : Text)
    → from_utf8 bytes ≡ some text
    → is_empty text ≡ false
    → 0 < length bytes
length-positive [] text e h = let nil = from_utf8-ascii [] tt in ground (arith, nil)
length-positive (b ∷ bytes) text e h = omega arith

pub read_lines-IsWithin :
    (fuel limit : ℕ) (attributes : Attributes) (stream : Stream)
    → length stream.bytes < fuel
    → IsWithin limit (length stream.bytes) (read_lines fuel limit attributes stream)
unfolding read_lines
read_lines-IsWithin zero limit attributes stream h = omega arith
read_lines-IsWithin (suc fuel) limit attributes stream h =
    let l = take_line limit stream.bytes in
    let counts = take_line-counts limit stream.bytes in
    elim (Bool-cases (hits_failure stream.ending l)) [
      | inl e ↦ rw e tt
      | inr e ↦ elim (Option-cases (from_utf8 l.line)) [
        | inl f ↦ rw (e, f) tt
        | inr (line, f) ↦ elim (Bool-cases (is_empty line)) [
          | inl g ↦ elim (Bool-cases (l.limit == 0)) [
            | inl z ↦ rw (e, f, g, z) (ground (arith, z, counts.0, counts.1))
            | inr z ↦ rw (e, f, g, z) tt
          ]
          | inr g ↦
              let positive = length-positive l.line line f g in
              let trimmed = trim_end is_line_end line in
              let attributes' = add_attribute trimmed attributes in
              let next = record stream { bytes = l.rest } in
              elim (Bool-cases (ends_with_newline line)) [
                | inl n ↦ elim (Bool-cases (is_empty trimmed)) [
                  | inl t ↦ rw (e, f, g, n, t) (omega (arith, counts.0, counts.1, positive))
                  | inr t ↦
                      let ih =
                        read_lines-IsWithin fuel l.limit attributes' next
                          (omega (arith, counts.0)) in
                      let later = IsWithin-later (length l.line) l.limit (length l.rest) _ ih in
                      rw (e, f, g, n, t) ground (arith, later, counts.0, counts.1)
                ]
                | inr n ↦ elim (Bool-cases (l.limit == 0)) [
                  | inl z ↦ rw (e, f, g, n, z) (ground (arith, z, counts.0, counts.1))
                  | inr z ↦ rw (e, f, g, n, z) tt
                ]
              ]
        ]
      ]
    ]

-- Reading a request always comes to an end; it never takes more than 64 KiB, it takes at least one
-- byte when it returns a request, and the size error is only given when 64 KiB were there.
pub read_from-IsWithin :
    (stream : Stream) → IsWithin max_request_bytes (length stream.bytes) (read_from stream)
unfolding read_from
read_from-IsWithin stream =
    read_lines-IsWithin (suc (length stream.bytes)) max_request_bytes [] stream (omega arith)
