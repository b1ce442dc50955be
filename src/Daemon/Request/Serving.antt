-- ===== src/Daemon/Request/Serving.antt =====
-- src/bin/postfix-ratelimitd.rs: `handle_connection`, on what one Postfix connection delivers.
pub mod Pipeline
use postfix_ratelimitd.Base.{
  ◌≡◌, ◌≢◌, ◌<◌, Bool, List, [], ◌∷◌, length, arith, refl, subst, Bool-cases, inl, inr,
  if◌then◌else◌,
}
use postfix_ratelimitd.Base.Text.{Text}
use postfix_ratelimitd.Config.Redis.{RedisApi}
use postfix_ratelimitd.Config.Rules.{RegexApi}
use postfix_ratelimitd.Config.Load.{Config}
use postfix_ratelimitd.Valkey.{Valkey}
use postfix_ratelimitd.Limiter.Check.{Delivery}
use postfix_ratelimitd.Protocol.Reading.{
  Stream, ReadResult, request, eof, failed, out_of_fuel, read_from, max_request_bytes,
}
use postfix_ratelimitd.Protocol.Reading.Cap.{IsWithin, read_from-IsWithin}
use postfix_ratelimitd.Daemon.Stats.{malformed, Journal, count}
use postfix_ratelimitd.Daemon.Request.{Action, handle_request}

-- How serving a connection ended.
pub data Ended : Type 0 where
  cancelled closed read_error write_error unfinished : Ended

module _ (R : RedisApi) (X : RegexApi) (V : Valkey) where
  -- What a round meets: whether shutdown comes first, the state that is loaded, the network, and
  -- whether the answer can be written.
  pub record Round : Type 0 where
    pub cancelled : Bool
    pub config : Config R X
    pub key_prefix : Text
    pub delivery : Delivery
    pub written : Bool

  -- The answers written, how it ended, the journal and the database.
  pub record Served : Type 0 where
    pub answers : List Action
    pub ended : Ended
    pub journal : Journal
    pub db : V.Db

  abbrev pub ends : Ended → Journal → V.Db → Served
  ends how j d = record { answers = []; ended = how; journal = j; db = d }

  -- The loop, with what each round meets. It is `unfinished` only where the rounds run out.
  unfoldable pub handle_connection : List Round → Stream → Journal → V.Db → Served
  unfolding read_from handle_request count
  handle_connection [] stream j d = ends unfinished j d
  handle_connection (round ∷ rounds) stream j d =
      if round.cancelled then ends cancelled j d else elim (read_from stream) [
        | eof ↦ ends closed j d
        | failed e ↦ ends read_error (count malformed j) d
        | out_of_fuel ↦ ends unfinished j d
        | request r stream' ↦
            let answer = handle_request R X V r round.config round.key_prefix round.delivery j d in
            let rest = handle_connection rounds stream' answer.journal answer.db in
            if round.written
            then record rest { answers = answer.action ∷ rest.answers }
            else ends write_error answer.journal answer.db
      ]

  read_cases :
      (P : Type 0) (r : ReadResult)
      → (r ≡ eof → P)
      → ((e : _) → r ≡ failed e → P)
      → (r ≡ out_of_fuel → P)
      → ((q : _) (s : Stream) → r ≡ request q s → P)
      → P
  read_cases P eof a b c d = a refl
  read_cases P (failed e) a b c d = b e refl
  read_cases P out_of_fuel a b c d = c refl
  read_cases P (request q s) a b c d = d q s refl

  -- A connection that delivers fewer bytes than there are rounds has come to an end, whatever the
  -- bytes are: no round leaves the loop where it was.
  pub handle_connection-ends :
      (rounds : List Round) (stream : Stream) (j : Journal) (d : V.Db)
      → length stream.bytes < length rounds
      → (handle_connection rounds stream j d).ended ≢ unfinished
  unfolding handle_connection
  handle_connection-ends [] stream j d h e = omega (arith, h)
  handle_connection-ends (round ∷ rounds) stream j d h e =
      let within = read_from-IsWithin stream in
      elim (Bool-cases round.cancelled) [
        | inl c ↦ ground (arith, c, e)
        | inr c ↦
            read_cases ⊥ (read_from stream) (λ f. ground (arith, c, f, e))
              (λ x f. ground (arith, c, f, e)) (λ f. ground (arith, f, within))
              (λ q s f. elim (Bool-cases round.written) [
                | inr w ↦ ground (arith, c, f, w, e)
                | inl w ↦
                    let answer =
                      handle_request R X V q round.config round.key_prefix round.delivery j d in
                    let few =
                      subst (λ r. IsWithin max_request_bytes (length stream.bytes) r) f within in
                    let ih =
                      handle_connection-ends rounds s answer.journal answer.db
                        (omega (arith, few.0, h)) in
                    ground (arith, c, f, w, e, ih)
              ])
      ]
