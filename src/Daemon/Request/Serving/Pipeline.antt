-- ===== src/Daemon/Request/Serving/Pipeline.antt =====
-- src/bin/postfix-ratelimitd.rs: the answers that one Postfix connection gets for its requests.
use postfix_ratelimitd.Base.{ℕ, ◌≡◌, ◌≤◌, refl, true, false, List, [], ◌∷◌, length, arith, All}
use postfix_ratelimitd.Config.Redis.{RedisApi}
use postfix_ratelimitd.Config.Rules.{RegexApi}
use postfix_ratelimitd.Valkey.{Valkey}
use postfix_ratelimitd.Protocol.{Attributes}
use postfix_ratelimitd.Protocol.Reading.{closes, max_request_bytes}
use postfix_ratelimitd.Protocol.Reading.Roundtrip.{
  IsAttribute, encode, insert_all, read_from_nothing, read_from-encode,
}
use postfix_ratelimitd.Daemon.Stats.{Journal}
use postfix_ratelimitd.Daemon.Request.{handle_request}
use postfix_ratelimitd.Daemon.Request.Serving.{
  Round, Served, closed, unfinished, ends, handle_connection,
}

-- One request behind another.
abbrev pub encode_all : List Attributes → List ℕ
encode_all [] = []
encode_all (a ∷ more) = encode a (encode_all more)

-- A request that Postfix can send: plain attributes, 64 KiB at most.
abbrev pub IsSendable : Attributes → Type 0
IsSendable a = All IsAttribute a × (length (encode a []) ≤ max_request_bytes)

module _ (R : RedisApi) (X : RegexApi) (V : Valkey) where
  -- Shutdown does not come, and answers can be written.
  abbrev pub IsUndisturbed : Round R X V → Type 0
  IsUndisturbed round = (round.cancelled ≡ false) × (round.written ≡ true)

  -- Each request in turn, with the state that its round loads, on the database the last one left.
  abbrev pub answer_each : List (Round R X V) → List Attributes → Journal → V.Db → Served R X V
  answer_each [] sent j d = ends R X V unfinished j d
  answer_each (round ∷ rounds) [] j d = ends R X V closed j d
  answer_each (round ∷ rounds) (a ∷ more) j d =
      let answer =
        handle_request R X V (record { attributes = insert_all a [] }) round.config round.key_prefix
          round.delivery j d in
      let rest = answer_each rounds more answer.journal answer.db in
      record rest { answers = answer.action ∷ rest.answers }

  -- A client that sends requests one behind another and then closes has each of them answered once, in
  -- the order sent, each by the configuration and limiter loaded for it, on the database that the
  -- requests before it left; then the connection ends as closed. No shutdown comes between.
  pub handle_connection-eq-answer_each :
      (rounds : List (Round R X V)) (sent : List Attributes) (j : Journal) (d : V.Db)
      → All IsSendable sent
      → All IsUndisturbed rounds
      → handle_connection R X V rounds (record { bytes = encode_all sent; ending = closes }) j d
        ≡ answer_each rounds sent j d
  unfolding handle_connection
  handle_connection-eq-answer_each [] sent j d h u = refl
  handle_connection-eq-answer_each (round ∷ rounds) [] j d h u = rw (u.0.0, read_from_nothing) refl
  handle_connection-eq-answer_each (round ∷ rounds) (a ∷ more) j d h u =
      let answer =
        handle_request R X V (record { attributes = insert_all a [] }) round.config round.key_prefix
          round.delivery j d in
      let read = read_from-encode a (encode_all more) closes h.0.0 h.0.1 in
      let ih = handle_connection-eq-answer_each rounds more answer.journal answer.db h.1 u.1 in
      ground (arith, u.0.0, u.0.1, read, ih)
