-- ===== src/Daemon/System/Connection.antt =====
-- A connection of Postfix to src/bin/postfix-ratelimitd.rs, from its bytes to what happens in the daemon.
use postfix_ratelimitd.Base.{◌≡◌, refl, true, false, List, [], ◌∷◌, All, map, subst}
use postfix_ratelimitd.Config.Redis.{RedisApi, IsRedisApi}
use postfix_ratelimitd.Config.Rules.{RegexApi}
use postfix_ratelimitd.Valkey.{Valkey}
use postfix_ratelimitd.Limiter.Check.{Delivery}
use postfix_ratelimitd.Protocol.{Attributes, Request}
use postfix_ratelimitd.Protocol.Reading.{closes}
use postfix_ratelimitd.Protocol.Reading.Roundtrip.{insert_all}
use postfix_ratelimitd.Daemon.Request.{handle_request}
use postfix_ratelimitd.Daemon.Request.Serving.{Round, Served, closed, handle_connection}
use postfix_ratelimitd.Daemon.Request.Serving.Pipeline.{
  encode_all, IsSendable, IsUndisturbed, answer_each, handle_connection-eq-answer_each,
}
use postfix_ratelimitd.Daemon.Reload.{RuntimeState, same_refl}
use postfix_ratelimitd.Daemon.System.{
  System, Occurrence, receive, answer, answered, occur, occur_all,
}

-- A request, and what the network does to its script run.
abbrev pub Sent : Type 0
Sent = Attributes × Delivery

abbrev pub request_of : Attributes → Request
request_of a = record { attributes = insert_all a [] }

module _ (R : RedisApi) (X : RegexApi) (V : Valkey) where
  -- Each request is read and answered before the next one is read.
  abbrev pub dialogue : List Sent → List (Occurrence R X V)
  dialogue [] = []
  dialogue ((a, delivery) ∷ more) = receive (request_of a) ∷ answer 0 delivery ∷ dialogue more

  abbrev pub round_of : RuntimeState R X → Delivery → Round R X V
  round_of state delivery = record {
    cancelled = false;
    config = state.config;
    key_prefix = state.limiter.key_prefix;
    delivery = delivery;
    written = true;
  }

  -- The rounds of the connection; in the last one it reads that the peer has closed.
  abbrev pub rounds_of : RuntimeState R X → List Sent → List (Round R X V)
  rounds_of state [] = round_of state postfix_ratelimitd.Limiter.Check.answered ∷ []
  rounds_of state ((a, delivery) ∷ more) = round_of state delivery ∷ rounds_of state more

  abbrev pub attributes_of : List Sent → List Attributes
  attributes_of = map λ s. s.0

  undisturbed :
      (state : RuntimeState R X) (sent : List Sent)
      → All (IsUndisturbed R X V) (rounds_of state sent)
  undisturbed state [] = ((refl, refl), tt)
  undisturbed state (s ∷ more) = ((refl, refl), undisturbed state more)

  -- The connection's end, its journal and the database of its limiter are those of the daemon.
  pub record Agrees (before : RuntimeState R X) (served : Served R X V) (after : System R X V)
      : Type 0 where
    pub ended : served.ended ≡ closed
    pub journal : served.journal ≡ after.journal
    pub db : served.db ≡ after.databases before.limiter.connection_info
    pub current : after.current ≡ before

  module _ (redis : IsRedisApi R) where
    answer_each-Agrees :
        (sent : List Sent) (s : System R X V)
        → Agrees s.current
            (answer_each R X V
              (rounds_of s.current sent)
              (attributes_of sent)
              s.journal
              (s.databases s.current.limiter.connection_info))
            (occur_all R X V s (dialogue sent))
    unfolding occur_all occur answered
    answer_each-Agrees [] s = record { ended = refl; journal = refl; db = refl; current = refl }
    answer_each-Agrees ((a, delivery) ∷ more) s =
        let next = occur R X V (occur R X V s (receive (request_of a))) (answer 0 delivery) in
        let info = s.current.limiter.connection_info in
        let given =
          handle_request R X V (request_of a) s.current.config s.current.limiter.key_prefix delivery
            s.journal (s.databases info) in
        let stored : next.databases info ≡ given.db = rw (same_refl R X redis info) refl in
        let ih =
          subst
            (λ d.
              Agrees s.current
                (answer_each R X V (rounds_of s.current more) (attributes_of more) given.journal d)
                (occur_all R X V next (dialogue more)))
            stored (answer_each-Agrees more next) in
        record { ended = ih.ended; journal = ih.journal; db = ih.db; current = ih.current }

    -- On a connection, requests that come one behind another, each at most 64 KiB, are what the daemon
    -- receives and answers, one after the other: the connection ends as closed, and its journal and
    -- its limiter's database are those of the daemon in which these occurrences follow each other.
    pub handle_connection-Agrees :
        (sent : List Sent) (s : System R X V)
        → All IsSendable (attributes_of sent)
        → Agrees s.current
            (handle_connection R X V
              (rounds_of s.current sent)
              (record { bytes = encode_all (attributes_of sent); ending = closes })
              s.journal
              (s.databases s.current.limiter.connection_info))
            (occur_all R X V s (dialogue sent))
    handle_connection-Agrees sent s sendable =
        rw
          (handle_connection-eq-answer_each R X V (rounds_of s.current sent) (attributes_of sent)
            s.journal (s.databases s.current.limiter.connection_info) sendable
            (undisturbed s.current sent))
          (answer_each-Agrees sent s)
