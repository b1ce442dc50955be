-- ===== src/Examples/Wire.antt =====
-- A simple encoding of requests and responses in place of the JSON crates, with the laws that
-- src/bin/postfix-ratelimitctl.rs and src/control rely on.
use postfix_ratelimitd.Base.{
  ℕ, zero, suc, ◌+◌, ◌-◌, ◌*◌, ◌/◌, ◌%◌, ◌<◌, ◌≡◌, refl, ap, List, [], ◌∷◌, ◌++◌, Option, none,
  some, Outcome, ok, err, arith, All, All-weaken, inl,
}
use postfix_ratelimitd.Base.Text.{Text, codes}
use postfix_ratelimitd.Protocol.Utf8.Encoding.{IsScalar}
use postfix_ratelimitd.Protocol.Reading.Roundtrip.{IsPlain}
use postfix_ratelimitd.Control.Status.{WindowStatus, StatusResponse, unrestricted, limited}
use postfix_ratelimitd.Control.Serving.{
  JsonApi, ErrorCode, parse_error, invalid_request, invalid_params, method_not_found,
  internal_error, Reply, pong, status, failure,
}
use postfix_ratelimitd.Control.Client.{WireApi}
use postfix_ratelimitd.Control.Client.Laws.{IsWireApi}

-- Two characters for a number.
abbrev pairs : List ℕ → Text
pairs [] = []
pairs (n ∷ ns) = (14 + n / 1024) ∷ (14 + n % 1024) ∷ pairs ns

abbrev unpairs : Text → List ℕ
unpairs [] = []
unpairs (a ∷ []) = []
unpairs (a ∷ b ∷ rest) = ((a - 14) * 1024 + (b - 14)) ∷ unpairs rest

unpairs-pairs : (ns : List ℕ) → unpairs (pairs ns) ≡ ns
unpairs-pairs [] = refl
unpairs-pairs (n ∷ ns) = ground (arith, unpairs-pairs ns)

pairs-IsPlain : (ns : List ℕ) → All (λ n. n < 2000000) ns → All IsPlain (pairs ns)
pairs-IsPlain [] h = tt
pairs-IsPlain (n ∷ ns) h =
    let here : IsPlain (14 + n / 1024) = (
      (omega (arith, h.0), inl (omega (arith, h.0))),
      λ e. omega (arith, e),
      λ e. omega (arith, e),
    ) in
    let there : IsPlain (14 + n % 1024) =
      ((omega arith, inl (omega arith)), λ e. omega (arith, e), λ e. omega (arith, e)) in
    (here, (there, pairs-IsPlain ns h.1))

-- A text behind which something follows.
abbrev mark : Text → List ℕ → List ℕ
mark [] rest = 0 ∷ rest
mark (c ∷ s) rest = suc c ∷ mark s rest

abbrev unmark : List ℕ → Text × List ℕ
unmark [] = ([], [])
unmark (zero ∷ rest) = ([], rest)
unmark (suc c ∷ rest) = let later = unmark rest in (c ∷ later.0, later.1)

unmark-mark : (s : Text) (rest : List ℕ) → unmark (mark s rest) ≡ (s, rest)
unmark-mark [] rest = refl
unmark-mark (c ∷ s) rest = ap (λ p. (c ∷ p.0, p.1)) (unmark-mark s rest)

mark-small :
    (s : Text) (rest : List ℕ)
    → All IsScalar s
    → All (λ n. n < 2000000) rest
    → All (λ n. n < 2000000) (mark s rest)
mark-small [] rest h small = (omega arith, small)
mark-small (c ∷ s) rest h small = (omega (arith, h.0.0), mark-small s rest h.1 small)

abbrev flat : List WindowStatus → List ℕ
flat [] = []
flat (w ∷ ws) = w.span_secs ∷ w.limit ∷ w.current_total ∷ flat ws

abbrev unflat : List ℕ → List WindowStatus
unflat (a ∷ b ∷ c ∷ rest) = record { span_secs = a; limit = b; current_total = c } ∷ unflat rest
unflat _ = []

unflat-flat : (ws : List WindowStatus) → unflat (flat ws) ≡ ws
unflat-flat [] = refl
unflat-flat (w ∷ ws) = ap (λ l. w ∷ l) (unflat-flat ws)

abbrev status_list : StatusResponse → List ℕ
status_list unrestricted = []
status_list (limited at windows) = at ∷ flat windows

abbrev read_status : List ℕ → StatusResponse
read_status [] = unrestricted
read_status (at ∷ rest) = limited at (unflat rest)

read_status-status_list : (s : StatusResponse) → read_status (status_list s) ≡ s
read_status-status_list unrestricted = refl
read_status-status_list (limited at windows) = ap (limited at) (unflat-flat windows)

abbrev code_number : ErrorCode → ℕ
code_number parse_error = 0
code_number invalid_request = 1
code_number invalid_params = 2
code_number method_not_found = 3
code_number internal_error = 4

abbrev read_code : ℕ → ErrorCode
read_code zero = parse_error
read_code (suc zero) = invalid_request
read_code (suc (suc zero)) = invalid_params
read_code (suc (suc (suc zero))) = method_not_found
read_code (suc (suc (suc (suc n)))) = internal_error

read_code-code_number : (c : ErrorCode) → read_code (code_number c) ≡ c
read_code-code_number parse_error = refl
read_code-code_number invalid_request = refl
read_code-code_number invalid_params = refl
read_code-code_number method_not_found = refl
read_code-code_number internal_error = refl

-- Without the last character.
abbrev init : Text → Text
init [] = []
init (c ∷ []) = []
init (c ∷ d ∷ rest) = c ∷ init (d ∷ rest)

init-snoc : (s : Text) (c : ℕ) → init (s ++ c ∷ []) ≡ s
init-snoc [] c = refl
init-snoc (a ∷ []) c = refl
init-snoc (a ∷ b ∷ s) c = ap (λ l. a ∷ l) (init-snoc (b ∷ s) c)

abbrev reply_list : Reply → List ℕ
reply_list pong = 0 ∷ codes "pong"
reply_list (status s) = 0 ∷ status_list s
reply_list (failure c) = 1 ∷ code_number c ∷ []

abbrev pub SimpleRequest : Type 0
SimpleRequest = Text × (List ℕ × ℕ)

abbrev read_request : List ℕ → Option SimpleRequest
read_request [] = none
read_request (id ∷ rest) = let parts = unmark rest in some (parts.0, (parts.1, id))

abbrev read_params : List ℕ → Option Text
read_params [] = none
read_params (tag ∷ user) = some user

abbrev read_payload : List ℕ → Option (Outcome ErrorCode (List ℕ))
read_payload [] = none
read_payload (zero ∷ value) = some (ok value)
read_payload (suc tag ∷ []) = none
read_payload (suc tag ∷ code ∷ rest) = some (err (read_code code))

abbrev pub simple_json : JsonApi
simple_json = record {
  Value = List ℕ;
  RequestId = ℕ;
  Request = SimpleRequest;
  from_str = λ line. some (unpairs line);
  to_request = read_request;
  method = λ q. q.0;
  username = λ q. read_params q.1.0;
  id = λ q. some q.1.1;
}

abbrev pub simple_wire : WireApi simple_json
simple_wire = record {
  null = [];
  params_to_value = λ user. 1 ∷ user;
  number = λ n. n;
  request = λ method params id. (method, (params, id));
  request_to_vec = λ q. pairs (q.1.1 ∷ mark q.0 q.1.0);
  response_to_vec = λ r. reply_list r.reply;
  read_response = λ line. read_payload (init line);
  to_text = λ value. some value;
  to_status = λ value. some (read_status value);
}

ok_read : (value : List ℕ) → read_payload (init ((0 ∷ value) ++ 10 ∷ [])) ≡ some (ok value)
ok_read value = rw (init-snoc (0 ∷ value) 10) refl

pub simple_wire-IsWireApi : IsWireApi simple_json simple_wire
simple_wire-IsWireApi = record {
  method-request = λ m v i. refl;
  username-request = λ m u i. refl;
  parsed = λ q. (
    q.1.1 ∷ mark q.0 q.1.0,
    ap some (unpairs-pairs (q.1.1 ∷ mark q.0 q.1.0)),
    ap (λ p. some (p.0, (p.1, q.1.1))) (unmark-mark q.0 q.1.0),
  );
  null_line = λ m h. pairs-IsPlain (1 ∷ mark m []) (omega arith, mark-small m [] h tt);
  params_line = λ m u h k. pairs-IsPlain (1 ∷ mark m (1 ∷ u)) (
    omega arith,
    mark-small m (1 ∷ u) h (omega arith, All-weaken _ _ u (λ c p. omega (arith, p.0)) k),
  );
  pong_read = λ id. (codes "pong", ok_read (codes "pong"), refl);
  status_read =
      λ id s. (status_list s, ok_read (status_list s), ap some (read_status-status_list s));
  failure_read = λ id code. rw (read_code-code_number code) refl;
}
