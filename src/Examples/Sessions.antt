-- ===== src/Examples/Sessions.antt =====
-- The sessions of service_server.cpp and the dispatcher of service_dispatcher.cpp.
use pokrov_app.Protocol.Codec.{decode, encode}
use pokrov_app.Server.ResponseLaws.{decode-response_for}
use pokrov_app.Server.GreetingLaws.{is_welcome, process_client-IsUntouched}
use pokrov_app.Protocol.Chars.{is_bounded_ascii_control}
use pokrov_app.Server.TransferLaws.{
  is_valid_or_none, is_whole, server_read_frame-settles, transfer_exact-settles,
}
use pokrov_app.Server.Compatibility.{downgrade}
use pokrov_app.Server.SessionLaws.{
  IsAdmitted, IsFaithful, admission_iff, distinct, nonces, session_loop-IsSound,
}
use pokrov_app.Protocol.Valid.{is_request_body, is_valid_frame, is_valid_kind, response_limit}
use pokrov_app.Server.Capabilities.{service_capabilities}
use pokrov_app.Base.{
  length, replicate, suc, take, text, zero, ◌↔◌, ◌≡◌, ◌≤◌, ℕ, List, Option, true, false, some, none,
  [], ◌∷◌, refl, arith,
}
use pokrov_app.Protocol.Types.{
  is_known_command, is_known_status, is_zero_identifier, Frame, FrameKind, Command, Status,
  Identifier,
}
use pokrov_app.Runtime.Types.{RuntimeResult, result}
use pokrov_app.Server.Session.{
  admission, response_for, session_loop, Config, Session, Arrival, Ending,
}
use pokrov_app.Server.Greeting.{process_client, Greeting}
use pokrov_app.Server.Transfer.{server_read_frame, transfer_exact, Round}

abbrev session_id : Identifier
session_id = replicate 16 1

abbrev config : Config
config = record {
  session_token = session_id;
  negotiated = service_capabilities;
  has_dispatcher = true;
  has_events = true;
  capacity = 256;
}

abbrev asked_status : Frame
asked_status = record {
  kind = FrameKind.request;
  command = Command.status;
  status = Status.none_yet;
  correlation_id = replicate 16 2;
  session_token = session_id;
  operation_nonce = replicate 16 3;
  deadline_unix_ms = 1000;
  capabilities = 0;
  body = [];
}

-- A dispatcher that counts its calls.
abbrev counting : Frame → ℕ → ℕ → ℕ × RuntimeResult
counting asked deadline calls = (suc calls, result Status.ok (text "done"))

abbrev fresh : Session ℕ
fresh = record {
  used_nonces = [];
  dispatcher = 0;
  recorded = [];
  executed = [];
  responses = [];
  ending = Ending.serving;
}

-- The same request twice.
abbrev arrival : Arrival
arrival = record {
  stop = false;
  read = some asked_status;
  monotonic_now = 50;
  now = 900;
  written = true;
}

fresh-IsFaithful : IsFaithful config (fresh).used_nonces (fresh).executed
unfolding distinct nonces
fresh-IsFaithful = record { room = omega arith; once = refl; consumed = refl; granted = refl }

session_loop-IsSound_example :
    IsFaithful config
      (session_loop counting config (arrival ∷ arrival ∷ []) fresh).used_nonces
      (session_loop counting config (arrival ∷ arrival ∷ []) fresh).executed
session_loop-IsSound_example =
    session_loop-IsSound counting config (arrival ∷ arrival ∷ []) fresh fresh-IsFaithful

admission_iff_example :
    (admission config [] 900 asked_status ≡ none) ↔ IsAdmitted config [] 900 asked_status
admission_iff_example = admission_iff config [] 900 asked_status

-- A caller of another account.
abbrev stranger : Greeting
stranger = record {
  hello = some asked_status;
  authorized = false;
  session_token = some session_id;
  written = true;
}

stranger-is_welcome : is_welcome stranger ≡ false
unfolding is_welcome
stranger-is_welcome = refl

process_client-IsUntouched_example :
    ((process_client counting true true 256 stranger (arrival ∷ []) 0).dispatcher ≡ 0)
    × ((process_client counting true true 256 stranger (arrival ∷ []) 0).executed ≡ [])
process_client-IsUntouched_example =
    process_client-IsUntouched counting true true 256 stranger (arrival ∷ []) 0 stranger-is_welcome

asked_status-is_valid : is_valid_frame asked_status ≡ true
unfolding is_valid_frame is_valid_kind is_request_body is_known_command is_known_status
    is_zero_identifier
asked_status-is_valid = refl

abbrev snapshot_answer : RuntimeResult
snapshot_answer = record {
  status = Status.ok;
  body = text "phase=running;routing_catalog_control_version=4;routing_catalog_window_version=1";
}

snapshot_answer-bounded :
    is_bounded_ascii_control
      (snapshot_answer).body
      (response_limit Command.status (snapshot_answer).body)
    ≡ true
unfolding is_bounded_ascii_control response_limit
snapshot_answer-bounded = refl

decode-response_for_example :
    decode
      (encode (response_for asked_status Status.ok session_id (downgrade 3 (snapshot_answer).body)))
    ≡ some (response_for asked_status Status.ok session_id (downgrade 3 (snapshot_answer).body))
unfolding is_zero_identifier is_known_status
decode-response_for_example =
    decode-response_for asked_status 3 snapshot_answer session_id asked_status-is_valid refl refl
      refl refl refl refl snapshot_answer-bounded

-- Windows hands over one byte in each round.
abbrev byte_by_byte : ℕ → ℕ → Round
byte_by_byte round chunk = record {
  now = 0;
  event_created = true;
  completed = true;
  pending = false;
  wait = record { io_signalled = true; result_good = true };
  bytes = take chunk (7 ∷ []);
}

length-take-le : (n : ℕ) (xs : List ℕ) → length (take n xs) ≤ n
length-take-le zero xs = omega arith
length-take-le (suc n) [] = omega arith
length-take-le (suc n) (x ∷ xs) = omega (arith, length-take-le n xs)

transfer_exact-settles_example :
    (r : Option (List ℕ)) × (transfer_exact byte_by_byte 2 10 ≡ some r) × (is_whole 2 r ≡ true)
transfer_exact-settles_example =
    transfer_exact-settles byte_by_byte (λ n chunk. length-take-le chunk (7 ∷ [])) 2 10

server_read_frame-settles_example :
    (r : Option Frame) × (server_read_frame byte_by_byte byte_by_byte 5 ≡ some r)
    × (is_valid_or_none r ≡ true)
server_read_frame-settles_example = server_read_frame-settles byte_by_byte byte_by_byte 5
