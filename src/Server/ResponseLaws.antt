-- ===== src/Server/ResponseLaws.antt =====
-- Server/Session: the frames that answer a request.
use pokrov_app.Server.DowngradeLaws.{downgrade-IsBounded, printable}
use pokrov_app.Protocol.RoundTrip.{decode-encode}
use pokrov_app.Protocol.Layout.{IsTyped}
use pokrov_app.Runtime.Types.{RuntimeResult}
use pokrov_app.Server.Session.{response_for}
use pokrov_app.Protocol.Chars.{is_bounded_ascii_control}
use pokrov_app.Protocol.Valid.{is_hello, is_none_yet, is_valid_frame, is_valid_kind, response_limit}
use pokrov_app.Server.Compatibility.{downgrade}
use pokrov_app.Protocol.Codec.{encode, decode}
use pokrov_app.Protocol.Types.{
  is, Identifier, Status, command_code, is_known_status, max_body_size, is_known_command,
  is_zero_identifier, Frame, FrameKind, Command,
}
use pokrov_app.Base.{
  leb→le, le→leb, ◌∙◌, &&-left, subst, all_of, arith, leb, length, refl, ◌≡◌, ◌≤◌, ℕ, List, true,
  false, some,
}

is-hello : (c : Command) → is_known_command c ≡ true → is c Command.hello ≡ is_hello c
unfolding is command_code is_known_command
is-hello (Command.unnamed n) h = cc
is-hello Command.hello h = refl
is-hello c h = refl

response_limit-le :
    (command : Command) (body : List ℕ) → response_limit command body ≤ max_body_size
unfolding response_limit
response_limit-le command body = ground arith

-- A request that arrived.
record IsAsked (asked : Frame) : Type 0 where
  known : is_known_command asked.command ≡ true
  correlated : is_zero_identifier asked.correlation_id ≡ false
  not_hello : is asked.command Command.hello ≡ false

is_valid_frame-IsAsked :
    (asked : Frame) → is_valid_frame asked ≡ true → asked.kind ≡ FrameKind.request → IsAsked asked
unfolding is_valid_frame is_valid_kind
is_valid_frame-IsAsked asked v k =
    let known : is_known_command asked.command ≡ true = ground arith in
    let valid : is_valid_kind asked.kind asked ≡ true = ground arith in
    let requested : is_valid_kind FrameKind.request asked ≡ true =
      subst (λ q. is_valid_kind q asked ≡ true) k valid in
    record {
      known = known;
      correlated = ground arith;
      not_hello = is-hello asked.command known ∙ ground arith;
    }

is_bounded-length :
    (body : List ℕ) (limit : ℕ) → is_bounded_ascii_control body limit ≡ true → length body ≤ limit
unfolding is_bounded_ascii_control
is_bounded-length body limit h =
    leb→le (length body) limit (&&-left (leb (length body) limit) (all_of printable body) h)

response_for-IsValid :
    (asked : Frame) (status : Status) (token : Identifier) (body : List ℕ)
    → IsAsked asked
    → is_zero_identifier token ≡ false
    → is_known_status status ≡ true
    → is_none_yet status ≡ false
    → is_bounded_ascii_control body (response_limit asked.command body) ≡ true
    → is_valid_frame (response_for asked status token body) ≡ true
unfolding response_for is_valid_frame is_valid_kind is_zero_identifier
response_for-IsValid asked status token body a nonzero known answered bounded =
    let limit : ℕ = response_limit asked.command body in
    let size : length body ≤ max_body_size =
      omega (arith, response_limit-le asked.command body, is_bounded-length body limit bounded) in
    let fits : leb (length body) max_body_size ≡ true = le→leb (length body) max_body_size size in
    rw (a.known, known, a.correlated, fits, answered, nonzero, a.not_hello, bounded) (ground arith)

-- A valid request with well-typed fields, answered under a sixteen-byte session token that is not
-- zero, with a real status and a body within the limit of its command: the answer, downgraded to the
-- capabilities negotiated, is a frame that the peer decodes to what was sent.
pub decode-response_for :
    (asked : Frame) (negotiated : ℕ) (answer : RuntimeResult) (token : Identifier)
    → is_valid_frame asked ≡ true
    → asked.kind ≡ FrameKind.request
    → length asked.correlation_id ≡ 16
    → length token ≡ 16
    → is_zero_identifier token ≡ false
    → is_known_status answer.status ≡ true
    → is_none_yet answer.status ≡ false
    → is_bounded_ascii_control answer.body (response_limit asked.command answer.body) ≡ true
    → decode (encode (response_for asked answer.status token (downgrade negotiated answer.body)))
      ≡ some (response_for asked answer.status token (downgrade negotiated answer.body))
unfolding response_for
decode-response_for asked negotiated answer token v k c t z known answered bounded =
    let a = is_valid_frame-IsAsked asked v k in
    let body : List ℕ = downgrade negotiated answer.body in
    let response : Frame = response_for asked answer.status token body in
    let valid : is_valid_frame response ≡ true =
      response_for-IsValid asked answer.status token body a z known answered
        (downgrade-IsBounded asked.command negotiated answer.body bounded) in
    let typed : IsTyped response = record {
      correlation = c;
      session = t;
      nonce = refl;
      deadline = omega arith;
      capability = rw a.not_hello (omega arith);
    } in
    decode-encode response typed valid
