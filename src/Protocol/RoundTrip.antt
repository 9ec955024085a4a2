-- ===== src/Protocol/RoundTrip.antt =====
-- Protocol/Codec: what is written is read back.
use pokrov_app.Base.{
  ℕ, ◌+◌, ◌≤◌, ◌≡◌, ap, ◌∙◌, true, List, some, length, take, drop, arith, length-take, le→ltb_false,
  ==-refl,
}
use pokrov_app.Protocol.Types.{
  Frame, is_known_command, is_known_status, max_body_size, max_frame_size, frame_magic,
  protocol_version, command_of, status_of,
}
use pokrov_app.Protocol.Words.{read_uint16, read_uint32}
use pokrov_app.Protocol.Valid.{is_valid_frame}
use pokrov_app.Protocol.Codec.{layout, encode, expected_frame_size, decode_kind, read_frame, decode}
use pokrov_app.Protocol.Layout.{
  IsTyped, command_code-known, command_of-code, status_code-known, status_of-code, decode_kind-code,
  magic-layout, version-layout, size-layout, kind-layout, command-layout, status-layout,
  length-layout, correlation-layout, session-layout, nonce-layout, deadline-layout,
  capabilities-layout, drop_80,
}

pub record IsKnown (f : Frame) : Type 0 where
  pub command : is_known_command f.command ≡ true
  pub status : is_known_status f.status ≡ true
  pub size : length f.body ≤ max_body_size

pub is_valid_frame-IsKnown : (f : Frame) → is_valid_frame f ≡ true → IsKnown f
unfolding is_valid_frame
is_valid_frame-IsKnown f v = ground arith

expected_frame_size_of :
    (header : List ℕ) (size : ℕ)
    → length header ≡ 80
    → read_uint32 header ≡ frame_magic
    → read_uint16 (drop 4 header) ≡ protocol_version
    → read_uint32 (drop 12 header) ≡ size
    → size ≤ max_body_size
    → expected_frame_size header ≡ some (80 + size)
unfolding expected_frame_size
expected_frame_size_of header size p q r e h = rw (p, q, r, e, le→ltb_false size max_body_size h)

decode_of :
    (bytes : List ℕ) (f : Frame)
    → length bytes ≡ 80 + length f.body
    → length f.body ≤ max_body_size
    → expected_frame_size (take 80 bytes) ≡ some (80 + length f.body)
    → decode_kind (read_uint16 (drop 6 bytes)) ≡ some f.kind
    → read_frame f.kind bytes ≡ f
    → is_valid_frame f ≡ true
    → decode bytes ≡ some f
unfolding decode
decode_of bytes f p h e k r v = rw (
  p,
  le→ltb_false 80 (80 + length f.body) (omega arith),
  le→ltb_false (80 + length f.body) max_frame_size (omega arith),
  e,
  p,
  ==-refl (80 + length f.body),
  k,
  r,
  v,
)

module _ (f : Frame) (t : IsTyped f) (v : is_valid_frame f ≡ true) where
  known : IsKnown f
  known = is_valid_frame-IsKnown f v

  read_frame-layout : read_frame f.kind (layout f) ≡ f
  unfolding read_frame
  read_frame-layout = λ i. record {
    kind = f.kind;
    command =
        (ap command_of (command-layout f (command_code-known f.command known.command))
            ∙ command_of-code f.command known.command)
          i;
    status =
        (ap status_of (status-layout f (status_code-known f.status known.status))
            ∙ status_of-code f.status known.status)
          i;
    correlation_id = correlation-layout f t i;
    session_token = session-layout f t i;
    operation_nonce = nonce-layout f t i;
    deadline_unix_ms = deadline-layout f t i;
    capabilities = capabilities-layout f t i;
    body = drop_80 f t i;
  }

  pub expected_frame_size-layout :
      expected_frame_size (take 80 (layout f)) ≡ some (80 + length f.body)
  unfolding expected_frame_size
  expected_frame_size-layout =
      expected_frame_size_of _ _ (length-take 80 (layout f) (omega (arith, length-layout f t)))
        (magic-layout f) (version-layout f) (size-layout f (omega (arith, known))) known.size

  decode-layout : decode (layout f) ≡ some f
  decode-layout =
      decode_of (layout f) f (length-layout f t) known.size expected_frame_size-layout
        (ap decode_kind (kind-layout f) ∙ decode_kind-code f.kind) read_frame-layout v

  -- A valid frame whose fields lie in the ranges of their C++ types is decoded from its encoding.
  pub decode-encode : decode (encode f) ≡ some f
  unfolding encode
  decode-encode = rw v decode-layout
