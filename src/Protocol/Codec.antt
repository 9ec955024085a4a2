-- ===== src/Protocol/Codec.antt =====
-- service_protocol.cpp: `Encode`, `Decode` and `ExpectedFrameSize`. A frame in memory is the list of
-- its bytes; the pointer is never null, as for every caller that has a buffer.
use pokrov_app.Base.{
  ℕ, ◌+◌, List, [], ◌++◌, Option, none, some, ◌||◌, not, length, ltb, ◌==◌, take, drop,
  if◌then◌else◌,
}
use pokrov_app.Protocol.Types.{
  FrameKind, Frame, hello_request, request, response, kind_code, command_code, status_code,
  command_of, status_of, frame_magic, protocol_version, frame_header_size, max_body_size,
  max_frame_size,
}
use pokrov_app.Protocol.Words.{
  append_uint16, append_uint32, append_uint64, read_uint16, read_uint32, read_uint64,
}
use pokrov_app.Protocol.Valid.{is_valid_frame}

-- The first sixteen bytes.
unfoldable pub prologue : Frame → List ℕ
unfolding append_uint16 append_uint32 kind_code command_code status_code
prologue frame =
    let o1 = append_uint32 [] frame_magic in
    let o2 = append_uint16 o1 protocol_version in
    let o3 = append_uint16 o2 (kind_code frame.kind) in
    let o4 = append_uint16 o3 (command_code frame.command) in
    let o5 = append_uint16 o4 (status_code frame.status) in append_uint32 o5 (length frame.body)

-- What `Encode` writes once the frame is valid.
unfoldable pub layout : Frame → List ℕ
layout frame =
    prologue frame
    ++ (frame.correlation_id
        ++ (frame.session_token
            ++ (frame.operation_nonce
                ++ (append_uint64 [] frame.deadline_unix_ms
                    ++ (append_uint64 [] frame.capabilities ++ frame.body)))))

unfoldable pub encode : Frame → List ℕ
encode frame = if is_valid_frame frame then layout frame else []

unfoldable pub expected_frame_size : List ℕ → Option ℕ
expected_frame_size header =
    if not (length header == frame_header_size)
    then none
    else let body_size = read_uint32 (drop 12 header) in
      if not (read_uint32 header == frame_magic)
        || not (read_uint16 (drop 4 header) == protocol_version)
        || ltb max_body_size body_size
      then none
      else some (frame_header_size + body_size)

unfoldable pub decode_kind : ℕ → Option FrameKind
decode_kind raw_kind =
    if raw_kind == 1
    then some hello_request
    else if raw_kind == 2
    then some request
    else if raw_kind == 3
    then some response
    else none

-- The fields of a frame of the kind read.
unfoldable pub read_frame : FrameKind → List ℕ → Frame
read_frame kind bytes = record {
  kind = kind;
  command = command_of (read_uint16 (drop 8 bytes));
  status = status_of (read_uint16 (drop 10 bytes));
  correlation_id = take 16 (drop 16 bytes);
  session_token = take 16 (drop 32 bytes);
  operation_nonce = take 16 (drop 48 bytes);
  deadline_unix_ms = read_uint64 (drop 64 bytes);
  capabilities = read_uint64 (drop 72 bytes);
  body = drop frame_header_size bytes;
}

unfoldable pub decode : List ℕ → Option Frame
decode bytes =
    if ltb (length bytes) frame_header_size || ltb max_frame_size (length bytes)
    then none
    else elim (expected_frame_size (take frame_header_size bytes)) [
      | none ↦ none
      | some expected_size ↦
          if not (expected_size == length bytes)
          then none
          else elim (decode_kind (read_uint16 (drop 6 bytes))) [
            | none ↦ none
            | some kind ↦
                let decoded : Frame = read_frame kind bytes in
                if is_valid_frame decoded then some decoded else none
          ]
    ]
