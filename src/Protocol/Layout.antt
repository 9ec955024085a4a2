-- ===== src/Protocol/Layout.antt =====
-- Protocol/Codec: where each field of a written frame stands.
use pokrov_app.Base.{
  ℕ, ◌+◌, ◌^◌, ◌<◌, ◌≡◌, refl, ◌∙◌, true, List, [], ◌++◌, some, length, take, drop, arith,
  length-append, take-append_len, drop-append_len,
}
use pokrov_app.Protocol.Types.{
  FrameKind, Frame, Command, Status, hello_request, kind_code, command_code, status_code,
  command_of, status_of, is_known_command, is_known_status, frame_magic, protocol_version,
}
use pokrov_app.Protocol.Words.{
  append_uint64, read_uint16, read_uint32, read_uint64, read-append_uint64,
}
use pokrov_app.Protocol.Codec.{prologue, layout, decode_kind}

-- The ranges of the C++ types of the fields.
pub record IsTyped (frame : Frame) : Type 0 where
  pub correlation : length frame.correlation_id ≡ 16
  pub session : length frame.session_token ≡ 16
  pub nonce : length frame.operation_nonce ≡ 16
  pub deadline : frame.deadline_unix_ms < 2 ^ 64
  pub capability : frame.capabilities < 2 ^ 64

pub command_code-known : (c : Command) → is_known_command c ≡ true → command_code c < 2 ^ 16
unfolding command_code is_known_command
command_code-known c h = ground arith

pub command_of-code : (c : Command) → is_known_command c ≡ true → command_of (command_code c) ≡ c
unfolding command_code command_of is_known_command
command_of-code (Command.unnamed n) h = ground arith
command_of-code Command.hello h = refl
command_of-code c h = refl

pub status_code-known : (s : Status) → is_known_status s ≡ true → status_code s < 2 ^ 16
unfolding status_code is_known_status
status_code-known s h = ground arith

pub status_of-code : (s : Status) → is_known_status s ≡ true → status_of (status_code s) ≡ s
unfolding status_code status_of is_known_status
status_of-code (Status.unnamed n) h = ground arith
status_of-code Status.ok h = refl
status_of-code s h = refl

pub decode_kind-code : (k : FrameKind) → decode_kind (kind_code k) ≡ some k
unfolding decode_kind kind_code
decode_kind-code hello_request = refl
decode_kind-code k = refl

length-append_uint64 : (v : ℕ) → length (append_uint64 [] v) ≡ 8
unfolding append_uint64
length-append_uint64 v = refl

module _ (f : Frame) where
  pub magic-layout : read_uint32 (take 80 (layout f)) ≡ frame_magic
  unfolding layout prologue read_uint32
  magic-layout = refl

  pub version-layout : read_uint16 (drop 4 (take 80 (layout f))) ≡ protocol_version
  unfolding layout prologue read_uint16
  version-layout = refl

  pub size-layout :
      length f.body < 2 ^ 32 → read_uint32 (drop 12 (take 80 (layout f))) ≡ length f.body
  unfolding layout prologue read_uint32
  size-layout h = omega arith

  pub kind-layout : read_uint16 (drop 6 (layout f)) ≡ kind_code f.kind
  unfolding layout prologue read_uint16
  kind-layout = ground arith

  pub command-layout :
      command_code f.command < 2 ^ 16 → read_uint16 (drop 8 (layout f)) ≡ command_code f.command
  unfolding layout prologue read_uint16
  command-layout h = omega arith

  pub status-layout :
      status_code f.status < 2 ^ 16 → read_uint16 (drop 10 (layout f)) ≡ status_code f.status
  unfolding layout prologue read_uint16
  status-layout h = omega arith

  -- What stands behind each of the fields.
  after_capabilities : List ℕ
  after_capabilities = append_uint64 [] f.capabilities ++ f.body

  after_deadline : List ℕ
  unfolding after_capabilities
  after_deadline = append_uint64 [] f.deadline_unix_ms ++ after_capabilities

  after_nonce : List ℕ
  unfolding after_deadline
  after_nonce = f.operation_nonce ++ after_deadline

  after_session : List ℕ
  unfolding after_nonce
  after_session = f.session_token ++ after_nonce

  length-prologue : length (prologue f) ≡ 16
  unfolding prologue
  length-prologue = refl

  layout-parts : layout f ≡ prologue f ++ (f.correlation_id ++ after_session)
  unfolding layout after_session
  layout-parts = refl

  module _ (t : IsTyped f) where
    drop_16 : drop 16 (layout f) ≡ f.correlation_id ++ after_session
    drop_16 = rw layout-parts (drop-append_len 16 0 (prologue f) _ length-prologue)

    drop_32 : drop 32 (layout f) ≡ after_session
    drop_32 = rw layout-parts (
        drop-append_len 16 16 (prologue f) _ length-prologue
        ∙ drop-append_len 16 0 f.correlation_id _ t.correlation)

    drop_48 : drop 48 (layout f) ≡ after_nonce
    unfolding after_session
    drop_48 = rw layout-parts (
        drop-append_len 16 32 (prologue f) _ length-prologue
        ∙ drop-append_len 16 16 f.correlation_id _ t.correlation
        ∙ drop-append_len 16 0 f.session_token _ t.session)

    drop_64 : drop 64 (layout f) ≡ after_deadline
    unfolding after_session
    drop_64 = rw layout-parts (
        drop-append_len 16 48 (prologue f) _ length-prologue
        ∙ drop-append_len 16 32 f.correlation_id _ t.correlation
        ∙ drop-append_len 16 16 f.session_token _ t.session
        ∙ drop-append_len 16 0 f.operation_nonce _ t.nonce)

    drop_72 : drop 72 (layout f) ≡ after_capabilities
    unfolding after_session
    drop_72 = rw layout-parts (
        drop-append_len 16 56 (prologue f) _ length-prologue
        ∙ drop-append_len 16 40 f.correlation_id _ t.correlation
        ∙ drop-append_len 16 24 f.session_token _ t.session
        ∙ drop-append_len 16 8 f.operation_nonce _ t.nonce
        ∙ drop-append_len 8 0 _ _ (length-append_uint64 f.deadline_unix_ms))

    pub drop_80 : drop 80 (layout f) ≡ f.body
    unfolding after_session
    drop_80 = rw layout-parts (
        drop-append_len 16 64 (prologue f) _ length-prologue
        ∙ drop-append_len 16 48 f.correlation_id _ t.correlation
        ∙ drop-append_len 16 32 f.session_token _ t.session
        ∙ drop-append_len 16 16 f.operation_nonce _ t.nonce
        ∙ drop-append_len 8 8 _ _ (length-append_uint64 f.deadline_unix_ms)
        ∙ drop-append_len 8 0 _ _ (length-append_uint64 f.capabilities))

    pub length-layout : length (layout f) ≡ 80 + length f.body
    unfolding after_session
    length-layout = rw layout-parts (
        omega (
          arith,
          length-prologue,
          length-append (prologue f) (f.correlation_id ++ after_session),
          length-append f.correlation_id after_session,
          length-append f.session_token after_nonce,
          length-append f.operation_nonce after_deadline,
          length-append (append_uint64 [] f.deadline_unix_ms) after_capabilities,
          length-append (append_uint64 [] f.capabilities) f.body,
          length-append_uint64 f.deadline_unix_ms,
          length-append_uint64 f.capabilities,
        ))

    pub correlation-layout : take 16 (drop 16 (layout f)) ≡ f.correlation_id
    correlation-layout = rw drop_16 (take-append_len 16 f.correlation_id _ t.correlation)

    pub session-layout : take 16 (drop 32 (layout f)) ≡ f.session_token
    unfolding after_session
    session-layout = rw drop_32 (take-append_len 16 f.session_token _ t.session)

    pub nonce-layout : take 16 (drop 48 (layout f)) ≡ f.operation_nonce
    unfolding after_nonce
    nonce-layout = rw drop_48 (take-append_len 16 f.operation_nonce _ t.nonce)

    pub deadline-layout : read_uint64 (drop 64 (layout f)) ≡ f.deadline_unix_ms
    unfolding after_deadline
    deadline-layout = rw drop_64 (read-append_uint64 f.deadline_unix_ms _ t.deadline)

    pub capabilities-layout : read_uint64 (drop 72 (layout f)) ≡ f.capabilities
    unfolding after_capabilities
    capabilities-layout = rw drop_72 (read-append_uint64 f.capabilities _ t.capability)
