-- ===== src/Server/Transfer.antt =====
-- service_server.cpp: `TransferExact`, `WaitForIo`, `ReadFrame` and `WriteFrame`. What Windows
-- answers in each round of a transfer is an argument.
use pokrov_app.Protocol.Codec.{encode, decode, expected_frame_size}
use pokrov_app.Base.{
  [], false, if◌then◌else◌, is_empty, leb, length, ltb, none, not, some, suc, true, zero, ◌&&◌,
  ◌++◌, ◌+◌, ◌-◌, ◌||◌, ℕ, List, Option, Bool,
}
use pokrov_app.Protocol.Types.{frame_header_size, Frame}

abbrev pub frame_transfer_timeout_ms : ℕ
frame_transfer_timeout_ms = 3000

-- What `WaitForMultipleObjects` and `GetOverlappedResult` answer: whether the transfer's own event
-- ended the wait, and whether its result is good.
pub record Wait : Type 0 where
  pub io_signalled : Bool
  pub result_good : Bool

-- One round: the tick count read, whether the event was made, whether ReadFile or WriteFile
-- completed at once, whether it is pending, the wait, and the bytes transferred.
pub record Round : Type 0 where
  pub now : ℕ
  pub event_created : Bool
  pub completed : Bool
  pub pending : Bool
  pub wait : Wait
  pub bytes : List ℕ

unfoldable pub wait_for_io : Wait → Bool
wait_for_io w = if not w.io_signalled then false else w.result_good

unfoldable pub round_success : Round → Bool
round_success r = if not r.completed && r.pending then wait_for_io r.wait else r.completed

-- The checks of one round: false where the loop returns false, true where it goes on.
unfoldable pub round_moves : ℕ → Round → Bool
round_moves deadline r =
    if leb deadline r.now
    then false
    else if not r.event_created
    then false
    else if not (round_success r) || is_empty r.bytes
    then false
    else true

-- The bytes in the buffer behind `offset`, in rounds that `io` answers by their number and the
-- bytes asked for. The loop's bound is `fuel`; `none` outside means that it ran out, `none` inside
-- is `false`.
unfoldable pub transfer_loop : ℕ → (ℕ → ℕ → Round) → ℕ → List ℕ → ℕ → ℕ → Option (Option (List ℕ))
transfer_loop zero io round done size deadline =
    if ltb (length done) size then none else some (some done)
transfer_loop (suc fuel) io round done size deadline =
    let r = io round (size - length done) in
    let rest = transfer_loop fuel io (round + 1) (done ++ r.bytes) size deadline in
    if ltb (length done) size
    then if round_moves deadline r then rest else some none
    else some (some done)

unfoldable pub transfer_exact : (ℕ → ℕ → Round) → ℕ → ℕ → Option (Option (List ℕ))
transfer_exact io size deadline = transfer_loop size io 0 [] size deadline

-- `header_io` and `body_io` are the rounds of the two transfers, `ticks` the tick count at first.
unfoldable pub read_with : List ℕ → (ℕ → ℕ → Round) → ℕ → Option (Option Frame)
read_with header body_io deadline = elim (expected_frame_size header) [
  | none ↦ some none
  | some expected ↦
      if ltb frame_header_size expected
      then elim (transfer_exact body_io (expected - frame_header_size) deadline) [
        | none ↦ none
        | some none ↦ some none
        | some (some body) ↦ some (decode (header ++ body))
      ]
      else some (decode header)
]

unfoldable pub server_read_frame : (ℕ → ℕ → Round) → (ℕ → ℕ → Round) → ℕ → Option (Option Frame)
server_read_frame header_io body_io ticks =
    elim (transfer_exact header_io frame_header_size (ticks + frame_transfer_timeout_ms)) [
      | none ↦ none
      | some none ↦ some none
      | some (some header) ↦ read_with header body_io (ticks + frame_transfer_timeout_ms)
    ]

-- On a write, `bytes` of a round are those of the buffer that went out.
unfoldable pub server_write_frame : Frame → (ℕ → ℕ → Round) → ℕ → Option Bool
server_write_frame frame io ticks =
    let bytes = encode frame in
    if is_empty bytes
    then some false
    else elim (transfer_exact io (length bytes) (ticks + frame_transfer_timeout_ms)) [
      | none ↦ none
      | some none ↦ some false
      | some (some sent) ↦ some true
    ]
