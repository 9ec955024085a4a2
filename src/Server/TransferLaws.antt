-- ===== src/Server/TransferLaws.antt =====
-- Server/Transfer: the end of a transfer, and what it leaves in the buffer.
use pokrov_app.Protocol.Words.{read_uint16}
use pokrov_app.Protocol.Valid.{is_valid_frame}
use pokrov_app.Protocol.Codec.{decode_kind, read_frame, decode, expected_frame_size}
use pokrov_app.Protocol.Types.{FrameKind, Frame, frame_header_size, max_frame_size}
use pokrov_app.Base.{
  ==-refl, Bool, drop, subst, take, when-eq-some, ◌==◌, Option-cases, unless-eq-some, Bool-cases,
  arith, if◌then◌else◌, is_empty, leb, length, length-append, le→ltb_false, ltb, not, refl, ◌++◌,
  ◌+◌, ◌-◌, ◌||◌, ◌≡◌, ◌≤◌, ℕ, List, Option, true, false, some, none, [], ◌∷◌, suc, zero, inl, inr,
}
use pokrov_app.Server.Transfer.{
  frame_transfer_timeout_ms, server_read_frame, read_with, round_moves, round_success,
  transfer_exact, transfer_loop, Round,
}

round_moves-advances :
    (deadline : ℕ) (r : Round) → round_moves deadline r ≡ true → 1 ≤ length r.bytes
unfolding round_moves
round_moves-advances deadline r h =
    elim (r.bytes)
        as (λ b.
          (if leb deadline r.now
              then false
              else if not r.event_created
              then false
              else if not (round_success r) || is_empty b
              then false
              else true)
            ≡ true
          → 1 ≤ length b) [ [] ↦ (λ e. ground arith) | (x ∷ xs) ↦ (λ e. omega arith) ]
      h

-- The rounds left suffice when they are at least the bytes left.
transfer_loop-ends :
    (fuel : ℕ) (io : ℕ → ℕ → Round) (round : ℕ) (done : List ℕ) (size deadline : ℕ)
    → size ≤ length done + fuel
    → (r : Option (List ℕ)) × (transfer_loop fuel io round done size deadline ≡ some r)
unfolding transfer_loop
transfer_loop-ends zero io round done size deadline h =
    (some done, rw (le→ltb_false size (length done) (omega (arith, h))) refl)
transfer_loop-ends (suc fuel) io round done size deadline h =
    elim (Bool-cases (ltb (length done) size)) [
      | inr full ↦ (some done, rw full refl)
      | inl more ↦ elim (Bool-cases (round_moves deadline (io round (size - length done)))) [
        | inr stuck ↦ (none, rw (more, stuck) refl)
        | inl moves ↦
            let bytes : List ℕ = (io round (size - length done)).bytes in
            let (a, e) = transfer_loop-ends fuel io (round + 1) (done ++ bytes) size deadline (
              omega (
                arith,
                h,
                length-append done bytes,
                round_moves-advances deadline (io round (size - length done)) moves,
              )) in
            (a, rw (more, moves) e)
      ]
    ]

-- A bound of one round for each byte is enough, whatever Windows answers.
pub transfer_exact-ends :
    (io : ℕ → ℕ → Round) (size deadline : ℕ)
    → (r : Option (List ℕ)) × (transfer_exact io size deadline ≡ some r)
unfolding transfer_exact
transfer_exact-ends io size deadline = transfer_loop-ends size io 0 [] size deadline (omega arith)

-- A failed transfer, or one with so many bytes.
abbrev pub is_whole : ℕ → Option (List ℕ) → Bool
is_whole size none = true
is_whole size (some got) = length got == size

-- What a transfer that succeeds leaves in the buffer, when no round moves more than it was given.
module _ (io : ℕ → ℕ → Round) (fits : (n chunk : ℕ) → length (io n chunk).bytes ≤ chunk) where
  transfer_loop-fills :
      (fuel round : ℕ) (done : List ℕ) (size deadline : ℕ) {got : List ℕ}
      → length done ≤ size
      → transfer_loop fuel io round done size deadline ≡ some (some got)
      → length got ≡ size
  unfolding transfer_loop
  transfer_loop-fills zero round done size deadline h e = ground arith
  transfer_loop-fills (suc fuel) round done size deadline {got} h e =
      let r : Round = io round (size - length done) in
      let next : length (done ++ r.bytes) ≤ size =
        omega (arith, h, length-append done r.bytes, fits round (size - length done)) in
      ground (
        arith,
        transfer_loop-fills fuel (round + 1) (done ++ r.bytes) size deadline {got = got} next,
      )

  transfer_exact-fills :
      (size deadline : ℕ) {got : List ℕ}
      → transfer_exact io size deadline ≡ some (some got)
      → length got ≡ size
  unfolding transfer_exact
  transfer_exact-fills size deadline e = transfer_loop-fills size 0 [] size deadline (omega arith) e

  -- When no round moves more bytes than it was asked for, a transfer ends within one round for each
  -- byte, and it fails or leaves exactly the size asked for in the buffer.
  pub transfer_exact-settles :
      (size deadline : ℕ)
      → (r : Option (List ℕ)) × (transfer_exact io size deadline ≡ some r)
        × (is_whole size r ≡ true)
  transfer_exact-settles size deadline =
      let (r, e) = transfer_exact-ends io size deadline in
      elim r
          as (λ r.
            transfer_exact io size deadline ≡ some r
            → (r : Option (List ℕ)) × (transfer_exact io size deadline ≡ some r)
              × (is_whole size r ≡ true)) [
                | none ↦ λ u. (none, u, refl)
                | some got ↦
                    λ u. (some got, u, rw (transfer_exact-fills size deadline u) (==-refl size))
              ]
        e

read_kind-IsValid :
    (bytes : List ℕ) (kind : Option FrameKind) {frame : Frame}
    → elim kind [
      | none ↦ none
      | some k ↦ if is_valid_frame (read_frame k bytes) then some (read_frame k bytes) else none
    ]
      ≡ some frame
    → is_valid_frame frame ≡ true
read_kind-IsValid bytes none e = cc
read_kind-IsValid bytes (some k) e =
    let (v, same) =
      when-eq-some (is_valid_frame (read_frame k bytes)) (some (read_frame k bytes)) e in
    subst (λ o. elim o [ none ↦ Unit | some f ↦ is_valid_frame f ≡ true ]) same v

decode-IsValid :
    (bytes : List ℕ) {frame : Frame} → decode bytes ≡ some frame → is_valid_frame frame ≡ true
unfolding decode
decode-IsValid bytes {frame} e =
    let (_, sized) =
      unless-eq-some (ltb (length bytes) frame_header_size || ltb max_frame_size (length bytes)) _
        e in
    elim (Option-cases (expected_frame_size (take frame_header_size bytes))) [
      | inl refused ↦ cc (rw refused at sized)
      | inr (size, found) ↦
          let (_, kinded) = unless-eq-some (not (size == length bytes)) _ (rw found at sized) in
          read_kind-IsValid bytes (decode_kind (read_uint16 (drop 6 bytes))) kinded
    ]

-- No frame, or a valid one.
abbrev pub is_valid_or_none : Option Frame → Bool
is_valid_or_none none = true
is_valid_or_none (some frame) = is_valid_frame frame

decode-is_valid_or_none : (bytes : List ℕ) → is_valid_or_none (decode bytes) ≡ true
decode-is_valid_or_none bytes = elim (Option-cases (decode bytes)) [
  | inl e ↦ rw e refl
  | inr (f, e) ↦ rw e (decode-IsValid bytes e)
]

abbrev Settles : Option (Option Frame) → Type 0
Settles o = (r : Option Frame) × (o ≡ some r) × (is_valid_or_none r ≡ true)

read_with-Settles :
    (header : List ℕ) (body_io : ℕ → ℕ → Round) (deadline : ℕ)
    → Settles (read_with header body_io deadline)
unfolding read_with
read_with-Settles header body_io deadline = elim (Option-cases (expected_frame_size header)) [
  | inl refused ↦ (none, rw (read_with, refused) refl, refl)
  | inr (expected, e) ↦ elim (Bool-cases (ltb frame_header_size expected)) [
    | inr no_body ↦ (decode header, rw (read_with, e, no_body) refl, decode-is_valid_or_none header)
    | inl has_body ↦
        let (got, t) = transfer_exact-ends body_io (expected - frame_header_size) deadline in
        elim got
            as (λ g.
              transfer_exact body_io (expected - frame_header_size) deadline ≡ some g
              → Settles (read_with header body_io deadline)) [
                | none ↦ λ u. (none, rw (read_with, e, has_body, u) refl, refl)
                | some body ↦ λ u. (
                  decode (header ++ body),
                  rw (read_with, e, has_body, u) refl,
                  decode-is_valid_or_none (header ++ body),
                )
              ]
          t
  ]
]

-- Reading a frame always ends, whatever Windows answers in each round, and yields no frame or a
-- valid one.
pub server_read_frame-settles :
    (header_io body_io : ℕ → ℕ → Round) (ticks : ℕ)
    → (r : Option Frame) × (server_read_frame header_io body_io ticks ≡ some r)
      × (is_valid_or_none r ≡ true)
unfolding server_read_frame
server_read_frame-settles header_io body_io ticks =
    let deadline : ℕ = ticks + frame_transfer_timeout_ms in
    let (got, t) = transfer_exact-ends header_io frame_header_size deadline in
    elim got
        as (λ g.
          transfer_exact header_io frame_header_size deadline ≡ some g
          → Settles (server_read_frame header_io body_io ticks)) [
            | none ↦ λ u. (none, rw (server_read_frame, u) refl, refl)
            | some header ↦
                λ u. rw (server_read_frame, u) (read_with-Settles header body_io deadline)
          ]
      t
