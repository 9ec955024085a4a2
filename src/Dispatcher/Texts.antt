-- ===== src/Dispatcher/Texts.antt =====
-- service_dispatcher.cpp: `WithFailure` and `WithTransportState`, which rewrite a snapshot's text.
use pokrov_app.Base.{
  cut, drop, if◌then◌else◌, is_empty, length, starts_with, text, ◌&&◌, ◌++◌, ℕ, List, Option, Bool,
  none, some, [], ◌∷◌,
}
use pokrov_app.Protocol.Types.{Status}
use pokrov_app.Runtime.Types.{RuntimeResult}
use pokrov_app.Server.Compatibility.{split_at}

-- `s.rfind(needle)`: the text before its last place, and from there on.
unfoldable pub split_last : List ℕ → List ℕ → Option (List ℕ × List ℕ)
split_last needle [] = if is_empty needle then some ([], []) else none
split_last needle (c ∷ s) = elim (split_last needle s) [
  | some (before, behind) ↦ some (c ∷ before, behind)
  | none ↦ if starts_with needle (c ∷ s) then some ([], c ∷ s) else none
]

-- From the first semicolon behind the first byte, or nothing.
unfoldable pub next_field : List ℕ → List ℕ
next_field [] = []
next_field (c ∷ s) = elim (cut 59 s) [ none ↦ [] | some (value, rest) ↦ 59 ∷ rest ]

-- The observation of the egress probe is erased up to the transport's fields, or the end.
unfoldable pub without_observation : List ℕ → List ℕ
without_observation body = elim (split_at (text ";egress_probe_stage=") body) [
  | none ↦ body
  | some (before, observation) ↦ elim (split_at (text ";transport_proof_pending=") observation) [
    | none ↦ before
    | some (erased, transport) ↦ before ++ transport
  ]
]

unfoldable pub failure_body : List ℕ → List ℕ → List ℕ
failure_body code body = elim (split_last (text ";failure=") body) [
  | none ↦ code
  | some (before, field) ↦
      without_observation (before ++ (text ";failure=" ++ (code ++ next_field field)))
]

unfoldable pub with_failure : RuntimeResult → Status → List ℕ → RuntimeResult
with_failure answer status code = record { status = status; body = failure_body code answer.body }

abbrev pub flag_text : Bool → List ℕ
flag_text flag = if flag then text "1" else text "0"

-- A pending proof withdraws the egress and DNS flags, which the snapshot writes together.
unfoldable pub without_proof : List ℕ → List ℕ
without_proof body =
    let healthy = text ";core_egress_validated=1;dns_ready=1" in
    elim (split_at healthy body) [
      | none ↦ body
      | some (before, behind) ↦
          before ++ (text ";core_egress_validated=0;dns_ready=0" ++ drop (length healthy) behind)
    ]

unfoldable pub with_transport_state : RuntimeResult → Bool → Bool → RuntimeResult
with_transport_state answer pending active =
    let body = if pending then without_proof answer.body else answer.body in
    let running = active && starts_with (text "phase=running;") body in
    if starts_with (text "phase=") answer.body
    then record answer {
      body =
          body
          ++ (text ";transport_proof_pending="
              ++ (flag_text pending ++ (text ";transport_lease_active=" ++ flag_text running)));
    }
    else answer
