-- ===== src/Protocol/Requests.antt =====
-- service_protocol.cpp: the bodies of the network observation, the candidate probe and the connect
-- with an identity. Their fields are split at a separator, and decoding encodes again to compare.
use pokrov_app.Base.{
  ◌>>=◌, ℕ, ◌+◌, ◌-◌, ◌^◌, Bool, true, List, [], ◌∷◌, ◌++◌, Option, none, some, ◌&&◌, ◌||◌, not,
  length, leb, ltb, ◌==◌, get_or, drop, all_of, is_hex, bytes_eq, text, if◌then◌else◌, is_empty,
  contains, cut, starts_with,
}
use pokrov_app.Protocol.Types.{max_profile_body_size, max_control_body_size}
use pokrov_app.Protocol.Chars.{
  is_digit, is_lower, is_upper, is_profile_digest, is_transport_network_context_ref,
  is_candidate_probe_id, is_bounded_ascii_control,
}
use pokrov_app.Protocol.Decimal.{to_string, from_chars}

pub record NetworkObservationRequest : Type 0 where
  pub host : List ℕ
  pub session_token : List ℕ
  pub app_version : List ℕ
  pub profile_revision : List ℕ
  pub runtime_phase : List ℕ
  pub report_run_id : List ℕ

-- The lambda `safe`; `contains c extra` is `c != 0 && strchr(extra, c)`, the sets hold no NUL.
unfoldable pub safe : List ℕ → ℕ → List ℕ → Bool
safe value limit extra =
    leb (length value) limit
    && all_of (λ c. is_lower c || is_upper c || is_digit c || contains c extra) value

abbrev run_id_char : ℕ → ℕ → Bool
run_id_char i c = (i == 8) || (i == 13) || (i == 18) || (i == 23) || is_hex c

abbrev run_id_chars : ℕ → List ℕ → Bool
run_id_chars i [] = true
run_id_chars i (c ∷ cs) = run_id_char i c && run_id_chars (i + 1) cs

unfoldable pub is_report_run_id : List ℕ → Bool
is_report_run_id id =
    (length id == 36)
    && (get_or id 8 0 == b'-')
    && (get_or id 13 0 == b'-')
    && (get_or id 18 0 == b'-')
    && (get_or id 23 0 == b'-')
    && (get_or id 14 0 == b'4')
    && contains (get_or id 19 0) (text "89ab")
    && run_id_chars 0 id

unfoldable pub is_network_observation : NetworkObservationRequest → Bool
is_network_observation r =
    (bytes_eq r.host (text "api.pokrov.space") || bytes_eq r.host (text "app.pokrov.space"))
    && not (is_empty r.session_token)
    && safe r.session_token 8192 (text ".-_")
    && not (is_empty r.app_version)
    && safe r.app_version 32 (text ".+-")
    && safe r.profile_revision 128 (text " .()+'-_")
    && safe r.runtime_phase 32 (text "-_")
    && is_report_run_id r.report_run_id

-- The fields in their order, a separator behind each but the last.
abbrev pub observation_body : NetworkObservationRequest → List ℕ
observation_body r =
    r.host
    ++ 10
      ∷ (r.session_token
          ++ 10
            ∷ (r.app_version
                ++ 10 ∷ (r.profile_revision ++ 10 ∷ (r.runtime_phase ++ 10 ∷ r.report_run_id))))

unfoldable pub encode_network_observation : NetworkObservationRequest → List ℕ
encode_network_observation r = if is_network_observation r then observation_body r else []

-- `if (Encode(request) != body) return std::nullopt; return request;`
abbrev pub confirm : {A : Type 0} → (A → List ℕ) → List ℕ → A → Option A
confirm encode body a = if bytes_eq (encode a) body then some a else none

unfoldable pub decode_network_observation : List ℕ → Option NetworkObservationRequest
decode_network_observation body = if ltb 8704 (length body) then none else do
  (host, s1) ← cut 10 body
  (session_token, s2) ← cut 10 s1
  (app_version, s3) ← cut 10 s2
  (profile_revision, s4) ← cut 10 s3
  (runtime_phase, report_run_id) ← cut 10 s4
  confirm encode_network_observation body (record {
    host = host;
    session_token = session_token;
    app_version = app_version;
    profile_revision = profile_revision;
    runtime_phase = runtime_phase;
    report_run_id = report_run_id;
  })

unfoldable pub network_observation_http_request : NetworkObservationRequest → List ℕ → List ℕ
network_observation_http_request r network_class =
    if is_empty (encode_network_observation r)
      || not (
          bytes_eq network_class (text "wifi")
          || bytes_eq network_class (text "ethernet")
          || bytes_eq network_class (text "other"))
    then []
    else let body : List ℕ =
        text "{\"network_class\":\""
        ++ (network_class
            ++ (text
                  "\",\"direct_observation\":true,\"source_network\":\"physical\",\"report_run_id\":\""
                ++ (r.report_run_id
                    ++ (text "\",\"profile_revision\":\""
                        ++ (r.profile_revision
                            ++ (text "\",\"runtime_phase\":\""
                                ++ (r.runtime_phase ++ text "\"}"))))))) in
      if ltb 1024 (length body)
      then []
      else text "POST /api/client/network/context HTTP/1.1\r\nHost: "
        ++ (r.host
            ++ (text "\r\nAuthorization: Bearer "
                ++ (r.session_token
                    ++ (text "\r\nUser-Agent: POKROV/windows/"
                        ++ (r.app_version
                            ++ (text
                                  "\r\nContent-Type: application/json\r\nConnection: close\r\nContent-Length: "
                                ++ (to_string (length body) ++ (text "\r\n\r\n" ++ body))))))))

pub record CandidateProbeRequest : Type 0 where
  pub probe_id : List ℕ
  pub timeout_ms : ℕ
  pub network_context_ref : List ℕ
  pub config : List ℕ

unfoldable pub is_candidate_probe : CandidateProbeRequest → Bool
is_candidate_probe r =
    is_candidate_probe_id r.probe_id
    && leb 1 r.timeout_ms
    && leb r.timeout_ms 30000
    && is_transport_network_context_ref r.network_context_ref
    && not (is_empty r.config)
    && not (contains 0 r.config)
    && leb (length r.config) (max_profile_body_size - 256)

-- The fields in their order, a separator behind each but the last.
abbrev pub probe_body : CandidateProbeRequest → List ℕ
probe_body r =
    r.probe_id ++ 10 ∷ (to_string r.timeout_ms ++ 10 ∷ (r.network_context_ref ++ 10 ∷ r.config))

unfoldable pub encode_candidate_probe : CandidateProbeRequest → List ℕ
encode_candidate_probe r = if is_candidate_probe r then probe_body r else []

unfoldable pub decode_candidate_probe : List ℕ → Option CandidateProbeRequest
decode_candidate_probe body = if ltb max_profile_body_size (length body) then none else do
  (probe_id, s1) ← cut 10 body
  (timeout, s2) ← cut 10 s1
  (network_context_ref, config) ← cut 10 s2
  timeout_ms ← from_chars (2 ^ 32) timeout
  confirm encode_candidate_probe body (record {
    probe_id = probe_id;
    timeout_ms = timeout_ms;
    network_context_ref = network_context_ref;
    config = config;
  })

pub record BoundConnectTarget : Type 0 where
  pub core_module_sha256 : List ℕ
  pub profile_digest : List ℕ
  pub boot_ref : List ℕ
  pub started_elapsed_ms : ℕ
  pub deadline_elapsed_ms : ℕ
  pub network_context_ref : List ℕ

unfoldable pub is_boot_ref : List ℕ → Bool
is_boot_ref value =
    (length value == 40) && starts_with (text "windows:") value && all_of is_hex (drop 8 value)

unfoldable pub is_bound_connect : BoundConnectTarget → Bool
is_bound_connect t =
    is_profile_digest t.core_module_sha256
    && is_profile_digest t.profile_digest
    && is_boot_ref t.boot_ref
    && is_transport_network_context_ref t.network_context_ref
    && leb t.deadline_elapsed_ms 9007199254740991
    && ltb t.started_elapsed_ms t.deadline_elapsed_ms
    && leb (t.deadline_elapsed_ms - t.started_elapsed_ms) 86400000

-- The fields in their order, a separator behind each but the last.
abbrev pub connect_body : BoundConnectTarget → List ℕ
connect_body t =
    t.core_module_sha256
    ++ b'|'
      ∷ (t.profile_digest
          ++ b'|'
            ∷ (t.boot_ref
                ++ b'|'
                  ∷ (to_string t.started_elapsed_ms
                      ++ b'|' ∷ (to_string t.deadline_elapsed_ms ++ b'|' ∷ t.network_context_ref))))

unfoldable pub encode_bound_connect : BoundConnectTarget → List ℕ
encode_bound_connect t = if is_bound_connect t then connect_body t else []

unfoldable pub decode_bound_connect : List ℕ → Option BoundConnectTarget
decode_bound_connect body =
    if not (is_bounded_ascii_control body max_control_body_size) then none else do
      (core_module_sha256, s1) ← cut b'|' body
      (profile_digest, s2) ← cut b'|' s1
      (boot_ref, s3) ← cut b'|' s2
      (started, s4) ← cut b'|' s3
      (deadline, network_context_ref) ← cut b'|' s4
      started_elapsed_ms ←
          if contains b'|' network_context_ref then none else from_chars (2 ^ 64) started
      deadline_elapsed_ms ← from_chars (2 ^ 64) deadline
      confirm encode_bound_connect body (record {
        core_module_sha256 = core_module_sha256;
        profile_digest = profile_digest;
        boot_ref = boot_ref;
        started_elapsed_ms = started_elapsed_ms;
        deadline_elapsed_ms = deadline_elapsed_ms;
        network_context_ref = network_context_ref;
      })
