-- ===== src/Examples/Wire.antt =====
-- Frames and request bodies of service_protocol.cpp.
use pokrov_app.Protocol.Leases.{
  TransportLeasePromotion, decode_transport_lease_promotion, encode_transport_lease_promotion,
  is_timestamp, promotion_shape,
}
use pokrov_app.Protocol.LeaseLaws.{encode-decode_transport_lease_promotion}
use pokrov_app.Protocol.Targets.{decode_cancellation_target, encode_cancellation_target}
use pokrov_app.Protocol.TargetLaws.{
  cancellation_target_round_trip, IsTarget, decode-encode_cancellation_target,
}
use pokrov_app.Protocol.RoundTrip.{decode-encode}
use pokrov_app.Protocol.Layout.{IsTyped}
use pokrov_app.Protocol.RequestLaws.Probe.{
  candidate_probe_round_trip, decode-encode_candidate_probe,
}
use pokrov_app.Protocol.RequestLaws.Observation.{
  network_observation_round_trip, decode-encode_network_observation,
}
use pokrov_app.Protocol.Valid.{is_request_body, is_valid_kind, is_valid_frame}
use pokrov_app.Protocol.Chars.{
  is_candidate_probe_id, is_profile_digest, is_transport_network_context_ref,
}
use pokrov_app.Protocol.Requests.{
  safe, BoundConnectTarget, CandidateProbeRequest, NetworkObservationRequest, decode_bound_connect,
  decode_candidate_probe, decode_network_observation, encode_bound_connect, encode_candidate_probe,
  encode_network_observation, is_boot_ref, is_bound_connect, is_candidate_probe,
  is_network_observation, is_report_run_id,
}
use pokrov_app.Protocol.RequestLaws.Connect.{bound_connect_round_trip, decode-encode_bound_connect}
use pokrov_app.Protocol.Codec.{decode, encode}
use pokrov_app.Base.{
  drop, pair_bytes, take, ◌++◌, ◌∷◌, List, [], arith, refl, replicate, some, text, true, ◌≡◌, ℕ,
}
use pokrov_app.Protocol.Types.{
  CancellationTarget, is_known_command, is_known_status, Command, Frame, is_zero_identifier,
  request, none_yet,
}

abbrev ones : List ℕ
ones = replicate 16 1

abbrev frame : Frame
frame = record {
  kind = request;
  command = Command.status;
  status = none_yet;
  correlation_id = ones;
  session_token = replicate 16 2;
  operation_nonce = replicate 16 3;
  deadline_unix_ms = 1700000000000;
  capabilities = 0;
  body = [];
}

frame-IsTyped : IsTyped frame
frame-IsTyped = record {
  correlation = refl;
  session = refl;
  nonce = refl;
  deadline = omega arith;
  capability = omega arith;
}

frame-is_valid_frame : is_valid_frame frame ≡ true
unfolding is_valid_frame is_zero_identifier is_known_command is_known_status is_valid_kind
    is_request_body
frame-is_valid_frame = refl

decode-encode_example : decode (encode frame) ≡ some frame
decode-encode_example = decode-encode frame frame-IsTyped frame-is_valid_frame

abbrev context_ref : List ℕ
context_ref = text "network_0123456789abcdef0123456789abcdef"

abbrev digest : List ℕ
digest = text "0123456789abcdef0123456789abcdef0123456789abcdef0123456789abcdef"

abbrev probe : CandidateProbeRequest
probe = record {
  probe_id = text "probe-1";
  timeout_ms = 5000;
  network_context_ref = context_ref;
  config = text "{}";
}

probe-is_candidate_probe : is_candidate_probe probe ≡ true
unfolding is_candidate_probe is_candidate_probe_id is_transport_network_context_ref
probe-is_candidate_probe = refl

probe-reads : decode_candidate_probe (encode_candidate_probe probe) ≡ some probe
probe-reads = decode-encode_candidate_probe probe probe-is_candidate_probe

candidate_probe_round_trip_example :
    (decode_candidate_probe (encode_candidate_probe probe) ≡ some probe)
    × (encode_candidate_probe probe ≡ encode_candidate_probe probe)
candidate_probe_round_trip_example =
    candidate_probe_round_trip probe (encode_candidate_probe probe) probe probe-is_candidate_probe
      probe-reads

abbrev target : BoundConnectTarget
target = record {
  core_module_sha256 = digest;
  profile_digest = digest;
  boot_ref = text "windows:0123456789abcdef0123456789abcdef";
  started_elapsed_ms = 1000;
  deadline_elapsed_ms = 61000;
  network_context_ref = context_ref;
}

target-is_bound_connect : is_bound_connect target ≡ true
unfolding is_bound_connect is_profile_digest is_boot_ref is_transport_network_context_ref
target-is_bound_connect = refl

target-reads : decode_bound_connect (encode_bound_connect target) ≡ some target
target-reads = decode-encode_bound_connect target target-is_bound_connect

bound_connect_round_trip_example :
    (decode_bound_connect (encode_bound_connect target) ≡ some target)
    × (encode_bound_connect target ≡ encode_bound_connect target)
bound_connect_round_trip_example =
    bound_connect_round_trip target (encode_bound_connect target) target target-is_bound_connect
      target-reads

abbrev observation : NetworkObservationRequest
observation = record {
  host = text "api.pokrov.space";
  session_token = text "a.b-c_d";
  app_version = text "1.2.3";
  profile_revision = text "7";
  runtime_phase = text "running";
  report_run_id = text "01234567-89ab-4cde-8f01-23456789abcd";
}

observation-is_network_observation : is_network_observation observation ≡ true
unfolding is_network_observation safe is_report_run_id
observation-is_network_observation = refl

observation-reads :
    decode_network_observation (encode_network_observation observation) ≡ some observation
observation-reads = decode-encode_network_observation observation observation-is_network_observation

network_observation_round_trip_example :
    (decode_network_observation (encode_network_observation observation) ≡ some observation)
    × (encode_network_observation observation ≡ encode_network_observation observation)
network_observation_round_trip_example =
    network_observation_round_trip observation (encode_network_observation observation) observation
      observation-is_network_observation observation-reads

abbrev cancelled : CancellationTarget
cancelled = record { session_token = ones; operation_nonce = replicate 16 255 }

cancelled-IsTarget : IsTarget cancelled
cancelled-IsTarget = record {
  session = refl;
  session_bytes = refl;
  nonce = refl;
  nonce_bytes = refl;
}

cancelled-reads : decode_cancellation_target (encode_cancellation_target cancelled) ≡ some cancelled
unfolding is_zero_identifier
cancelled-reads = decode-encode_cancellation_target cancelled cancelled-IsTarget refl refl

cancellation_target_round_trip_example :
    (decode_cancellation_target (encode_cancellation_target cancelled) ≡ some cancelled)
    × (encode_cancellation_target cancelled ≡ encode_cancellation_target cancelled)
unfolding is_zero_identifier
cancellation_target_round_trip_example =
    cancellation_target_round_trip cancelled (encode_cancellation_target cancelled) cancelled
      cancelled-IsTarget refl refl cancelled-reads

abbrev promotion_text : List ℕ
promotion_text =
    digest
    ++ b'|'
      ∷ (digest
          ++ text
              "|lease_0123456789abcdef0123456789abcdef|2026-01-01T00:00:00Z|2026-01-02T00:00:00Z|2026-01-03T00:00:00Z")

abbrev promotion : TransportLeasePromotion
promotion = record {
  target = record {
    session_token = take 16 (pair_bytes digest);
    operation_nonce = drop 16 (pair_bytes digest);
  };
  profile_digest = digest;
  endpoint_lease_ref = text "lease_0123456789abcdef0123456789abcdef";
  issued_at = text "2026-01-01T00:00:00Z";
  new_flows_until = text "2026-01-02T00:00:00Z";
  active_flows_until = text "2026-01-03T00:00:00Z";
}

promotion-reads : decode_transport_lease_promotion promotion_text ≡ some promotion
unfolding decode_transport_lease_promotion promotion_shape is_profile_digest is_timestamp
    decode_cancellation_target is_zero_identifier pair_bytes
promotion-reads = refl

encode-decode_transport_lease_promotion_example :
    encode_transport_lease_promotion promotion ≡ promotion_text
encode-decode_transport_lease_promotion_example =
    encode-decode_transport_lease_promotion promotion_text promotion promotion-reads
