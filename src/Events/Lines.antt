-- ===== src/Events/Lines.antt =====
-- service_events.cpp, `Append` and the `Record` methods: what each call writes into a line, and the
-- queue that it joins. The clock is an argument.
use pokrov_app.Protocol.Decimal.{to_string}
use pokrov_app.Guard.Types.{GuardOperation, GuardStage}
use pokrov_app.Events.Names.{
  command_name, egress_probe_error_domain_name, egress_probe_outcome_name, egress_probe_stage_name,
  event_name, guard_operation_name, guard_stage_name, local_dpi_failure_name, local_dpi_stage_name,
  outcome_name, status_name,
}
use pokrov_app.Protocol.Types.{Command, Identifier, Status}
use pokrov_app.Base.{
  Bool, List, [], false, hex_digit, hex_pairs, if◌then◌else◌, is_empty, leb, length, ltb, suc, text,
  true, zero, ◌%◌, ◌++◌, ◌+◌, ◌/◌, ◌==◌, ◌^◌, ◌||◌, ◌∷◌, ℕ,
}
use pokrov_app.Events.Types.{
  CoreOperationalEventRecord, EgressErrorDomain, EgressProbeOutcome, EgressProbeStage,
  LocalDpiStage, ServiceEvent, ServiceEventOutcome, service_boot_observed,
}

abbrev pub max_pending_events : ℕ
max_pending_events = 4096

unfoldable pub correlation_hex : List ℕ → List ℕ
correlation_hex id = hex_pairs id

-- `snprintf` with `%016llx`.
unfoldable pub hex_fixed : ℕ → ℕ → List ℕ
hex_fixed zero n = []
hex_fixed (suc digits) n = hex_fixed digits (n / 16) ++ hex_digit (n % 16) ∷ []

unfoldable pub boot_epoch_id : ℕ → List ℕ
boot_epoch_id ticks = text "boot-" ++ hex_fixed 16 ticks

-- The five texts that a call hands to `Append`.
pub record Fields : Type 0 where
  pub event : List ℕ
  pub outcome : List ℕ
  pub command : List ℕ
  pub status : List ℕ
  pub correlation : List ℕ

-- The methods of the journal that go through `Append`, with their arguments. A strategy below zero is
-- written as 0, like every one that is not known, and is left out here.
pub data Call : Type 0 where
  records : ServiceEvent → ServiceEventOutcome → Call
  records_system_boot : ℕ → Call
  records_ipc_request : Command → Identifier → Call
  records_ipc_response : Command → Status → Identifier → Call
  records_transition_guard_failure : GuardOperation → GuardStage → ℕ → Call
  records_egress_probe_observation :
      EgressProbeStage → EgressProbeOutcome → EgressErrorDomain → ℕ → ℕ → Call
  records_local_dpi_observation : LocalDpiStage → ℕ → List ℕ → Bool → Call

abbrev pub is_ok : Status → Bool
is_ok Status.ok = true
is_ok _ = false

abbrev pub known_strategy : ℕ → ℕ
known_strategy strategy =
    if (strategy == 4) || (strategy == 101) || (strategy == 568) || (strategy == 681)
    then strategy
    else 0

unfoldable pub fields_of : Call → Fields
fields_of (Call.records event outcome) = record {
  event = event_name event;
  outcome = outcome_name outcome;
  command = text "none";
  status = text "none";
  correlation = text "none";
}
fields_of (Call.records_system_boot ticks) = record {
  event = event_name service_boot_observed;
  outcome = text "succeeded";
  command = text "none";
  status = text "none";
  correlation = boot_epoch_id ticks;
}
fields_of (Call.records_ipc_request command id) = record {
  event = text "ipc_request";
  outcome = text "attempted";
  command = command_name command;
  status = text "none";
  correlation = correlation_hex id;
}
fields_of (Call.records_ipc_response command status id) = record {
  event = text "ipc_response";
  outcome = if is_ok status then text "succeeded" else text "failed";
  command = command_name command;
  status = status_name status;
  correlation = correlation_hex id;
}
fields_of (Call.records_transition_guard_failure operation stage wfp_error) = record {
  event = text "transition_guard_failure";
  outcome = text "failed";
  command = guard_operation_name operation;
  status = guard_stage_name stage;
  correlation = to_string wfp_error;
}
fields_of (Call.records_egress_probe_observation stage outcome domain error elapsed_ms) = record {
  event = text "runtime_egress_observation";
  outcome = egress_probe_outcome_name outcome;
  command = egress_probe_stage_name stage;
  status = egress_probe_error_domain_name domain;
  correlation = to_string error ++ b',' ∷ to_string elapsed_ms;
}
fields_of (Call.records_local_dpi_observation stage strategy failure child_alive) = record {
  event = text "runtime_local_dpi_observation";
  outcome = if is_empty failure then text "succeeded" else text "failed";
  command = local_dpi_stage_name stage;
  status = local_dpi_failure_name failure;
  correlation =
      to_string (known_strategy strategy) ++ b',' ∷ (if child_alive then text "1" else text "0");
}

unfoldable pub journal_line : ℕ → ℕ → Fields → List ℕ
journal_line ticks sequence f =
    text "POKROV_SERVICE_EVENT_V1"
    ++ b'|'
      ∷ (to_string ticks
          ++ b'|'
            ∷ (to_string sequence
                ++ b'|'
                  ∷ (f.event
                      ++ b'|'
                        ∷ (f.outcome
                            ++ b'|'
                              ∷ (f.command
                                  ++ b'|' ∷ (f.status ++ b'|' ∷ (f.correlation ++ 10 ∷ [])))))))

pub record Queue : Type 0 where
  pub sequence : ℕ
  pub pending : List (List ℕ)
  pub stopping : Bool

unfoldable pub append_line : List ℕ → Queue → Queue × Bool
append_line line q =
    if ltb 512 (length line)
    then (q, false)
    else if q.stopping || leb max_pending_events (length q.pending)
    then (q, false)
    else (record q { pending = q.pending ++ line ∷ [] }, true)

-- A record call at the clock's `ticks`.
unfoldable pub append : ℕ → Call → Queue → Queue × Bool
append ticks call q =
    let next = (q.sequence + 1) % 2 ^ 64 in
    append_line (journal_line ticks next (fields_of call)) (record q { sequence = next })

unfoldable pub core_event_line : CoreOperationalEventRecord → List ℕ
core_event_line e =
    text "POKROV_CORE_EVENT_V1"
    ++ b'|'
      ∷ (to_string e.schema_version
          ++ b'|'
            ∷ (to_string e.event_abi
                ++ b'|'
                  ∷ (e.occurred_at_utc
                      ++ b'|'
                        ∷ (e.run_id
                            ++ b'|'
                              ∷ (e.attempt_id
                                  ++ b'|'
                                    ∷ (to_string e.generation
                                        ++ b'|'
                                          ∷ (to_string e.sequence
                                              ++ b'|'
                                                ∷ (e.name
                                                    ++ b'|'
                                                      ∷ (e.subsystem
                                                          ++ b'|'
                                                            ∷ (e.stage
                                                            ++ b'|'
                                                            ∷ (e.severity
                                                            ++ b'|'
                                                            ∷ (e.outcome
                                                            ++ b'|'
                                                            ∷ ((if is_empty e.error_code
                                                            then text "none"
                                                            else e.error_code)
                                                            ++ b'|'
                                                            ∷ (e.phase ++ 10 ∷ []))))))))))))))

unfoldable pub record_core_event : CoreOperationalEventRecord → Queue → Queue × Bool
record_core_event e q = append_line (core_event_line e) q
