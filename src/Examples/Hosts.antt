-- ===== src/Examples/Hosts.antt =====
-- The life cycle of service_runtime.cpp, in a world where every call succeeds.
use pokrov_app.Runtime.HostSound.{is_sound}
use pokrov_app.Runtime.HostLaws.{host_run-IsSound}
use pokrov_app.Base.{replicate, suc, text, ◌≡◌, ℕ, List, true, false, some, none, [], ◌∷◌, refl}
use pokrov_app.Recovery.Machine.{Recovery, WriteOutcome}
use pokrov_app.Recovery.Stage.{RecoveryStage}
use pokrov_app.Recovery.Journal.{JournalFile}
use pokrov_app.Dispatcher.Observing.{OperationInterruption}
use pokrov_app.Runtime.Host.{World, RuntimeHost, Phase}
use pokrov_app.Runtime.HostHistory.{host_run, HostCall}

abbrev fine_world : World ℕ
fine_world = record {
  facts = λ w. record {
    routing_catalog_window_version = 1;
    smart_access_lease_version = 1;
    routing_catalog_control_version = 4;
    smart_access_runtime_control_version = 1;
    transport_capabilities = [];
    core_module_sha256 = [];
    core_version = [];
    slipstream_client_ready = false;
    local_dpi_ready = false;
    local_dpi_observation = [];
    egress_failure_observation = [];
  };
  interrupted = λ w. (w, OperationInterruption.uninterrupted);
  prepare_directories = λ w. (w, true);
  core_initialize = λ w. (w, []);
  supports_interruptible_start = λ w. true;
  core_start = λ interruptible w. (suc w, []);
  core_stop = λ w. (suc w, []);
  write_outcome = λ w. (w, WriteOutcome.replaced);
  random_bytes = λ w. (w, some (replicate 16 9));
  capture_network = λ w. (w, record { error = []; snapshot = text "routes" });
  restore_network = λ w snapshot. [];
  write_staged_profile = λ w. (w, []);
  profile_digest = λ w body. replicate 64 97;
  stage_files = λ body w. (w, none);
  verify_egress = λ periodic w. (w, []);
  prepare_extensions = λ w. (w, none);
  prove_local_dpi = λ w. (w, []);
  admit_telegram = λ w. w;
  withdraw_extensions = λ w. w;
  stop_local_dpi = λ w. (w, true);
  clear_local_dpi = λ w. (w, true);
  guard_start = λ w. (w, []);
  guard_finish = λ w. (w, []);
  guard_off = λ w. (w, []);
  guard_armed = λ w. false;
}

abbrev clean_journal : Recovery
clean_journal = record {
  has_paths = true;
  has_network = true;
  stage = RecoveryStage.clean;
  generation = replicate 32 b'0';
  network_snapshot = [];
  invalid = false;
  disk = JournalFile.absent;
}

abbrev new_host : RuntimeHost ℕ
new_host = record {
  world = 0;
  has_core = true;
  has_root = true;
  has_guard = true;
  has_events = true;
  recovery = some clean_journal;
  phase = Phase.artifact_ready;
  is_initialized = false;
  profile_staged = false;
  requires_bound_connect = false;
  staged_profile_digest = [];
  effective_profile_digest = [];
  core_egress_validated = false;
  failure = [];
  recorded = [];
  core_started = false;
}

abbrev session_calls : List HostCall
session_calls =
    HostCall.initializes
    ∷ HostCall.stages (text "0\n{}") false
    ∷ HostCall.connects (replicate 64 97)
    ∷ HostCall.disconnects true
    ∷ []

host_run-IsSound_example : is_sound (host_run fine_world new_host session_calls) ≡ true
host_run-IsSound_example = host_run-IsSound fine_world new_host session_calls refl
