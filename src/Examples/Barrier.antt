-- ===== src/Examples/Barrier.antt =====
-- The guard of service_transition_guard.cpp over a small backend and a small engine.
use pokrov_app.Guard.EngineLaws.{install-commits, Installs, Removes, read-armed}
use pokrov_app.Guard.MachineLaws.{
  ReadArmed, explicit_off-is_armed, reports_errors, start-is_armed, start_succeeds,
}
use pokrov_app.Guard.Machine.{
  Backend, Guard, confirm_install, explicit_off, finish, is_armed, refresh, start,
}
use pokrov_app.Guard.Filters.{
  Identity, condition_matches, filter_at, filter_key_at, flags_match, guid_eq, matches,
  matches_sub_layer, same_blob, service_conditions,
}
use pokrov_app.Base.{
  ◌↔◌, [], false, if◌then◌else◌, is_empty, length, not, refl, some, suc, true, ◌∷◌, ◌≡◌,
}
use pokrov_app.Guard.Types.{GuardState, is_armed_state, off, armed, read_verify}
use pokrov_app.Guard.Engine.{
  remove, install, read, Changes, Engine, Listing, read_filters, read_objects,
  verify_guard_priority, verify_objects, found, not_found,
}

-- A backend that does what it is asked to.
abbrev plain : Backend
plain = record {
  State = GuardState;
  read = λ s. (s, [], s);
  install = λ s. (armed, []);
  remove = λ s. (off, []);
  last_failure = λ s. record { stage = read_verify; wfp_error = 0 };
}

abbrev fresh : Guard plain
fresh = record { backend = off; has_events = true; state = off; reports = [] }

start-is_armed_example : is_armed plain (start plain fresh).0 ≡ true
start-is_armed_example = start-is_armed plain fresh

start_succeeds_example :
    ((start plain fresh).0.state ≡ armed)
    × ((s : GuardState) × ReadArmed plain fresh s (start plain fresh).0.backend)
unfolding start refresh confirm_install
start_succeeds_example = start_succeeds plain fresh refl

explicit_off-is_armed_example :
    (is_armed plain (explicit_off plain fresh).0 ≡ not (is_empty (explicit_off plain fresh).1))
    × (is_armed plain (finish plain fresh).0 ≡ not (is_empty (finish plain fresh).1))
explicit_off-is_armed_example = explicit_off-is_armed plain fresh

reports_errors_example :
    (length (start plain fresh).0.reports ≡ (
      if is_empty (start plain fresh).1 then length fresh.reports else suc (length fresh.reports)))
    × (length (finish plain fresh).0.reports ≡ (
        if is_empty (finish plain fresh).1
        then length fresh.reports
        else suc (length fresh.reports)))
reports_errors_example = reports_errors plain fresh refl

abbrev service : Identity
service = record {
  app = record { size = 2; bytes = some (1 ∷ 2 ∷ []) };
  system = record { size = 1; bytes = some (9 ∷ []) };
  app_field = 1;
  user_field = 2;
  match_equal = 0;
}

abbrev empty_listing : Listing
empty_listing = record {
  create_code = 0;
  pages = record { code = 0; filters = [] } ∷ [];
  close_code = 0;
}

-- An engine that holds the guard as it was installed and no other filter.
abbrev guarded : Engine
guarded = record {
  open_code = 0;
  identity = (0, service);
  begin_code = 0;
  own_sub_layer = found (record { persistent_only = true; has_provider = false; weight = 65534 });
  own_filter = λ i. found (filter_at service i);
  listing = λ l. empty_listing;
  sub_layer_weight = λ k. (0, 0);
}

guarded-reads : (is_empty (read guarded).0 ≡ true) × (is_armed_state (read guarded).2 ≡ true)
unfolding read read_objects read_filters verify_objects verify_guard_priority filter_at matches
    matches_sub_layer filter_key_at service_conditions guid_eq flags_match condition_matches
    same_blob
guarded-reads = (refl, refl)

read-armed_example : guarded.open_code ≡ 0
read-armed_example = (read-armed guarded guarded-reads.0 guarded-reads.1).0

-- An engine that fails when the sublayer is added.
abbrev full_engine : Changes
full_engine = record {
  open_code = 0;
  identity_code = 0;
  begin_code = 0;
  delete_filter = λ i. not_found;
  delete_sub_layer = not_found;
  add_sub_layer = 14;
  add_filter = λ i. 0;
  commit = 0;
}

install-commits_example :
    ((is_empty (install full_engine).0 ≡ true) ↔ Installs full_engine)
    × ((is_empty (remove full_engine).0 ≡ true) ↔ Removes full_engine)
install-commits_example = install-commits full_engine
