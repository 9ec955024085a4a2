-- ===== src/Examples/Threads.antt =====
-- The event journal of service_events.cpp and the runner of runtime_task_runner.cpp.
use pokrov_app.Events.Observation.{}
use pokrov_app.Events.Names.{event_name, outcome_name}
use pokrov_app.Events.Lines.{Call, append, append_line, fields_of, journal_line}
use pokrov_app.Protocol.Decimal.{to_string}
use pokrov_app.Events.LineLaws.{journal_line-fields, split}
use pokrov_app.Events.WriterLaws.{Sound, run-Sound, run-done}
use pokrov_app.Base.{List, [], arith, false, none, refl, replicate, text, true, ◌++◌, ◌∷◌, ◌≡◌}
use pokrov_app.Events.Types.{ServiceEvent, ServiceEventOutcome}
use pokrov_app.Protocol.Types.{Command}
use pokrov_app.Events.Writer.{
  step, run, Action, Journal, Outcome, wake, write_pending, appends, stops, wakes, writes,
}

abbrev idle_journal : Journal
idle_journal = record {
  queue = record { sequence = 0; pending = []; stopping = false };
  in_hand = none;
  finished = false;
  files = record { current = none; previous = none };
  accepted = [];
  attempted = [];
}

idle_journal-Sound : Sound idle_journal
idle_journal-Sound = record {
  in_order = refl;
  pending_bound = omega arith;
  pending_fit = refl;
  hand_fit = refl;
  size_bound = omega arith;
  done = λ h. cc;
}

abbrev written_line : Outcome
written_line = record { asked = true; moved = true; opened = true; written = 512; flushed = true }

abbrev one_event : List Action
one_event =
    appends 1000 (Call.records ServiceEvent.service_running ServiceEventOutcome.succeeded)
    ∷ stops
    ∷ wakes
    ∷ writes written_line
    ∷ wakes
    ∷ []

run-Sound_example : Sound (run idle_journal one_event)
run-Sound_example = run-Sound idle_journal one_event idle_journal-Sound

one_event-finishes : (run idle_journal one_event).finished ≡ true
unfolding run step append append_line journal_line fields_of event_name outcome_name to_string wake
    write_pending
one_event-finishes = refl

run-done_example : (run idle_journal one_event).accepted ≡ (run idle_journal one_event).attempted
run-done_example = run-done idle_journal one_event idle_journal-Sound one_event-finishes

abbrev request_call : Call
request_call = Call.records_ipc_request Command.connect (replicate 16 255)

journal_line-fields_example :
    split b'|' (journal_line 1000 1 (fields_of request_call))
    ≡ text "POKROV_SERVICE_EVENT_V1"
      ∷ to_string 1000
      ∷ to_string 1
      ∷ (fields_of request_call).event
      ∷ (fields_of request_call).outcome
      ∷ (fields_of request_call).command
      ∷ (fields_of request_call).status
      ∷ ((fields_of request_call).correlation ++ 10 ∷ [])
      ∷ []
journal_line-fields_example = journal_line-fields 1000 1 request_call (refl, refl)
