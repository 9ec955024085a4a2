-- ===== src/Server/GreetingLaws.antt =====
-- Server/Greeting: what happens to a caller that is not welcome.
use pokrov_app.Server.Capabilities.{is_compatible}
use pokrov_app.Base.{
  arith, not, ◌||◌, Bool-cases, either_branch, is_some, refl, ◌&&◌, ◌==◌, ◌≡◌, ℕ, List, Option,
  Bool, true, false, some, none, [], inl, inr,
}
use pokrov_app.Protocol.Types.{is, Identifier, kind_code, Frame, FrameKind, Command}
use pokrov_app.Events.Lines.{Call}
use pokrov_app.Server.Greeting.{reject, accept, fresh_session, process_client, welcome, Greeting}
use pokrov_app.Server.Session.{record_event, Session, Arrival, Config}
use pokrov_app.Runtime.Types.{RuntimeResult}

-- A hello frame that asks for the capabilities every peer needs.
unfoldable pub is_welcome_hello : Option Frame → Bool
is_welcome_hello none = false
is_welcome_hello (some hello) =
    (kind_code hello.kind == kind_code FrameKind.hello_request)
    && is hello.command Command.hello
    && is_compatible hello.capabilities

-- A caller that is the owner, greets well, gets a token and the response.
unfoldable pub is_welcome : Greeting → Bool
is_welcome greeting =
    greeting.authorized
    && is_welcome_hello greeting.hello
    && is_some greeting.session_token
    && greeting.written

module _ {D : Type 0} (d : D) where
  abbrev IsUntouched : Session D → Type 0
  IsUntouched s = (s.dispatcher ≡ d) × (s.executed ≡ [])

  record_event-IsUntouched :
      (config : Config) (call : Call) (s : Session D)
      → IsUntouched s
      → IsUntouched (record_event config call s)
  unfolding record_event
  record_event-IsUntouched config call s u = either_branch IsUntouched config.has_events u u

  accept-IsUntouched :
      (config : Config) (hello : Frame) → IsUntouched (accept config hello (fresh_session d))
  unfolding accept fresh_session
  accept-IsUntouched config hello =
      record_event-IsUntouched config _ _ (record_event-IsUntouched config _ _ (refl, refl))

module _ {D : Type 0} (execute : Frame → ℕ → D → D × RuntimeResult) where
  welcome-IsUntouched :
      (config : Config) (hello : Frame) (written : Bool) (arrivals : List Arrival) (d : D)
      (s : Session D)
      → IsUntouched d s
      → (is_compatible hello.capabilities && written) ≡ false
      → IsUntouched d (welcome execute config hello written arrivals s)
  unfolding welcome
  welcome-IsUntouched config hello false arrivals d s u h = record_event-IsUntouched d config _ s u
  welcome-IsUntouched config hello true arrivals d s u h =
      elim (Bool-cases (is_compatible hello.capabilities)) [
        | inl fine ↦ cc (rw fine at h)
        | inr lacks ↦ rw (welcome, lacks) (record_event-IsUntouched d config _ s u)
      ]

  module _ (has_dispatcher has_events : Bool) (capacity : ℕ) (arrivals : List Arrival) (d : D) where
    abbrev end_of : Greeting → Session D
    end_of greeting = process_client execute has_dispatcher has_events capacity greeting arrivals d

    greet-IsUntouched :
        (authorized : Bool) (hello : Option Frame) (token : Option Identifier) (written : Bool)
        → (authorized && is_welcome_hello hello && is_some token && written) ≡ false
        → IsUntouched d (
            end_of (record {
              authorized = authorized;
              hello = hello;
              session_token = token;
              written = written;
            }))
    unfolding process_client reject fresh_session is_welcome_hello
    greet-IsUntouched false hello token written h = (refl, refl)
    greet-IsUntouched true none token written h = (refl, refl)
    greet-IsUntouched true (some hello) token written h =
        let bad : Bool =
          not (kind_code hello.kind == kind_code FrameKind.hello_request)
          || not (is hello.command Command.hello) in
        elim (Bool-cases bad) [
          | inl wrong ↦ rw wrong (refl, refl)
          | inr right ↦
              elim token
                  as (λ t.
                    ((is_welcome_hello (some hello) && is_some t && written) ≡ false)
                    → IsUntouched d (
                        end_of (record {
                          authorized = true;
                          hello = some hello;
                          session_token = t;
                          written = written;
                        }))) [
                          | none ↦ λ e. rw right (accept-IsUntouched d _ hello)
                          | some made ↦ λ e. rw right (
                              welcome-IsUntouched _ hello written arrivals d _
                                (accept-IsUntouched d _ hello) (ground arith))
                        ]
                h
        ]

  -- A caller that is not the owner, does not greet with the capabilities that every peer needs, or
  -- gets no token or no response, reaches no dispatcher: whatever it sends, nothing is executed.
  pub process_client-IsUntouched :
      (has_dispatcher has_events : Bool) (capacity : ℕ) (greeting : Greeting)
      (arrivals : List Arrival) (d : D)
      → is_welcome greeting ≡ false
      → ((process_client execute has_dispatcher has_events capacity greeting arrivals d).dispatcher
          ≡ d)
        × ((process_client execute has_dispatcher has_events capacity greeting arrivals d).executed
            ≡ [])
  unfolding process_client is_welcome
  process_client-IsUntouched has_dispatcher has_events capacity greeting arrivals d h =
      greet-IsUntouched has_dispatcher has_events capacity arrivals d greeting.authorized
        greeting.hello greeting.session_token greeting.written h
