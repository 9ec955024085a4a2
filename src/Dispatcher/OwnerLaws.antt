-- ===== src/Dispatcher/OwnerLaws.antt =====
-- Dispatcher/Types and Dispatcher/Observing: the interruptions of an operation.
use pokrov_app.Base.{
  either_branch, if◌then◌else◌, refl, ◌||◌, ◌∙◌, ◌≡◌, ℕ, List, Bool, [], ◌∷◌, true, false,
}
use pokrov_app.Protocol.Types.{Status}
use pokrov_app.Dispatcher.Types.{
  failure_code_of, failure_code, failure_status, is_deadline, interrupt, is_untouched, must_stop,
  ActiveConnect, Interruption,
}

-- A sequence of interruptions of one operation, from any of the service's threads.
pub interrupt_all : List Interruption → ActiveConnect → ActiveConnect
interrupt_all [] op = op
interrupt_all (cause ∷ causes) op = interrupt_all causes (interrupt cause op)

interruption-interrupt :
    (cause : Interruption) (op : ActiveConnect)
    → (interrupt cause op).interruption
      ≡ (if is_untouched op.interruption then cause else op.interruption)
unfolding interrupt
interruption-interrupt cause op =
    either_branch
      (λ (o : ActiveConnect).
        o.interruption ≡ (if is_untouched op.interruption then cause else op.interruption))
      (is_deadline cause) refl refl

bound-interrupt :
    (cause : Interruption) (op : ActiveConnect) → (interrupt cause op).bound ≡ op.bound
unfolding interrupt
bound-interrupt cause op =
    either_branch (λ (o : ActiveConnect). o.bound ≡ op.bound) (is_deadline cause) refl refl

||-true : (b : Bool) → (b || true) ≡ true
||-true true = refl
||-true false = refl

pub must_stop-interrupt :
    (cause : Interruption) (op : ActiveConnect) → must_stop (interrupt cause op) ≡ true
unfolding interrupt must_stop
must_stop-interrupt cause op =
    either_branch (λ (o : ActiveConnect). (o.cancelled || o.deadline_expired) ≡ true)
      (is_deadline cause) (||-true op.cancelled) refl

-- The failure that an operation reports.
abbrev pub reports : ActiveConnect → Status × List ℕ
reports op = (failure_status op, failure_code op)

reports-same :
    (left right : ActiveConnect)
    → left.interruption ≡ right.interruption
    → left.bound ≡ right.bound
    → reports left ≡ reports right
unfolding failure_status failure_code
reports-same left right e b = λ i. (
  if is_deadline (e i) then Status.deadline_exceeded else Status.not_ready,
  failure_code_of (e i) (b i),
)

reports-interrupt_all :
    (causes : List Interruption) (op : ActiveConnect)
    → is_untouched op.interruption ≡ false
    → reports (interrupt_all causes op) ≡ reports op
unfolding interrupt_all
reports-interrupt_all [] op h = refl
reports-interrupt_all (cause ∷ causes) op h =
    let kept : (interrupt cause op).interruption ≡ op.interruption =
      rw (interruption-interrupt cause op, h) refl in
    reports-interrupt_all causes (interrupt cause op) (rw kept h)
    ∙ reports-same (interrupt cause op) op kept (bound-interrupt cause op)

must_stop-interrupt_all :
    (causes : List Interruption) (op : ActiveConnect)
    → must_stop op ≡ true
    → must_stop (interrupt_all causes op) ≡ true
unfolding interrupt_all
must_stop-interrupt_all [] op h = h
must_stop-interrupt_all (cause ∷ causes) op h =
    must_stop-interrupt_all causes (interrupt cause op) (must_stop-interrupt cause op)

-- An operation that nothing has interrupted yet has to stop after the first interruption, and
-- whatever interrupts it later, it reports the failure of the first.
pub interrupt_all-first :
    (cause : Interruption) (causes : List Interruption) (op : ActiveConnect)
    → is_untouched op.interruption ≡ true
    → is_untouched cause ≡ false
    → (must_stop (interrupt_all (cause ∷ causes) op) ≡ true)
      × ((interrupt cause op).interruption ≡ cause)
      × (reports (interrupt_all (cause ∷ causes) op) ≡ reports (interrupt cause op))
unfolding interrupt_all
interrupt_all-first cause causes op u c =
    let first : (interrupt cause op).interruption ≡ cause =
      rw (interruption-interrupt cause op, u) refl in
    (
      must_stop-interrupt_all causes (interrupt cause op) (must_stop-interrupt cause op),
      first,
      reports-interrupt_all causes (interrupt cause op) (rw first c),
    )
