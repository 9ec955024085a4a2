-- ===== src/Dispatcher/ConfirmLaws.antt =====
-- Dispatcher/Settling: what a confirmed cancellation says of the operation it names.
use pokrov_app.Events.Lines.{is_ok}
use pokrov_app.Base.{bytes_eq, is_some, text, ◌≡◌, ◌⊎◌, Bool, none, some, true, false, inl, inr}
use pokrov_app.Protocol.Types.{CancellationTarget}
use pokrov_app.Runtime.Types.{result, RuntimeResult, result}
use pokrov_app.Dispatcher.Types.{ActiveConnect, Dispatcher}
use pokrov_app.Dispatcher.Settling.{confirm_stop, was_stopped, Host}

-- `settled` of the answer, by its text.
abbrev pub says_settled : RuntimeResult → Bool
says_settled answer = bytes_eq answer.body (text "settled=1")

module _ {H : Type 0} (host : Host H) (target : CancellationTarget) where
  -- Ahead of the call, the target's operation was active and bound.
  abbrev pub IsOwner : Dispatcher → Type 0
  IsOwner d =
      (op : ActiveConnect) × (d.active_connect ≡ some op)
      × (is_some op.bound ≡ true)
      × (op.target ≡ target)

  -- The runtime's Disconnect, called once from `h`, succeeded; the runtime is left as it left it, and
  -- the target is recorded as stopped, with no operation active.
  abbrev pub IsStopped : H → H × Dispatcher × RuntimeResult → Type 0
  IsStopped h after =
      (is_ok (host.disconnect h).1.status ≡ true)
      × (after.0 ≡ (host.disconnect h).0)
      × (after.1.active_connect ≡ none)
      × (after.1.stopped_connect ≡ some target)
      × (after.1.snapshot ≡ host.snapshot_of (host.disconnect h).0)

  -- The target was recorded as stopped before, and nothing is changed; or its operation is stopped now.
  abbrev pub IsConfirmed : H → Dispatcher → H × Dispatcher × RuntimeResult → Type 0
  IsConfirmed h d after =
      ((was_stopped target d ≡ true) × (after.0 ≡ h) × (after.1 ≡ d))
      ⊎ (IsOwner d × IsStopped h after)

  -- An answer other than "settled=1", or what has to hold with it.
  abbrev IsHonest : Type 0 → H × Dispatcher × RuntimeResult → Type 0
  IsHonest claim after = (says_settled after.2 ≡ false) ⊎ claim

  -- The second part of `CancelAndConfirm`, behind what the first gave.
  abbrev confirm_next :
      H → Dispatcher × (RuntimeResult ⊎ ActiveConnect) → H × Dispatcher × RuntimeResult
  confirm_next h (d, inl answer) = (h, d, answer)
  confirm_next h (d, inr op) = confirm_stop host target op h d

  abbrev IsHonestNext : H → Dispatcher → Dispatcher × (RuntimeResult ⊎ ActiveConnect) → Type 0
  IsHonestNext h d p = IsHonest (IsConfirmed h d (confirm_next h p)) (confirm_next h p)
