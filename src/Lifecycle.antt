-- ===== src/Lifecycle.antt =====
-- The lifecycle of a virtual account: the transitions that `ValidTransition` of
-- internal/domain/domain.go lets pass, as a diagram.
use vaultnuban.Prelude.{◌≡◌, ◌↔◌, refl, true}
use vaultnuban.Domain.{VaStatus, active, suspended, closed, valid_transition}

infix 40 ◌⟶◌ ◌⟶*◌
pub data ◌⟶◌ : VaStatus → VaStatus → Type 0 where
  activate : VaStatus.pending ⟶ active
  suspend : active ⟶ suspended
  unsuspend : suspended ⟶ active
  close_active : active ⟶ closed
  close_suspended : suspended ⟶ closed

pub data ◌⟶*◌ : VaStatus → VaStatus → Type 0 where
  here : {s : VaStatus} → s ⟶* s
  then : {s t u : VaStatus} → s ⟶ t → t ⟶* u → s ⟶* u

sound : {s t : VaStatus} → s ⟶ t → valid_transition s t ≡ true
unfolding valid_transition
sound activate = refl
sound suspend = refl
sound unsuspend = refl
sound close_active = refl
sound close_suspended = refl

complete : (s t : VaStatus) → valid_transition s t ≡ true → s ⟶ t
unfolding valid_transition
complete VaStatus.pending active h = activate
complete active suspended h = suspend
complete active closed h = close_active
complete suspended active h = unsuspend
complete suspended closed h = close_suspended
complete VaStatus.pending VaStatus.pending h = cc
complete VaStatus.pending suspended h = cc
complete VaStatus.pending closed h = cc
complete active VaStatus.pending h = cc
complete active active h = cc
complete suspended VaStatus.pending h = cc
complete suspended suspended h = cc
complete closed t h = cc

-- `ValidTransition` accepts exactly the arrows of the diagram.
valid_transition_iff : (s t : VaStatus) → (valid_transition s t ≡ true) ↔ (s ⟶ t)
valid_transition_iff s t = (complete s t, sound)

from_closed : {s t : VaStatus} → s ⟶* t → s ≡ closed → t ≡ closed
from_closed here e = e
from_closed (then activate r) e = cc
from_closed (then suspend r) e = cc
from_closed (then unsuspend r) e = cc
from_closed (then close_active r) e = cc
from_closed (then close_suspended r) e = cc

to_pending : {s t : VaStatus} → s ⟶* t → t ≡ VaStatus.pending → s ≡ VaStatus.pending
to_pending here e = e
to_pending (then activate r) e = refl
to_pending (then suspend r) e = cc (to_pending r e)
to_pending (then unsuspend r) e = cc (to_pending r e)
to_pending (then close_active r) e = cc (to_pending r e)
to_pending (then close_suspended r) e = cc (to_pending r e)

-- A sequence of changes that the code accepts one after another.
pub data Reaches : VaStatus → VaStatus → Type 0 where
  stay : {s : VaStatus} → Reaches s s
  move : {s t u : VaStatus} → valid_transition s t ≡ true → Reaches t u → Reaches s u

as_steps : {s t : VaStatus} → Reaches s t → s ⟶* t
as_steps stay = here
as_steps (move h r) = then (complete _ _ h) (as_steps r)

accepted : {s t : VaStatus} → s ⟶* t → Reaches s t
accepted here = stay
accepted (then h r) = move (sound h) (accepted r)

-- No accepted sequence of transitions leaves CLOSED, none enters PENDING again, and from every
-- status there is one that closes the account.
pub lifecycle :
    ((t : VaStatus) → Reaches closed t → t ≡ closed)
    × ((s : VaStatus) → Reaches s VaStatus.pending → s ≡ VaStatus.pending)
    × ((s : VaStatus) → Reaches s closed)
lifecycle = (
  (λ t r. from_closed (as_steps r) refl),
  (λ s r. to_pending (as_steps r) refl),
  (λ s. accepted (closing s)),
)
  where
    closing : (s : VaStatus) → s ⟶* closed
    closing VaStatus.pending = then activate (then close_active here)
    closing active = then close_active here
    closing suspended = then close_suspended here
    closing closed = here
