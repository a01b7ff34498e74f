-- ===== src/Sender/Sends.antt =====
-- `trySend` as a whole comes to an end.
use homa.Base.{ℕ, ◌≡◌, refl, inl, inr, some, List, [], ◌∷◌, Bool-cases, Option-cases}
use homa.Protocol.{MessageId}
use homa.Sender.{Sender, find_message, cancel_timeouts}
use homa.Sender.Messages.{destroy}
use homa.Sender.Transmit.{settle, settle_all, try_send}
use homa.Sender.Queue.{IsValid}
use homa.Sender.Progress.{send_granted_lem}

pub settle-IsValid : (id : MessageId) (s : Sender) → IsValid s → IsValid (settle id s)
unfolding settle destroy cancel_timeouts
settle-IsValid id s v = elim (Option-cases (find_message s id)) [
  | inl e ↦ rw (e, settle) v
  | inr (p, e) ↦ elim (Bool-cases (s.heap p).held) [
    | inl held ↦ elim (Bool-cases (s.heap p).options.no_keep_alive) [
      | inl k ↦ rw (e, settle) (rw (held, k) v)
      | inr k ↦ rw (e, settle) (rw (held, k) v)
    ]
    | inr dropped ↦ rw (e, settle) (rw dropped v)
  ]
]

settle_all-IsValid : (ids : List MessageId) (s : Sender) → IsValid s → IsValid (settle_all ids s)
unfolding settle_all
settle_all-IsValid [] s v = v
settle_all-IsValid (id ∷ ids) s v = settle_all-IsValid ids (settle id s) (settle-IsValid id s v)

-- `trySend` comes to an end and keeps the invariant, whatever is queued at the driver.
pub try_send-IsValid :
    (queued : ℕ) (s : Sender)
    → IsValid s
    → (s' : Sender) × (try_send queued s ≡ some s') × IsValid s'
unfolding try_send
try_send-IsValid queued s v = elim (Bool-cases s.send_ready) [
  | inl ready ↦
      let ((ids, s'), ran, result) = (send_granted_lem queued s v).0 ready in
      rw (ran, try_send) (settle_all ids s', refl, settle_all-IsValid ids s' result.valid)
  | inr idle ↦
      rw ((send_granted_lem queued s v).1 idle, try_send)
        (settle_all [] s, refl, settle_all-IsValid [] s v)
]
