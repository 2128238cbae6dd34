-- ===== src/Rtd/Sends.antt =====
-- What RtdManager (pkg/rtd/manager.go) sends to the host: SendUpdate, SendErrorUpdate, Publish and
-- SendOnceGrid. The transport is a parameter: functions that deliver an update, a whole payload or a
-- frame, over any state and any error. A client that is no chunkSender has no `deliver_frame`.
pub mod Broadcast
pub mod OnceGrid
use xll_gen.Prelude.{
  ℕ, ◌+◌, ◌-◌, Bool, true, false, List, [], ◌∷◌, Option, none, some, leb, ◌==◌, nat_eq,
  if◌then◌else◌, ℤ, pos, length, map,
}
use Prim.Native.String.{String}
use xll_gen.MsgId.{msg_rtd_once_grid}
use xll_gen.Chunk.{Frame, Sender, SendError, Outcome, no_retry, guest_budget, send}
use xll_gen.Rtd.{
  RtdManager, BeginError, Begun, begun, not_begun, ids_of, begin_sends, begin_send, end_sends,
  Topics,
}

-- A `protocol.RtdUpdate`, before it is encoded.
pub record RtdUpdate {ℓ} (V : Type ℓ) : Type ℓ where
  pub topic_id : ℕ
  pub value : V
  pub is_error : Bool

pub data RtdError {ℓ} (E : Type ℓ) : Type ℓ where
  not_sent : BeginError → RtdError E
  send_failed : E → RtdError E
  empty_payload : RtdError E
  no_chunked_send : ℕ → ℕ → RtdError E
  grid_failed : SendError E → RtdError E

abbrev pub Result {κ μ ν} : Type κ → Type μ → Type ν → Type (κ ⊔ μ ⊔ ν)
Result E C S = Option (RtdError E) × RtdManager C × S

abbrev pub failed {ℓ} : {E : Type ℓ} → Option E → Option (RtdError E)
failed none = none
failed (some e) = some (send_failed e)

abbrev pub topic_ids {ℓ} : {C : Type ℓ} → RtdManager C → String → List ℕ
topic_ids m key = map (λ t. t.0) (ids_of key m.key_to_ids)

-- The errors of `Publish`, joined: why nothing was sent, or those of the topics that failed.
pub data PublishResult {κ} (E : Type κ) : Type κ where
  unsent : BeginError → PublishResult E
  sent : List (ℕ × E) → PublishResult E

abbrev pub with_error {ℓ} : {E : Type ℓ} → ℕ → Option E → List (ℕ × E) → List (ℕ × E)
with_error id none errs = errs
with_error id (some e) errs = (id, e) ∷ errs

module _ {ℓ κ ν} {V : Type ℓ} {E : Type κ} {S : Type ν}
    (deliver : RtdUpdate V → S → Option E × S) where
  -- The loop of `Publish`: every topic is tried, and each failure is kept with its topic.
  unfoldable pub publish_to : List ℕ → V → S → List (ℕ × E) × S
  publish_to [] value s = ([], s)
  publish_to (id ∷ ids) value s =
      let (err, s1) = deliver (record { topic_id = id; value = value; is_error = false }) s in
      let (errs, s2) = publish_to ids value s1 in (with_error id err errs, s2)

  module _ {μ} {C : Type μ} where
    pub push_begun : ℕ → V → Bool → RtdManager C → Begun C → S → Result E C S
    push_begun id value is_error m (not_begun e) s = (some (not_sent e), m, s)
    push_begun id value is_error m (begun c m') s =
        let (err, s') = deliver (record { topic_id = id; value = value; is_error = is_error }) s in
        (failed err, end_sends m' 1, s')

    unfoldable pub send_update : RtdManager C → ℕ → V → S → Result E C S
    unfolding push_begun
    send_update m id value s = push_begun id value false m (begin_send m) s

    unfoldable pub send_error_update : RtdManager C → ℕ → V → S → Result E C S
    unfolding push_begun
    send_error_update m id value s = push_begun id value true m (begin_send m) s

    pub publish_begun : List ℕ → V → RtdManager C → Begun C → S → PublishResult E × RtdManager C × S
    unfolding publish_to
    publish_begun ids value m (not_begun e) s = (unsent e, m, s)
    publish_begun ids value m (begun c m') s =
        let (errs, s') = publish_to ids value s in (sent errs, end_sends m' (length ids), s')

    unfoldable pub publish : RtdManager C → String → V → S → PublishResult E × RtdManager C × S
    unfolding publish_begun
    publish m key value s =
        let ids = topic_ids m key in
        if length ids == 0
        then (sent [], m, s)
        else publish_begun ids value m (begin_sends m (length ids)) s
