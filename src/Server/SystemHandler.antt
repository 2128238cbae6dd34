-- ===== src/Server/SystemHandler.antt =====
-- The handlers of pkg/server/handlers.go on the RTD, the reference cache, the calculation and the commands.
-- The encoded answers are FlatBuffers' and parameters. A handler that the user supplies is what it leaves
-- of the command batcher and the RTD manager when it returns, fails or panics, which are only logged; one
-- that runs on a goroutine of its own is a started job.
pub mod Cycles
pub mod Ended
mod Runs
use xll_gen.Prelude.{
  ℕ, Bool, true, false, List, [], ◌∷◌, Option, none, some, if◌then◌else◌, ◌==◌, nat_eq, HasTest,
  length, Text,
}
use xll_gen.MsgId.{msg_ack, msg_calculation_ended, msg_rtd_connect, msg_command_invoke}
use xll_gen.Rtd.{RtdManager, unsubscribe, register_connect_cancel}
use xll_gen.Server.ChunkManager.{ChunkManager}
use xll_gen.Server.HandleChunk.{Response, send_ack_or_chunk}
use xll_gen.Server.CommandBatcher.{CommandBatcher, QueuedCommand, flush_commands}
use xll_gen.Server.RefCache.{RefCache, set, clear_cache}

pub data Job : Type 0 where
  on_rtd_connect : ℕ → List Text → Bool → Job
  on_rtd_disconnect : ℕ → Job
  on_command : Text → Text → Job

-- The cache of bytes and the batchers; the async batcher is a field that no handler here reads.
pub record SystemHandler {σ ν φ α κ} (S : Type σ) (V : Type ν) (F : Type φ) (A : Type α)
    (C : Type κ) : Type (σ ⊔ ν ⊔ φ ⊔ α ⊔ κ) where
  pub chunk_manager : ChunkManager
  pub command_batcher : CommandBatcher S V F A
  pub ref_cache : RefCache
  pub rtd_manager : RtdManager C

-- The handler after a call, the answer (`none` is `0, 0`), the jobs started and the cancel funcs called.
pub record Outcome {η} (H : Type η) : Type η where
  pub handler : H
  pub response : Option Response
  pub started : List Job
  pub cancelled : List ℕ

abbrev job_if : Bool → Job → List Job
job_if true j = j ∷ []
job_if false j = []

abbrev pub UserHandler {σ ν φ α κ} :
    (S : Type σ) (V : Type ν) (F : Type φ) (A : Type α) (C : Type κ) → Type (σ ⊔ ν ⊔ φ ⊔ α ⊔ κ)
UserHandler S V F A C =
    CommandBatcher S V F A → RtdManager C → CommandBatcher S V F A × RtdManager C

-- `encode` gives the bytes of the commands flushed; without any, FlushCommands gives none.
abbrev pub flushed_answer {σ ν φ α} :
    {S : Type σ} {V : Type ν} {F : Type φ} {A : Type α}
    → (List (QueuedCommand S V F A) → List ℕ)
    → ℕ
    → Option (List (QueuedCommand S V F A))
    → Option Response
flushed_answer encode capacity none = none
flushed_answer encode capacity (some commands) =
    let bytes = encode commands in
    if length bytes == 0
    then none
    else some (send_ack_or_chunk bytes capacity msg_calculation_ended)

module _ {σ ν φ α κ} {S : Type σ} {V : Type ν} {F : Type φ} {A : Type α} {C : Type κ} where
  -- A nil handler is not called.
  unfoldable pub run_user :
      Option (UserHandler S V F A C) → SystemHandler S V F A C → SystemHandler S V F A C
  run_user none h = h
  run_user (some f) h =
      let (cb, rtd) = f h.command_batcher h.rtd_manager in
      record h { command_batcher = cb; rtd_manager = rtd }

  -- `ack` is the encoded acknowledgement; `data'` the whole request, which names `key`.
  unfoldable pub handle_set_ref_cache :
      List ℕ → ℕ → Text → List ℕ → SystemHandler S V F A C → Outcome (SystemHandler S V F A C)
  handle_set_ref_cache ack capacity key data' h = record {
    handler = record h { ref_cache = set h.ref_cache key data' };
    response = some (send_ack_or_chunk ack capacity msg_ack);
    started = [];
    cancelled = [];
  }

  -- `answer` is the encoded empty response; `has_hook` says that `onConnect` is not nil.
  unfoldable pub handle_rtd_connect :
      List ℕ
      → ℕ
      → Bool
      → ℕ
      → List Text
      → Bool
      → ℕ
      → SystemHandler S V F A C
      → Outcome (SystemHandler S V F A C)
  handle_rtd_connect answer capacity has_hook topic strings new_val cancel h =
      let (rtd, gen, called) = register_connect_cancel h.rtd_manager topic cancel in
      record {
        handler = record h { rtd_manager = rtd };
        response = some (send_ack_or_chunk answer capacity msg_rtd_connect);
        started = job_if has_hook (on_rtd_connect topic strings new_val);
        cancelled = called;
      }

  unfoldable pub handle_rtd_disconnect :
      Bool → ℕ → SystemHandler S V F A C → Outcome (SystemHandler S V F A C)
  handle_rtd_disconnect has_hook topic h =
      let (rtd, called) = unsubscribe h.rtd_manager topic in
      record {
        handler = record h { rtd_manager = rtd };
        response = none;
        started = job_if has_hook (on_rtd_disconnect topic);
        cancelled = called;
      }

  unfoldable pub handle_calculation_canceled :
      Option (UserHandler S V F A C) → SystemHandler S V F A C → Outcome (SystemHandler S V F A C)
  handle_calculation_canceled on_canceled h = record {
    handler = run_user on_canceled h;
    response = none;
    started = [];
    cancelled = [];
  }

  unfoldable pub handle_calculation_ended :
      ⦃v : HasTest V⦄
      → ⦃f : HasTest F⦄ → (List (QueuedCommand S V F A) → List ℕ)
      → ℕ
      → Option (UserHandler S V F A C)
      → SystemHandler S V F A C
      → Outcome (SystemHandler S V F A C)
  handle_calculation_ended encode capacity on_ended h =
      let ran = run_user on_ended (record h { ref_cache = clear_cache h.ref_cache }) in
      let (flushed, cb) = flush_commands ran.command_batcher in
      record {
        handler = record ran { command_batcher = cb };
        response = flushed_answer encode capacity flushed;
        started = [];
        cancelled = [];
      }

  -- `resolve` says whether the name is a command; `encode` gives the answer, with the unknown name or none.
  unfoldable pub handle_command_invoke :
      (Option Text → List ℕ)
      → ℕ
      → (Text → Bool)
      → Text
      → Text
      → SystemHandler S V F A C
      → Outcome (SystemHandler S V F A C)
  handle_command_invoke encode capacity resolve name control_id h =
      let unknown = if resolve name then none else some name in
      record {
        handler = h;
        response = some (send_ack_or_chunk (encode unknown) capacity msg_command_invoke);
        started = job_if (resolve name) (on_command name control_id);
        cancelled = [];
      }
