-- ===== src/Server/SystemHandler/Ended.antt =====
-- What the end of a calculation leaves when its commands do not fit the answer (pkg/server/handlers.go).
use xll_gen.Prelude.{
  ℕ, ◌<◌, ◌≡◌, refl, ap, ◌∙◌, true, false, List, [], Option, none, some, leb, ◌==◌, nat_eq, HasTest,
  length, arith,
}
use xll_gen.Server.HandleChunk.{system_error, send_ack_or_chunk}
use xll_gen.Server.CommandBatcher.{
  CommandBatcher, QueuedCommand, flush_commands, flush_buffers, is_empty,
}
use xll_gen.Server.CommandBatcher.Schedules.{flush_commands_all}
use xll_gen.Server.RefCache.{clear_cache}
use xll_gen.Server.SystemHandler.Cycles.{run_user-ref_cache}
use xll_gen.Server.SystemHandler.{
  SystemHandler, UserHandler, run_user, handle_calculation_ended, flushed_answer,
}

module _ {σ ν φ α} {S : Type σ} {V : Type ν} {F : Type φ} {A : Type α} ⦃s : HasTest S⦄
    ⦃v : HasTest V⦄ ⦃f : HasTest F⦄ where
  flush_commands-none :
      (cb : CommandBatcher S V F A)
      → (flush_buffers cb).cmd_queue ≡ []
      → (flush_commands cb).0 ≡ none
  unfolding flush_commands
  flush_commands-none cb h =
      let y : is_empty (flush_buffers cb).cmd_queue ≡ true = ap is_empty h in rw y refl

  flushed_twice : (cb : CommandBatcher S V F A) → (flush_commands (flush_commands cb).1).0 ≡ none
  flushed_twice cb =
      let (all, none_left, valid) = flush_commands_all cb in
      flush_commands-none (flush_commands cb).1 none_left

module _ {σ ν φ α} {S : Type σ} {V : Type ν} {F : Type φ} {A : Type α}
    (encode : List (QueuedCommand S V F A) → List ℕ) (capacity : ℕ) where
  oversized_answer :
      (commands : List (QueuedCommand S V F A))
      → capacity < length (encode commands)
      → flushed_answer encode capacity (some commands) ≡ some system_error
  unfolding send_ack_or_chunk
  oversized_answer commands h =
      let a : (length (encode commands) == 0) ≡ false = ground (arith, h) in
      let b : leb (length (encode commands)) capacity ≡ false = ground (arith, h) in
      rw a (rw b refl)

  -- When the commands that a calculation scheduled do not fit the answer to its end, Excel gets a system
  -- error, and the next flush has none of them.
  pub calculation_ended_oversized {κ} :
      {C : Type κ} ⦃s : HasTest S⦄ ⦃v : HasTest V⦄ ⦃f : HasTest F⦄
      (on_ended : Option (UserHandler S V F A C)) (h : SystemHandler S V F A C)
      (commands : List (QueuedCommand S V F A))
      → (flush_commands (run_user on_ended (record h { ref_cache = [] })).command_batcher).0
        ≡ some commands
      → capacity < length (encode commands)
      → let out = handle_calculation_ended encode capacity on_ended h in
        (out.response ≡ some system_error)
        × (out.handler.ref_cache ≡ [])
        × ((flush_commands out.handler.command_batcher).0 ≡ none)
  unfolding handle_calculation_ended clear_cache
  calculation_ended_oversized on_ended h commands e big =
      let cleared = record h { ref_cache = [] } in
      (
        ap (flushed_answer encode capacity) e ∙ oversized_answer commands big,
        run_user-ref_cache on_ended cleared,
        flushed_twice (run_user on_ended cleared).command_batcher,
      )
