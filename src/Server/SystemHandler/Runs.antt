-- ===== src/Server/SystemHandler/Runs.antt =====
-- Concrete runs of the handlers of pkg/server/handlers.go.
use xll_gen.Prelude.{
  ℕ, pos, ◌≡◌, refl, true, false, List, [], ◌∷◌, Option, none, some, nat_eq, codes, arith,
}
use xll_gen.Rtd.{new_rtd_manager}
use xll_gen.Server.HandleChunk.{system_error}
use xll_gen.Server.CommandBatcher.{set_data, flush_commands, flush_buffers}
use xll_gen.Server.RefCache.{resolve_ref_any}
use xll_gen.Server.SystemHandler.{SystemHandler, UserHandler, run_user, handle_calculation_ended}
use xll_gen.Server.SystemHandler.Cycles.{
  Call, set_ref_cache, calculation_ended, token, serve_all, first_payload,
  serve_all-resolve_ref_any,
}
use xll_gen.Server.SystemHandler.Ended.{calculation_ended_oversized}

abbrev handler : SystemHandler ℕ ℕ ℕ ℕ ℕ
handler = record {
  chunk_manager = record {
    chunk_cache = [];
    outgoing_chunks = [];
    poisoned = [];
    max_chunk_buffer_bytes = pos 0;
    chunk_buffer_ttl = pos 0;
    max_transfers = pos 0;
    max_poison = pos 0;
  };
  command_batcher = record { buffered_sets = []; buffered_formats = []; cmd_queue = [] };
  ref_cache = [];
  rtd_manager = new_rtd_manager;
}

abbrev calls : List (Call ℕ ℕ ℕ ℕ ℕ)
calls =
    set_ref_cache (codes "h:ab") (1 ∷ [])
    ∷ calculation_ended none
    ∷ set_ref_cache (codes "ab") (2 ∷ [])
    ∷ []

abbrev first_byte : List ℕ → Option ℕ
first_byte [] = none
first_byte (b ∷ bs) = some b

serve_all-resolve_ref_any_example :
    resolve_ref_any first_byte
      (some
        (serve_all (1 ∷ []) [] 8 true (λ cs. []) (λ o. []) (λ name. false) calls handler).ref_cache)
      (token (codes "ab"))
    ≡ first_payload first_byte (codes "ab") none (some (2 ∷ []))
serve_all-resolve_ref_any_example =
    serve_all-resolve_ref_any (1 ∷ []) [] 8 true (λ cs. []) (λ o. []) (λ name. false) first_byte
      calls handler (codes "ab")

-- Appends a command of its own.
abbrev scheduling : UserHandler ℕ ℕ ℕ ℕ ℕ
scheduling cb rtd =
    (record cb { cmd_queue = set_data (record { sheet = 1; refs = [] }) 7 ∷ [] }, rtd)

scheduled :
    (flush_commands (run_user (some scheduling) handler).command_batcher).0
    ≡ some (set_data (record { sheet = 1; refs = [] }) 7 ∷ [])
unfolding flush_commands flush_buffers run_user
scheduled = refl

calculation_ended_oversized_example :
    let out = handle_calculation_ended (λ cs. 1 ∷ 2 ∷ 3 ∷ []) 2 (some scheduling) handler in
    (out.response ≡ some system_error)
    × (out.handler.ref_cache ≡ [])
    × ((flush_commands out.handler.command_batcher).0 ≡ none)
calculation_ended_oversized_example =
    calculation_ended_oversized (λ cs. 1 ∷ 2 ∷ 3 ∷ []) 2 (some scheduling) handler
      (set_data (record { sheet = 1; refs = [] }) 7 ∷ []) scheduled (omega arith)
