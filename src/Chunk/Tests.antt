-- ===== src/Chunk/Tests.antt =====
-- Concrete transfers through pkg/chunk/chunk.go.
use xll_gen.Prelude.{ℕ, ◌+◌, ◌≤◌, ◌<◌, ◌≡◌, List, [], ◌∷◌, some, pos, arith}
use xll_gen.Chunk.{
  Sender, async_retry, guest_budget, framing_overhead, half_slot_size, effective_chunk_size, send,
}
use xll_gen.Chunk.Split.{Piece, Tiles, joined, deliver_all, send-Tiles}
use xll_gen.Chunk.Retry.{flaky}
use xll_gen.Chunk.Budget.{guest_budget_fits}

abbrev sample : List ℕ
sample = 10 ∷ 20 ∷ 30 ∷ 40 ∷ 50 ∷ []

abbrev in_twos : Sender
in_twos = record { chunk_size = pos 2; max_total_bytes = pos 0 }

send-Tiles_example :
    (ps : List Piece) × Tiles (effective_chunk_size in_twos) sample 0 ps
    × (joined ps ≡ sample)
    × (send flaky in_twos sample 7 133 async_retry 2
        ≡ deliver_all flaky sample 7 133 async_retry ps 2)
send-Tiles_example = (send-Tiles flaky in_twos sample 7 133 async_retry 2).0 (omega arith)

guest_budget_fits_example :
    (1 ≤ guest_budget (some (pos 524288)))
    × (guest_budget (some (pos 524288)) + framing_overhead ≤ half_slot_size)
    × ((c : ℕ)
        → some (pos 524288) ≡ some (pos c)
        → framing_overhead < c
        → guest_budget (some (pos 524288)) + framing_overhead ≤ c)
guest_budget_fits_example = guest_budget_fits (some (pos 524288))
