-- ===== src/Chunk/Budget.antt =====
-- Bounds on the chunk budget of pkg/chunk/chunk.go.
use xll_gen.Prelude.{ℕ, ◌+◌, ◌≤◌, ◌<◌, ◌≡◌, Option, none, some, ℤ, pos, negsuc, arith, nat_eq}
use xll_gen.Chunk.{budget, guest_budget, default_chunk_size, framing_overhead, half_slot_size}

-- A budget is at least 1 and at most the default; a frame of that many bytes, with its overhead, fits
-- every buffer that has room for the overhead and one byte; and the budget grows with the buffer.
pub budget_bounds :
    (c d : ℕ)
    → (1 ≤ budget c)
      × (budget c ≤ default_chunk_size)
      × (framing_overhead < c → budget c + framing_overhead ≤ c)
      × (c ≤ d → budget c ≤ budget d)
unfolding budget
budget_bounds c d = ground arith

-- Whatever a client reports, the budget is between 1 and the default, and for a client that reports a
-- capacity with room for the overhead and one byte, a framed chunk fits that capacity.
pub guest_budget_fits :
    (client : Option ℤ)
    → (1 ≤ guest_budget client)
      × (guest_budget client + framing_overhead ≤ half_slot_size)
      × ((c : ℕ)
          → client ≡ some (pos c)
          → framing_overhead < c
          → guest_budget client + framing_overhead ≤ c)
unfolding guest_budget
guest_budget_fits none = (ground arith, ground arith, λ c e h. cc)
guest_budget_fits (some (pos n)) = (ground arith, ground arith, λ c e h. ground arith)
guest_budget_fits (some (negsuc n)) = (ground arith, ground arith, λ c e h. ground arith)
