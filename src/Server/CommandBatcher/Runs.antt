-- ===== src/Server/CommandBatcher/Runs.antt =====
-- A concrete history through pkg/server/command_batcher.go and command_flush.go.
use xll_gen.Prelude.{
  ◌++◌, All, ℕ, ◌≡◌, refl, List, [], ◌∷◌, Option, none, some, inl, ltb, if◌then◌else◌, nat_eq,
}
use xll_gen.Algo.GreedyMesh.{Cell}
use xll_gen.Server.CommandBatcher.Sizes.{IsSized, flush_buffers-IsSized}
use xll_gen.Server.CommandBatcher.{CommandBatcher, QueuedCommand, flush_buffers, Range}
use xll_gen.Server.CommandBatcher.Effect.{after}
use xll_gen.Server.CommandBatcher.View.{set_writes, format_writes}
use xll_gen.Server.CommandBatcher.Replay.{
  Call, set_called, format_called, calc_ended, run, started, sent_by, set_given, format_given,
  commands_replay,
}

-- Values from 100 on are no scalars.
abbrev small_scalar : ℕ → Option ℕ
small_scalar n = if ltb n 100 then some n else none

abbrev block : ℕ → ℕ → ℕ → Range ℕ
block sheet rows cols = record {
  sheet = sheet;
  refs = record { row_first = 0; row_last = rows; col_first = 0; col_last = cols } ∷ [];
}

abbrev origin : Cell
origin = record { row = 0; col = 1 }

abbrev history : List (Call ℕ ℕ ℕ)
history =
    set_called (block 1 1 1) 7
    ∷ format_called (block 1 0 1) 3
    ∷ set_called (block 1 0 1) 8
    ∷ calc_ended
    ∷ set_called (block 1 0 0) 9
    ∷ set_called (block 1 2000 3) 5
    ∷ set_called (block 2 1 1) 200
    ∷ []

last_set : after (set_given small_scalar 1 origin) none history ≡ some (inl 5)
last_set = refl

commands_replay_example :
    let sent = sent_by small_scalar (run small_scalar history (started ℕ ℕ ℕ ℕ)) in
    (after (set_writes 1 origin) none sent ≡ after (set_given small_scalar 1 origin) none history)
    × (after (format_writes 1 origin) none sent ≡ after (format_given 1 origin) none history)
commands_replay_example = commands_replay small_scalar history 1 origin

-- Two cells that do not touch, and a format.
abbrev buffers : CommandBatcher ℕ ℕ ℕ ℕ
buffers = record {
  buffered_sets = (1, (origin, 7) ∷ (record { row = 5; col = 5 }, 7) ∷ []) ∷ [];
  buffered_formats = (1, (origin, 3) ∷ []) ∷ [];
  cmd_queue = [];
}

flush_buffers-IsSized_example :
    (made : List (QueuedCommand ℕ ℕ ℕ ℕ)) × ((flush_buffers buffers).cmd_queue
      ≡ buffers.cmd_queue ++ made)
    × All IsSized made
flush_buffers-IsSized_example = flush_buffers-IsSized buffers
