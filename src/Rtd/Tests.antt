-- ===== src/Rtd/Tests.antt =====
-- Concrete runs of RtdManager and RunOnceGrid (pkg/rtd).
use xll_gen.Prelude.{
  ℕ, ◌+◌, ◌≤◌, ◌<◌, ◌≡◌, ◌↔◌, refl, inl, inr, AllDistinct, codes, text_eq, itoa, true, false, List,
  [], ◌∷◌, ◌++◌, Option, none, some, pos, length, arith, map, lookup, if◌then◌else◌, ◌==◌, nat_eq,
}
use Prim.Native.String.{String}
use xll_gen.Chunk.{guest_budget, framing_overhead, max_transfer_bytes}
use xll_gen.Chunk.Retry.{flaky}
use xll_gen.Chunk.Split.{Piece, Tiles, joined, deliver_all}
use xll_gen.Chunk.{no_retry}
use xll_gen.MsgId.{msg_rtd_once_grid}
use xll_gen.Rtd.{
  RtdManager, ConnectCancel, new_rtd_manager, subscribe, unsubscribe, register_connect_cancel,
  deregister, latch_stop, begin_sends, end_sends, not_begun, err_stopped, has_drained,
}
use xll_gen.Rtd.Topics.{
  IsConsistent, HasNoEmpty, subscribe-IsConsistent, unsubscribe-IsConsistent, cancels,
  new_rtd_manager-IsConsistent,
}
use xll_gen.Rtd.Connects.{register_generation}
use xll_gen.Rtd.Gate.{done, then_step, sends_ended, subscribed, stop_drains}
use xll_gen.Rtd.Sends.{RtdUpdate, sent, unsent, topic_ids, publish, failed}
use xll_gen.Rtd.Sends.Broadcast.{logging, update_of, failures, Among, publish_reaches}
use xll_gen.Rtd.Sends.OnceGrid.{send_once_grid, grid_error, send_once_grid-Tiles}
use xll_gen.Rtd.RunOnce.{AnyValue, format_int, run_once_grid}
use xll_gen.Rtd.RunOnce.Recording.{Verdicts, pushes, InOrder, tokens}
use xll_gen.Rtd.RunOnce.Order.{Call, serve_call, serve_calls, Ends, run_once_grid_order}

abbrev fresh : RtdManager (Unit {0})
fresh = new_rtd_manager

fresh-ok : IsConsistent fresh × HasNoEmpty fresh
fresh-ok = new_rtd_manager-IsConsistent Unit

abbrev price : String
price = "price"

abbrev following : RtdManager (Unit {0})
following = subscribe fresh price 4

following-ok : IsConsistent following × HasNoEmpty following
following-ok = let h = subscribe-IsConsistent fresh price 4 fresh-ok.0 fresh-ok.1 in (h.0, h.1)

subscribe-IsConsistent_example :
    IsConsistent (subscribe fresh price 4)
    × HasNoEmpty (subscribe fresh price 4)
    × ((j : ℕ)
        → lookup j (subscribe fresh price 4).id_to_key
          ≡ (if 4 == j then some price else lookup j fresh.id_to_key))
subscribe-IsConsistent_example = subscribe-IsConsistent fresh price 4 fresh-ok.0 fresh-ok.1

unsubscribe-IsConsistent_example :
    let r = unsubscribe (subscribe fresh price 4) 4 in
    IsConsistent r.0
    × HasNoEmpty r.0
    × ((j : ℕ)
        → lookup j r.0.id_to_key
          ≡ (if 4 == j then none else lookup j (subscribe fresh price 4).id_to_key))
    × (lookup 4 r.0.connect_cancels ≡ none)
    × (r.1 ≡ cancels (subscribe fresh price 4) 4)
unsubscribe-IsConsistent_example =
    unsubscribe-IsConsistent (subscribe fresh price 4) 4 following-ok.0 following-ok.1

abbrev connecting : RtdManager (Unit {0})
connecting = record fresh {
  connect_cancels = (4, record { cancel = 50; gen = 1 }) ∷ [];
  connect_gen = 1;
}

register_generation_example :
    let (m', gen, called) = register_connect_cancel connecting 4 60 in
    ((cc' : ConnectCancel)
      → lookup 4 connecting.connect_cancels ≡ some cc'
      → called ≡ cc'.cancel ∷ [])
    × (deregister m' 4 1 ≡ m')
    × (lookup 4 m'.connect_cancels ≡ some (record { cancel = 60; gen = gen }))
    × ((j : ℕ)
        → lookup j (deregister m' 4 gen).connect_cancels
          ≡ (if 4 == j then none else lookup j connecting.connect_cancels))
    × (connecting.connect_gen < m'.connect_gen)
register_generation_example = register_generation connecting 4 60 1 (omega arith) (omega arith)

abbrev sending : RtdManager (Unit {0})
sending = record {
  key_to_ids = [];
  id_to_key = [];
  client = some tt;
  connect_cancels = [];
  connect_gen = 0;
  stopped = false;
  in_flight = 1;
}

one_left : 1 ≤ (latch_stop sending).in_flight
unfolding latch_stop
one_left = omega arith

-- The send in flight ends after the gate is shut, and another caller subscribes.
stop_drains_example :
    let m1 = end_sends (latch_stop sending) 1 in
    let m2 = subscribe m1 price 4 in
    ((n : ℕ) → begin_sends m2 n ≡ not_begun err_stopped)
    × (m2.in_flight ≤ sending.in_flight)
    × (has_drained m1 ≡ true → m2.in_flight ≡ 0)
stop_drains_example =
    stop_drains sending (end_sends (latch_stop sending) 1)
      (subscribe (end_sends (latch_stop sending) 1) price 4)
      (then_step _ _ _ (sends_ended (latch_stop sending) 1 one_left) (done _))
      (then_step _ _ _ (subscribed (end_sends (latch_stop sending) 1) price 4) (done _))

abbrev connected : RtdManager (Unit {0})
connected = record following { client = some tt }

-- Every send fails, and is reported.
abbrev busy_host : RtdUpdate ℕ → Option ℕ
busy_host u = some u.topic_id

connected-ok : IsConsistent connected
connected-ok = following-ok.0

publish_reaches_example :
    let ids = topic_ids connected price in
    let r = publish (logging busy_host) connected price 42 [] in
    ((id : ℕ) → Among id ids ↔ (lookup id connected.id_to_key ≡ some price))
    × ((c : Unit {0})
        → connected.stopped ≡ false
        → connected.client ≡ some c
        → (r.0 ≡ sent (failures busy_host 42 ids))
          × (r.2 ≡ [] ++ map (update_of 42) ids)
          × (r.1.in_flight ≡ connected.in_flight))
    × (connected.stopped ≡ true → (r.2 ≡ []) × (0 < length ids → r.0 ≡ unsent err_stopped))
publish_reaches_example = publish_reaches busy_host connected price 42 [] connected-ok

abbrev grid : List ℕ
grid = 1 ∷ 2 ∷ 3 ∷ []

abbrev refusing : List ℕ → ℕ → Option (Unit {0}) × ℕ
refusing p n = (some tt, n)

-- A capacity of 258 bytes leaves a budget of 2.
send_once_grid-Tiles_example :
    let r = send_once_grid refusing (some flaky) (some (pos 258)) 9 sending grid 0 in
    let whole = refusing grid 0 in
    (r.1.in_flight ≡ sending.in_flight)
    × (3 ≤ guest_budget (some (pos 258)) → (r.0 ≡ failed whole.0) × (r.2 ≡ whole.1))
    × (guest_budget (some (pos 258)) < 3
        → 3 ≤ max_transfer_bytes
        → (ps : List Piece) × Tiles (guest_budget (some (pos 258))) grid 0 ps
          × (joined ps ≡ grid)
          × ((k : ℕ)
              → some (pos 258) ≡ some (pos k)
              → framing_overhead < k
              → guest_budget (some (pos 258)) + framing_overhead ≤ k)
          × (let out = deliver_all flaky grid 9 msg_rtd_once_grid no_retry ps 0 in
              (r.0 ≡ grid_error out.error) × (r.2 ≡ out.state)))
send_once_grid-Tiles_example =
    send_once_grid-Tiles refusing flaky (some (pos 258)) 9 sending tt grid 0 refl refl (omega arith)

abbrev taking : Verdicts (AnyValue ℕ) ℕ
taking = record { of_update = λ id x. none; of_error = λ id t. none; of_grid = λ k p. none }

abbrev delivery : Call ℕ
delivery = record { ctx_err = none; id = 4; once_key = "key"; result = inr grid }

abbrev failing : Call ℕ
failing = record { ctx_err = none; id = 5; once_key = "other"; result = inl 3 }

run_once_grid_order_example :
    let (seq, log) = serve_calls (λ e. "failed") taking (delivery ∷ failing ∷ []) 6 [] in
    let (r, seq', log') = serve_call (λ e. "failed") taking delivery seq log in
    (pushes log' ≡ 3)
    × InOrder taking log'
    × AllDistinct (tokens log')
    × Ends (λ e. "failed") taking 4 seq (tokens log) seq' log'
run_once_grid_order_example =
    run_once_grid_order (λ e. "failed") taking (delivery ∷ failing ∷ []) delivery 6 (omega arith)

delivered_tokens :
    tokens (serve_calls (λ e. "failed") taking (delivery ∷ failing ∷ delivery ∷ []) 6 []).1
    ≡ codes "8" ∷ codes "7" ∷ []
unfolding run_once_grid format_int itoa
delivered_tokens = refl
