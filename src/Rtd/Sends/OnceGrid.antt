-- ===== src/Rtd/Sends/OnceGrid.antt =====
-- SendOnceGrid (pkg/rtd/manager.go): one slot, or the chunks of a transfer.
use xll_gen.Prelude.{
  ℕ, ◌+◌, ◌≤◌, ◌<◌, ◌≡◌, refl, subst, ap, ◌∙◌, inl, inr, false, List, Option, none, some, arith,
  leb, ◌==◌, nat_eq, if◌then◌else◌, ℤ, pos, length, Bool-cases,
}
use xll_gen.MsgId.{msg_rtd_once_grid}
use xll_gen.Chunk.{
  Frame, Sender, SendError, no_retry, guest_budget, framing_overhead, max_transfer_bytes,
  effective_chunk_size, send,
}
use xll_gen.Chunk.Budget.{guest_budget_fits}
use xll_gen.Chunk.Split.{Piece, Tiles, joined, deliver_all, send-Tiles}
use xll_gen.Rtd.{
  RtdManager, Begun, begun, not_begun, err_stopped, begin_with, begin_send, begin_sends, end_sends,
}
use xll_gen.Rtd.Sends.{
  RtdError, not_sent, empty_payload, no_chunked_send, grid_failed, Result, failed,
}

abbrev pub grid_error {ℓ} : {E : Type ℓ} → Option (SendError E) → Option (RtdError E)
grid_error none = none
grid_error (some e) = some (grid_failed e)

abbrev pub grid_sender : Option ℤ → Sender
grid_sender capacity = record { chunk_size = pos (guest_budget capacity); max_total_bytes = pos 0 }

module _ {κ μ ν} {E : Type κ} {C : Type μ} {S : Type ν} (deliver_whole : List ℕ → S → Option E × S)
    (deliver_frame : Option (Frame → S → Option E × S)) (capacity : Option ℤ) (id : ℕ) where
  send_chunked : Option (Frame → S → Option E × S) → List ℕ → RtdManager C → S → Result E C S
  send_chunked none payload m s =
      (some (no_chunked_send (length payload) (guest_budget capacity)), end_sends m 1, s)
  send_chunked (some deliver) payload m s =
      let sent = send deliver (grid_sender capacity) payload id msg_rtd_once_grid no_retry s in
      (grid_error sent.error, end_sends m 1, sent.state)

  send_grid_begun : List ℕ → RtdManager C → Begun C → S → Result E C S
  unfolding send_chunked
  send_grid_begun payload m (not_begun e) s = (some (not_sent e), m, s)
  send_grid_begun payload m (begun c m') s =
      let (err, s') = deliver_whole payload s in
      if length payload == 0
      then (some empty_payload, end_sends m' 1, s)
      else if leb (length payload) (guest_budget capacity)
      then (failed err, end_sends m' 1, s')
      else send_chunked deliver_frame payload m' s

  -- `id` is the fresh transfer id.
  pub send_once_grid : RtdManager C → List ℕ → S → Result E C S
  unfolding send_grid_begun
  send_once_grid m payload s = send_grid_begun payload m (begin_send m) s

  begin_send_ready :
      (m : RtdManager C) (c : C)
      → m.stopped ≡ false
      → m.client ≡ some c
      → begin_send m ≡ begun c (record m { in_flight = m.in_flight + 1 })
  unfolding begin_send begin_sends
  begin_send_ready m c going here =
      ap (λ b. if b then not_begun err_stopped else begin_with m 1 m.client) going
      ∙ ap (begin_with m 1) here

-- The sends of one grid, over any transport, with the gate open and a client set. Within the budget of
-- the client's capacity, the payload is sent whole, once. Over it, and within the transfer cap, it is
-- cut into pieces that tile it, none over the budget, so that each fits the capacity with its framing
-- if the capacity has room for more than the framing; the outcome is that of delivering these, in
-- order and without retries, up to the first failure. Either way no send is left in flight.
pub send_once_grid-Tiles {κ μ ν} :
    {E : Type κ} {C : Type μ} {S : Type ν} (deliver_whole : List ℕ → S → Option E × S)
    (deliver : Frame → S → Option E × S) (capacity : Option ℤ) (id : ℕ) (m : RtdManager C) (c : C)
    (p : List ℕ) (s : S)
    → m.stopped ≡ false
    → m.client ≡ some c
    → 0 < length p
    → let r = send_once_grid deliver_whole (some deliver) capacity id m p s in
      let whole = deliver_whole p s in
      (r.1.in_flight ≡ m.in_flight)
      × (length p ≤ guest_budget capacity → (r.0 ≡ failed whole.0) × (r.2 ≡ whole.1))
      × (guest_budget capacity < length p
          → length p ≤ max_transfer_bytes
          → (ps : List Piece) × Tiles (guest_budget capacity) p 0 ps
            × (joined ps ≡ p)
            × ((k : ℕ)
                → capacity ≡ some (pos k)
                → framing_overhead < k
                → guest_budget capacity + framing_overhead ≤ k)
            × (let sent = deliver_all deliver p id msg_rtd_once_grid no_retry ps s in
                (r.0 ≡ grid_error sent.error) × (r.2 ≡ sent.state)))
unfolding send_once_grid send_grid_begun send_chunked end_sends
send_once_grid-Tiles deliver_whole deliver capacity id m c p s going here pos_len =
    let full : (length p == 0) ≡ false = ground arith in
    let fits = guest_budget_fits capacity in
    let chunk : effective_chunk_size (grid_sender capacity) ≡ guest_budget capacity =
      ground (arith, fits.0) in
    rw (begin_send_ready deliver_whole (some deliver) capacity id m c going here) (
      rw full (elim (Bool-cases (leb (length p) (guest_budget capacity))) [
        | inl small ↦
            rw small (omega arith, λ h. (refl, refl), λ h cap. absurd (ground (arith, small, h)))
        | inr big ↦ rw big (
          omega arith,
          λ h. absurd (ground (arith, big, h)),
          λ h cap.
              let (ps, t, whole, e) =
                (send-Tiles deliver (grid_sender capacity) p id msg_rtd_once_grid no_retry s).0
                  cap in
              (
                ps,
                subst (λ n. Tiles n p 0 ps) chunk t,
                whole,
                fits.2,
                (ap (λ o. grid_error o.error) e, ap (λ o. o.state) e),
              ),
        )
      ]))
