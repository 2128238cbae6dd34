-- ===== src/Rtd.antt =====
-- RtdManager of pkg/rtd/manager.go: which topics follow which key, the connect handlers that a
-- disconnect cancels, and the gate of the guest->host sends. Methods under `mu` are one step. A topic
-- id is named by a number; a set of ids is a map to the unit type, as in the source. A cancel func is
-- named by a number, and a method returns those that it calls. `in_flight` is the count of `sendWG`.
pub mod Topics
pub mod Connects
pub mod Gate
pub mod Sends
pub mod RunOnce
mod Tests
use xll_gen.Prelude.{
  ℕ, ◌+◌, ◌-◌, ◌%◌, ◌^◌, Bool, true, false, List, [], ◌∷◌, Option, none, some, ◌==◌, nat_eq,
  string_eq, if◌then◌else◌, length, lookup, insert, erase,
}
use Prim.Native.String.{String}

abbrev pub Topics : Type 0
Topics = List (ℕ × Unit {0})

pub record ConnectCancel : Type 0 where
  pub cancel : ℕ
  pub gen : ℕ

pub record RtdManager {ℓ} (C : Type ℓ) : Type ℓ where
  pub key_to_ids : List (String × Topics)
  pub id_to_key : List (ℕ × String)
  pub client : Option C
  pub connect_cancels : List (ℕ × ConnectCancel)
  pub connect_gen : ℕ
  pub stopped : Bool
  pub in_flight : ℕ

pub data BeginError : Type 0 where
  err_stopped not_connected : BeginError

pub data Begun {ℓ} (C : Type ℓ) : Type ℓ where
  begun : C → RtdManager C → Begun C
  not_begun : BeginError → Begun C

abbrev pub or_empty : Option Topics → Topics
or_empty none = []
or_empty (some ids) = ids

-- `m[key]`, where a missing key reads as the empty set.
abbrev pub ids_of : String → List (String × Topics) → Topics
ids_of key m = or_empty (lookup key m)

-- `delete(m[key], id)`, and the set itself once it is empty.
unfoldable pub remove_id : String → ℕ → List (String × Topics) → List (String × Topics)
remove_id key id m =
    let ids = erase id (ids_of key m) in if length ids == 0 then erase key m else insert key ids m

module _ {ℓ} {C : Type ℓ} where
  unfoldable pub new_rtd_manager : RtdManager C
  new_rtd_manager = record {
    key_to_ids = [];
    id_to_key = [];
    client = none;
    connect_cancels = [];
    connect_gen = 0;
    stopped = false;
    in_flight = 0;
  }

  unfoldable pub set_client : RtdManager C → Option C → RtdManager C
  set_client m c = record m { client = c }

  abbrev add_topic : RtdManager C → String → ℕ → RtdManager C
  add_topic m key id = record m {
    key_to_ids = insert key (insert id tt (ids_of key m.key_to_ids)) m.key_to_ids;
    id_to_key = insert id key m.id_to_key;
  }

  unfoldable pub subscribe : RtdManager C → String → ℕ → RtdManager C
  subscribe m key id = elim (lookup id m.id_to_key) [
    | none ↦ add_topic m key id
    | some old ↦
        if old == key
        then m
        else add_topic (record m { key_to_ids = remove_id old id m.key_to_ids }) key id
  ]

  abbrev drop_topic : RtdManager C → ℕ → RtdManager C
  drop_topic m id = elim (lookup id m.id_to_key) [
    | none ↦ m
    | some key ↦ record m {
      key_to_ids = remove_id key id m.key_to_ids;
      id_to_key = erase id m.id_to_key;
    }
  ]

  -- The cancel funcs that are called come second.
  abbrev cancel_connect : RtdManager C → ℕ → RtdManager C × List ℕ
  cancel_connect m id = elim (lookup id m.connect_cancels) [
    | none ↦ (m, [])
    | some cc ↦ (record m { connect_cancels = erase id m.connect_cancels }, cc.cancel ∷ [])
  ]

  unfoldable pub unsubscribe : RtdManager C → ℕ → RtdManager C × List ℕ
  unsubscribe m id = cancel_connect (drop_topic m id) id

  -- The generation, which the returned deregister func holds, and the cancel funcs that are called.
  unfoldable pub register_connect_cancel : RtdManager C → ℕ → ℕ → RtdManager C × ℕ × List ℕ
  register_connect_cancel m id cancel =
      let gen = (m.connect_gen + 1) % 2 ^ 64 in
      (
        record m {
          connect_gen = gen;
          connect_cancels = insert id (record { cancel = cancel; gen = gen }) m.connect_cancels;
        },
        gen,
        elim (lookup id m.connect_cancels) [ none ↦ [] | some prev ↦ prev.cancel ∷ [] ],
      )

  unfoldable pub deregister : RtdManager C → ℕ → ℕ → RtdManager C
  deregister m id gen = elim (lookup id m.connect_cancels) [
    | none ↦ m
    | some cc ↦
        if cc.gen == gen then record m { connect_cancels = erase id m.connect_cancels } else m
  ]

  abbrev pub begin_with : RtdManager C → ℕ → Option C → Begun C
  begin_with m n none = not_begun not_connected
  begin_with m n (some c) = begun c (record m { in_flight = m.in_flight + n })

  -- `beginSend` is `beginSends 1`, up to the text of its error.
  unfoldable pub begin_sends : RtdManager C → ℕ → Begun C
  begin_sends m n = if m.stopped then not_begun err_stopped else begin_with m n m.client

  unfoldable pub begin_send : RtdManager C → Begun C
  unfolding begin_sends
  begin_send m = begin_sends m 1

  -- `-` stops at 0, where `Done` panics; only a begun send is ended.
  unfoldable pub end_sends : RtdManager C → ℕ → RtdManager C
  end_sends m n = record m { in_flight = m.in_flight - n }

  -- The critical section of `Stop`: the gate is shut.
  unfoldable pub latch_stop : RtdManager C → RtdManager C
  latch_stop m = record m { stopped = true }

  -- What the `select` of `Stop` may see: `done` only once the count is 0.
  abbrev pub has_drained : RtdManager C → Bool
  has_drained m = m.in_flight == 0
