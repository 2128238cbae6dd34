-- ===== src/Server/Lifecycle.antt =====
-- pkg/server/lifecycle.go: the teardown of the server. A drainer is a function of any state, which says
-- whether its sends finished; `none` is a nil drainer or client. Times are in seconds.
use xll_gen.Prelude.{
  ℕ, ◌≡◌, refl, Bool, true, false, not, ◌&&◌, List, [], ◌∷◌, Option, none, some, if◌then◌else◌,
}

abbrev pub async_drain_timeout : ℕ
async_drain_timeout = 5

abbrev pub rtd_drain_timeout : ℕ
rtd_drain_timeout = 10

-- `fired` is the sync.Once, and `job_drain_failed` the atomic flag.
pub record Lifecycle : Type 0 where
  pub fired : Bool
  pub job_drain_failed : Bool

abbrev pub new_lifecycle : Lifecycle
new_lifecycle = record { fired = false; job_drain_failed = false }

unfoldable pub mark_job_drain_failed : Lifecycle → Lifecycle
mark_job_drain_failed l = record l { job_drain_failed = true }

abbrev pub Drainer {ν} : Type ν → Type ν
Drainer S = ℕ → S → Bool × S

module _ {ν} {S : Type ν} where
  abbrev pub drain : Option (Drainer S) → ℕ → S → Bool × S
  drain none timeout s = (true, s)
  drain (some stop) timeout s = stop timeout s

  -- Both drains run, whatever the first one says.
  unfoldable pub would_unmap : Option (Drainer S) → Option (Drainer S) → Lifecycle → S → Bool × S
  would_unmap async rtd l s =
      let (async_drained, s1) = drain async async_drain_timeout s in
      let (rtd_drained, s2) = drain rtd rtd_drain_timeout s1 in
      (async_drained && rtd_drained && not l.job_drain_failed, s2)

  abbrev close_client : Option (S → S) → S → S
  close_client none s = s
  close_client (some close) s = close s

  -- `signal` closes the channel of `Done`; `client` is the closing of the client, which unmaps.
  unfoldable pub shutdown_and_close :
      Option (Drainer S)
      → Option (Drainer S)
      → (S → S)
      → Option (S → S)
      → Lifecycle
      → S
      → Lifecycle × S
  unfolding would_unmap
  shutdown_and_close async rtd signal client l s =
      let (safe, drained) = would_unmap async rtd l (signal s) in
      if l.fired
      then (l, s)
      else (record l { fired = true }, if safe then close_client client drained else drained)

-- The triggers of a teardown, each of which may come from any goroutine, in any order.
pub data Trigger : Type 0 where
  shut_down : Trigger
  jobs_late : Trigger

-- What the teardown did, the newest first.
pub data Did : Type 0 where
  signalled : Did
  async_stopped : Bool → Did
  rtd_stopped : Bool → Did
  unmapped : Did

module _ (async_ok rtd_ok : Bool) where
  abbrev pub step : Trigger → Lifecycle × List Did → Lifecycle × List Did
  step shut_down (l, log) =
      shutdown_and_close (some (λ t log'. (async_ok, async_stopped async_ok ∷ log')))
        (some (λ t log'. (rtd_ok, rtd_stopped rtd_ok ∷ log'))) (λ log'. signalled ∷ log')
        (some (λ log'. unmapped ∷ log')) l log
  step jobs_late (l, log) = (mark_job_drain_failed l, log)

  abbrev pub run_from : List Trigger → Lifecycle × List Did → Lifecycle × List Did
  run_from [] st = st
  run_from (t ∷ ts) st = run_from ts (step t st)

  -- The teardown that the first `shut_down` makes; `late` says whether a `jobs_late` came before it.
  abbrev pub torn_down : Bool → List Trigger → List Did
  torn_down late [] = []
  torn_down late (jobs_late ∷ ts) = torn_down true ts
  torn_down late (shut_down ∷ ts) =
      let stopped = rtd_stopped rtd_ok ∷ async_stopped async_ok ∷ signalled ∷ [] in
      if async_ok && rtd_ok && not late then unmapped ∷ stopped else stopped

  run_from-fired :
      (ts : List Trigger) (l : Lifecycle) (log : List Did)
      → l.fired ≡ true
      → (run_from ts (l, log)).1 ≡ log
  unfolding shutdown_and_close mark_job_drain_failed
  run_from-fired [] l log f = refl
  run_from-fired (jobs_late ∷ ts) l log f = run_from-fired ts (mark_job_drain_failed l) log f
  run_from-fired (shut_down ∷ ts) l log f =
      rw f (run_from-fired ts (record l { fired = true }) log refl)

  run_from-torn_down :
      (ts : List Trigger) (l : Lifecycle)
      → l.fired ≡ false
      → (run_from ts (l, [])).1 ≡ torn_down l.job_drain_failed ts
  unfolding shutdown_and_close mark_job_drain_failed would_unmap
  run_from-torn_down [] l f = refl
  run_from-torn_down (jobs_late ∷ ts) l f = run_from-torn_down ts (mark_job_drain_failed l) f
  run_from-torn_down (shut_down ∷ ts) l f =
      rw f (run_from-fired ts (record l { fired = true }) _ refl)

-- However often and in whatever order the triggers come: the first shutdown signals the goroutines,
-- stops the async path, stops the RTD path, and then unmaps, and unmaps only if both drained and no
-- late job was marked before it. Every later trigger does nothing, so none of it happens twice.
pub teardown_order :
    (async_ok rtd_ok : Bool) (ts : List Trigger)
    → (run_from async_ok rtd_ok ts (new_lifecycle, [])).1 ≡ torn_down async_ok rtd_ok false ts
teardown_order async_ok rtd_ok ts = run_from-torn_down async_ok rtd_ok ts new_lifecycle refl
