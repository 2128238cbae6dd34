-- ===== src/Server/JobPool.antt =====
-- pkg/server/jobpool.go: the bounded pool that runs user handlers, as a step relation. A job is any
-- value; running it, panics included, is a step of a worker. Sending on the closed queue panics, which
-- Submit recovers from, so it then answers false.
use xll_gen.Prelude.{
  ℕ, suc, ◌+◌, ◌≤◌, ◌<◌, ◌≡◌, refl, ap, Bool, true, false, not, ◌&&◌, List, [], ◌∷◌, ◌++◌, ltb,
  ◌==◌, nat_eq, nat_beq_iff, if◌then◌else◌, length, length-append, arith, inl, inr, Bool-cases, ℤ,
  positive_or,
}

-- `idle`, `running` and `exited` count the workers; `accepted` and `finished` count jobs, for the
-- proofs only.
pub record JobPool {ℓ} (J : Type ℓ) : Type ℓ where
  pub queue : List J
  pub capacity : ℕ
  pub closed : Bool
  pub idle : ℕ
  pub running : ℕ
  pub exited : ℕ
  pub accepted : ℕ
  pub finished : ℕ

-- `num_cpu` is runtime.NumCPU().
unfoldable pub new_job_pool {ℓ} : (J : Type ℓ) → ℕ → ℤ → JobPool J
new_job_pool J num_cpu workers =
    let n = positive_or num_cpu workers in
    record {
      queue = [];
      capacity = n;
      closed = false;
      idle = n;
      running = 0;
      exited = 0;
      accepted = 0;
      finished = 0;
    }

both_true : (a b : Bool) → (a && b) ≡ true → (a ≡ true) × (b ≡ true)
both_true true b h = (refl, h)
both_true false b h = cc

module _ {ℓ} {J : Type ℓ} where
  unfoldable pub submit : JobPool J → J → JobPool J × Bool
  submit p job =
      if not p.closed && ltb (length p.queue) p.capacity
      then (record p { queue = p.queue ++ (job ∷ []); accepted = p.accepted + 1 }, true)
      else (p, false)

  -- `closeOnce` makes a second closing nothing.
  unfoldable pub close_queue : JobPool J → JobPool J
  close_queue p = record p { closed = true }

  -- A drain is over once every worker has left its loop.
  abbrev pub is_drained : JobPool J → Bool
  is_drained p = p.idle + p.running == 0

  pub data Step : JobPool J → JobPool J → Type ℓ where
    submitted : (p : JobPool J) (job : J) → Step p (submit p job).0
    closed_queue : (p : JobPool J) → Step p (close_queue p)
    job_taken :
        (p : JobPool J) (job : J) (rest : List J) (n : ℕ)
        → p.queue ≡ job ∷ rest
        → p.idle ≡ n + 1
        → Step p (record p { queue = rest; idle = n; running = p.running + 1 })
    job_finished :
        (p : JobPool J) (n : ℕ)
        → p.running ≡ n + 1
        → Step p (record p { idle = p.idle + 1; running = n; finished = p.finished + 1 })
    worker_left :
        (p : JobPool J) (n : ℕ)
        → p.closed ≡ true
        → p.queue ≡ []
        → p.idle ≡ n + 1
        → Step p (record p { idle = n; exited = p.exited + 1 })

  pub data Steps : JobPool J → JobPool J → Type ℓ where
    done : (p : JobPool J) → Steps p p
    then_step : (p q r : JobPool J) → Step p q → Steps q r → Steps p r

  pub record IsSound (workers : ℕ) (p : JobPool J) : Type ℓ where
    pub sized : p.capacity ≡ workers
    pub fits : length p.queue ≤ workers
    pub crew : p.idle + p.running + p.exited ≡ workers
    pub counted : p.accepted ≡ length p.queue + p.running + p.finished
    pub left : 0 < p.exited → (p.closed ≡ true) × (p.queue ≡ [])

  Step-IsSound : (n : ℕ) (p q : JobPool J) → Step p q → IsSound n p → IsSound n q
  unfolding submit close_queue
  Step-IsSound n _ _ (submitted p job) v =
      elim (Bool-cases (not p.closed && ltb (length p.queue) p.capacity)) [
        | inl accepts ↦
            let (going, room) =
              both_true (not p.closed) (ltb (length p.queue) p.capacity) accepts in
            let l = length-append p.queue (job ∷ []) in
            rw accepts (record {
              sized = v.sized;
              fits = ground (arith, v.sized, l);
              crew = v.crew;
              counted = omega (arith, v.counted, l);
              left = λ h. let c = (v.left h).0 in absurd (ground (arith, c, going));
            })
        | inr busy ↦ rw busy v
      ]
  Step-IsSound n _ _ (closed_queue p) v = record {
    sized = v.sized;
    fits = v.fits;
    crew = v.crew;
    counted = v.counted;
    left = λ h. (refl, (v.left h).1);
  }
  Step-IsSound n _ _ (job_taken p job rest k e i) v =
      let l : length p.queue ≡ suc (length rest) = ap length e in
      record {
        sized = v.sized;
        fits = omega (arith, v.fits, l);
        crew = omega (arith, v.crew, i);
        counted = omega (arith, v.counted, l);
        left = λ h. let q = (v.left h).1 in absurd (cc (e, q));
      }
  Step-IsSound n _ _ (job_finished p k r) v = record {
    sized = v.sized;
    fits = v.fits;
    crew = omega (arith, v.crew, r);
    counted = omega (arith, v.counted, r);
    left = v.left;
  }
  Step-IsSound n _ _ (worker_left p k c e i) v = record {
    sized = v.sized;
    fits = v.fits;
    crew = omega (arith, v.crew, i);
    counted = v.counted;
    left = λ h. (c, e);
  }

  Steps-IsSound : (n : ℕ) (p q : JobPool J) → Steps p q → IsSound n p → IsSound n q
  Steps-IsSound n _ _ (done p) v = v
  Steps-IsSound n _ _ (then_step p q r x xs) v = Steps-IsSound n q r xs (Step-IsSound n p q x v)

-- Take any run of a pool that is new, on a machine with a processor. No more jobs run at once than there
-- are workers, and no more wait. Every job that was accepted waits, runs or is finished; so once the
-- pool has drained, all of them are finished, the queue is closed, and no job is accepted any more.
pub job_pool_drains {ℓ} :
    (J : Type ℓ) (num_cpu : ℕ) (workers : ℤ) (p : JobPool J)
    → 0 < num_cpu
    → Steps (new_job_pool J num_cpu workers) p
    → let n = positive_or num_cpu workers in
      (length p.queue ≤ n)
      × (p.running ≤ n)
      × (p.accepted ≡ length p.queue + p.running + p.finished)
      × (is_drained p ≡ true → (p.finished ≡ p.accepted) × ((job : J) → submit p job ≡ (p, false)))
unfolding new_job_pool submit
job_pool_drains J num_cpu workers p cpu steps =
    let n = positive_or num_cpu workers in
    let start : IsSound n (new_job_pool J num_cpu workers) = record {
      sized = refl;
      fits = omega arith;
      crew = omega arith;
      counted = omega arith;
      left = λ h. absurd (omega arith);
    } in
    let v = Steps-IsSound n (new_job_pool J num_cpu workers) p steps start in
    let some_worker : 0 < n = ground arith in
    (
      v.fits,
      omega (arith, v.crew),
      v.counted,
      λ d.
          let z = (nat_beq_iff (p.idle + p.running) 0).0 d in
          let (shut, empty) = v.left (omega (arith, v.crew, z, some_worker)) in
          let l : length p.queue ≡ 0 = ap length empty in
          (omega (arith, v.counted, l, z), λ job. rw shut refl),
    )
