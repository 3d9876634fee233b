-- ===== src/Host/Region/Channel.antt =====
-- Two processes over one region without a lock: this one, which begins, fills and publishes a cycle,
-- and the core, which follows the order that host/include/cnc_outboard.h states (it loads `cycle`,
-- reads that cycle's input half, writes that cycle's output half and then stores `response`).
use driver_hostmot.Base.{ℕ, ◌+◌, ◌%◌, ◌^◌, ◌≤◌, ◌<◌, ◌≡◌, ◌≢◌, arith, update}
use driver_hostmot.Host.Region.{Region, hm2_region_begin, hm2_region_publish}
use driver_hostmot.Host.Region.Values.{input, output, address}

-- Between `hm2_region_begin` and `hm2_region_publish` this process fills the half of its cycle.
pub data HostPhase : Type 0 where
  idle : HostPhase
  filling : ℕ → HostPhase

-- From the load of `cycle` to the store of `response` the core works on that cycle.
pub data CorePhase : Type 0 where
  waiting : CorePhase
  answering : ℕ → CorePhase

module _ (Real : Type 0) where
  pub record System : Type 0 where
    pub region : Region Real
    pub host : HostPhase
    pub core : CorePhase

  -- One move of either process. A move of this process is a call of the functions of host/region.c.
  pub data Step (s : System) (t : System) : Type 0 where
    begin :
        s.host ≡ idle
        → (hm2_region_begin s.region).0 ≢ 0
        → t ≡ record {
          region = (hm2_region_begin s.region).1;
          host = filling (hm2_region_begin s.region).0;
          core = s.core;
        }
        → Step s t
    overrun :
        s.host ≡ idle
        → (hm2_region_begin s.region).0 ≡ 0
        → t ≡ record { region = (hm2_region_begin s.region).1; host = idle; core = s.core }
        → Step s t
    fill :
        (n i : ℕ) (v : Real)
        → s.host ≡ filling n
        → i < s.region.block.input_count
        → t ≡ record {
          region = record s.region {
            doubles = update s.region.doubles (address s.region.block (input (n % 2) i)) v;
          };
          host = s.host;
          core = s.core;
        }
        → Step s t
    publish :
        (n : ℕ)
        → s.host ≡ filling n
        → t ≡ record { region = hm2_region_publish n s.region; host = idle; core = s.core }
        → Step s t
    load :
        s.core ≡ waiting
        → s.region.cycle ≢ s.region.response
        → t ≡ record { region = s.region; host = s.host; core = answering s.region.cycle }
        → Step s t
    answer :
        (c i : ℕ) (v : Real)
        → s.core ≡ answering c
        → i < s.region.block.output_count
        → t ≡ record {
          region = record s.region {
            doubles = update s.region.doubles (address s.region.block (output (c % 2) i)) v;
          };
          host = s.host;
          core = s.core;
        }
        → Step s t
    respond :
        (c : ℕ)
        → s.core ≡ answering c
        → t ≡ record { region = record s.region { response = c }; host = s.host; core = waiting }
        → Step s t

  pub data Reach (s : System) : System → Type 0 where
    here : Reach s s
    next : {t u : System} → Reach s t → Step t u → Reach s u

  -- Each process works on one cycle at a time, and never both on theirs: this one fills the cycle
  -- behind the published one only once that is answered.
  pub record IsInStep (s : System) : Type 0 where
    pub bounded : s.region.cycle < 2 ^ 64
    pub behind : s.region.response ≤ s.region.cycle
    pub at_most_one : s.region.cycle ≤ s.region.response + 1
    pub core_at :
        (c : ℕ)
        → s.core ≡ answering c
        → (c ≡ s.region.cycle) × (s.region.cycle ≡ s.region.response + 1)
    pub host_at :
        (n : ℕ)
        → s.host ≡ filling n
        → (n ≡ s.region.cycle + 1) × (s.region.cycle ≡ s.region.response) × (n < 2 ^ 64)

  pub Step-IsInStep : {s t : System} → IsInStep s → Step s t → IsInStep t
  unfolding hm2_region_begin hm2_region_publish
  Step-IsInStep {s} v (begin h ne e) = rw e (record {
    bounded = ground arith;
    behind = ground (arith, v.behind);
    at_most_one = ground (arith, v.at_most_one);
    core_at = λ c k. ground (arith, v.core_at c k);
    host_at = λ n k. ground (arith, v.behind, v.at_most_one, v.bounded);
  })
  Step-IsInStep {s} v (overrun h z e) = rw e (record {
    bounded = ground (arith, v.bounded);
    behind = ground (arith, v.behind);
    at_most_one = ground (arith, v.at_most_one);
    core_at = λ c k. ground (arith, v.core_at c k);
    host_at = λ n k. ground arith;
  })
  Step-IsInStep {s} v (fill n i x h lt e) = rw e (record {
    bounded = v.bounded;
    behind = v.behind;
    at_most_one = v.at_most_one;
    core_at = v.core_at;
    host_at = v.host_at;
  })
  Step-IsInStep {s} v (publish n h e) = rw e (record {
    bounded = ground (arith, v.host_at n h);
    behind = ground (arith, v.host_at n h);
    at_most_one = ground (arith, v.host_at n h);
    core_at = λ c k. ground (arith, v.host_at n h, v.core_at c k);
    host_at = λ m k. ground arith;
  })
  Step-IsInStep {s} v (load h ne e) = rw e (record {
    bounded = v.bounded;
    behind = v.behind;
    at_most_one = v.at_most_one;
    core_at = λ c k. ground (arith, v.behind, v.at_most_one);
    host_at = v.host_at;
  })
  Step-IsInStep {s} v (answer c i x h lt e) = rw e (record {
    bounded = v.bounded;
    behind = v.behind;
    at_most_one = v.at_most_one;
    core_at = v.core_at;
    host_at = v.host_at;
  })
  Step-IsInStep {s} v (respond c h e) = rw e (record {
    bounded = v.bounded;
    behind = ground (arith, v.core_at c h);
    at_most_one = ground (arith, v.core_at c h);
    core_at = λ d k. ground arith;
    host_at = λ n k. ground (arith, v.core_at c h, v.host_at n k);
  })

  -- The first state: nothing published, nothing answered.
  pub record IsStart (s : System) : Type 0 where
    pub cycle : s.region.cycle ≡ 0
    pub response : s.region.response ≡ 0
    pub host : s.host ≡ idle
    pub core : s.core ≡ waiting

  pub Reach-IsInStep : {s t : System} → IsStart s → Reach s t → IsInStep t
  Reach-IsInStep {s} b here = record {
    bounded = ground (arith, b.cycle);
    behind = ground (arith, b.cycle, b.response);
    at_most_one = ground (arith, b.cycle, b.response);
    core_at = λ c k. ground (arith, b.core);
    host_at = λ n k. ground (arith, b.host);
  }
  Reach-IsInStep b (next r st) = Step-IsInStep (Reach-IsInStep b r) st

  -- From a start at which nothing is published or answered, in every interleaving of the two
  -- processes, they never work at once: while this process fills a cycle the core is waiting, and
  -- the published cycle is at most one ahead of the answer.
  pub never_both :
      {s t : System}
      → IsStart s
      → Reach s t
      → (n c : ℕ)
      → (t.region.response ≤ t.region.cycle)
        × (t.region.cycle ≤ t.region.response + 1)
        × (¬ ((t.host ≡ filling n) × (t.core ≡ answering c)))
  never_both b r n c =
      let v = Reach-IsInStep b r in
      (v.behind, v.at_most_one, λ h. absurd (omega (arith, v.host_at n h.0, v.core_at c h.1)))
