-- ===== src/Cpu/Laws/Monitor.antt =====
-- The monitor compares each sample with the last one that it took.
use elastic_agent_system_met.Base.{
  List, [], ◌∷◌, ◌≡◌, refl, ◌∙◌, ap, Option, ok, err, panic, Error, Result, map,
}
use elastic_agent_system_met.Go.Files.{Files}
use elastic_agent_system_met.Libs.{Float64, Opt}
use elastic_agent_system_met.Cpu.Types.{CpuMetrics, Metrics}
use elastic_agent_system_met.Cpu.Sampling.{Monitor, totals_of, keep, fetch_with, sampled, fetch}

module _ (f : Float64) (o : Opt f) where
  -- The last sample of a row of attempts, or the one before them.
  abbrev pub latest : CpuMetrics f o → List (Result (CpuMetrics f o)) → CpuMetrics f o
  latest before [] = before
  latest before (ok sample ∷ rs) = latest sample rs
  latest before (err e ∷ rs) = latest before rs
  latest before (panic ∷ rs) = latest before rs

  module _ (multi_err : List Error → Option Error) where
    -- The monitor after a call of `Fetch` on each state of the host's files.
    abbrev pub after : List Files → Monitor f o → Monitor f o
    after [] m = m
    after (fs ∷ rest) m = after rest (fetch f o multi_err fs m).1

    abbrev pub attempts : List Files → Monitor f o → List (Result (CpuMetrics f o))
    attempts hist m = map (λ fs. sampled f o multi_err fs m) hist

    step-cases :
        (m : Monitor f o) (r : Result (CpuMetrics f o)) (rs : List (Result (CpuMetrics f o)))
        → (latest (fetch_with f o m (λ s. ok (totals_of f o m s)) r).1.last_sample rs
            ≡ latest m.last_sample (r ∷ rs))
          × ((fetch_with f o m (λ s. ok (totals_of f o m s)) r).1.hostfs ≡ m.hostfs)
    unfolding fetch_with keep
    step-cases m (ok s) rs = (refl, refl)
    step-cases m (err e) rs = (refl, refl)
    step-cases m panic rs = (refl, refl)

    attempts-hostfs :
        (hist : List Files) (m m' : Monitor f o)
        → m'.hostfs ≡ m.hostfs
        → attempts hist m' ≡ attempts hist m
    unfolding sampled
    attempts-hostfs [] m m' h = refl
    attempts-hostfs (fs ∷ hist) m m' h = rw (h, attempts-hostfs hist m m' h)

    after-latest :
        (hist : List Files) (m : Monitor f o)
        → (after hist m).last_sample ≡ latest m.last_sample (attempts hist m)
    unfolding fetch
    after-latest [] m = refl
    after-latest (fs ∷ hist) m =
        let (same, kept) = step-cases m (sampled f o multi_err fs m) (attempts hist m) in
        let m' = (fetch f o multi_err fs m).1 in
        after-latest hist m' ∙ ap (latest m'.last_sample) (attempts-hostfs hist m m' kept) ∙ same

    fetch-ok :
        (m m' : Monitor f o) (s : Result (CpuMetrics f o)) (r : Metrics f o)
        → fetch_with f o m (λ s. ok (totals_of f o m s)) s ≡ (ok r, m')
        → (r.previous_sample ≡ m.last_sample.totals) × (m'.last_sample.totals ≡ r.current_sample)
    unfolding fetch_with keep totals_of
    fetch-ok m m' (ok s) r h = (cc, cc)
    fetch-ok m m' (err e) r h = cc
    fetch-ok m m' panic r h = cc

    -- After any row of calls of `Fetch`, failed ones among them, a call of `Fetch` that returns
    -- metrics compares its sample with the last one that was taken, and keeps its own for the next
    -- call.
    pub fetch-after :
        (hist : List Files) (fs : Files) (m m' : Monitor f o) (r : Metrics f o)
        → fetch f o multi_err fs (after hist m) ≡ (ok r, m')
        → (r.previous_sample ≡ (latest m.last_sample (attempts hist m)).totals)
          × (m'.last_sample.totals ≡ r.current_sample)
    unfolding fetch
    fetch-after hist fs m m' r h =
        let (previous, current) =
          fetch-ok (after hist m) m' (sampled f o multi_err fs (after hist m)) r h in
        (previous ∙ ap (λ (s : CpuMetrics f o). s.totals) (after-latest hist m), current)
