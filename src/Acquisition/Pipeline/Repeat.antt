-- ===== src/Acquisition/Pipeline/Repeat.antt =====
-- acquisition/pipeline.py: a bundle is handled once, and what the counters can reach.
use loyiha.Base.{
  ℕ, ℕ_eq, suc, ◌+◌, ◌*◌, ◌≤◌, ◌≡◌, refl, sym, ap, ◌∙◌, subst, true, List, [], ◌∷◌, In, inl, inr,
  length, contains, contains_iff, Bool-cases, Result, ok, raised, arith,
}
use loyiha.Contracts.Acquisition.{AcquisitionResult}
use loyiha.Datalayer.Ingestion.{Bytes, IngestError, invalid_frame, contract_violation, store_failed}
use loyiha.Acquisition.Pipeline.{
  ScanBundle, Reading, bundle, scanner_unavailable, unexpected, CycleEnd, returned, unavailable,
  escaped, AcquisitionPipeline, Wiring, backoffs, slept, scan_failed, post_attempts,
  post_with_retry, ingested, combined, handled, run_one_cycle, proceed, run_forever,
}
use loyiha.Acquisition.Pipeline.Posts.{IsPosted, slept-IsPosted, answered-IsPosted, length-backoffs}

-- How the counters stand to the number of bundles that were not repeats.
pub record IsCounted (p : AcquisitionPipeline) : Type 0 where
  pub ingested_at_most : p.stats.scans_ingested ≤ length p.seen_hashes
  pub ends_at_most : p.stats.scans_posted + p.stats.scans_failed ≤ length p.seen_hashes
  pub posts_at_most : p.posts ≤ 4 * length p.seen_hashes

module _ (w : Wiring) where
  post_attempts-IsPosted :
      (a : AcquisitionResult) (bs : List ℕ) (p : AcquisitionPipeline)
      → IsPosted (length bs) p (post_attempts w a bs p).1
  unfolding post_attempts scan_failed
  post_attempts-IsPosted a [] p = record {
    same_seen = refl;
    same_ingested = refl;
    tries = omega arith;
    ends_once = omega arith;
  }
  post_attempts-IsPosted a (b ∷ bs) p =
      let (s, t, i, posted, failed) = slept-IsPosted b p in
      answered-IsPosted (length bs) p _ (w.post (slept b p).posts a) _ s i (omega (arith, t)) posted
        failed (post_attempts-IsPosted a bs (record (slept b p) { posts = (slept b p).posts + 1 }))

  -- A bundle that is not a repeat adds its digest, and its run is counted.
  record IsHandled (key : ℕ) (p q : AcquisitionPipeline) : Type 0 where
    seen : q.seen_hashes ≡ key ∷ p.seen_hashes
    counted : IsCounted p → IsCounted q

  post_with_retry-IsHandled :
      (a : AcquisitionResult) (key : ℕ) (p q : AcquisitionPipeline)
      → q.seen_hashes ≡ key ∷ p.seen_hashes
      → q.stats ≡ record p.stats { scans_ingested = p.stats.scans_ingested + 1 }
      → q.posts ≡ p.posts
      → IsHandled key p (post_with_retry w a q).1
  unfolding post_with_retry
  post_with_retry-IsHandled a key p q s st t =
      let h = post_attempts-IsPosted a (backoffs w) q in
      let same = h.same_seen ∙ s in
      let l : length (post_attempts w a (backoffs w) q).1.seen_hashes ≡ suc (length p.seen_hashes) =
        ap length same in
      record {
        seen = same;
        counted = λ c. record {
          ingested_at_most =
              omega (arith, c.ingested_at_most, h.same_ingested, ap (λ x. x.scans_ingested) st, l);
          ends_at_most = omega (
            arith,
            c.ends_at_most,
            h.ends_once,
            ap (λ x. x.scans_posted) st,
            ap (λ x. x.scans_failed) st,
            l,
          );
          posts_at_most = omega (arith, c.posts_at_most, h.tries, length-backoffs w, t, l);
        };
      }

  unsent :
      (key : ℕ) (p q : AcquisitionPipeline)
      → q.seen_hashes ≡ key ∷ p.seen_hashes
      → q.posts ≡ p.posts
      → q.stats.scans_ingested ≡ p.stats.scans_ingested
      → IsCounted p
      → q.stats.scans_posted + q.stats.scans_failed
        ≤ p.stats.scans_posted + p.stats.scans_failed + 1
      → IsCounted q
  unsent key p q s t i c e = record {
    ingested_at_most = omega (arith, c.ingested_at_most, i, ap length s);
    ends_at_most = omega (arith, c.ends_at_most, e, ap length s);
    posts_at_most = omega (arith, c.posts_at_most, t, ap length s);
  }

  ingested-IsHandled :
      (r : Result IngestError AcquisitionResult × List Bytes) (key : ℕ) (p : AcquisitionPipeline)
      → IsHandled key p (ingested w r (record p { seen_hashes = key ∷ p.seen_hashes })).1
  unfolding scan_failed
  ingested-IsHandled (ok a, stored) key p = post_with_retry-IsHandled a key p _ refl refl refl
  ingested-IsHandled (raised invalid_frame, stored) key p = record {
    seen = refl;
    counted = λ c. unsent key p _ refl refl refl c (omega arith);
  }
  ingested-IsHandled (raised contract_violation, stored) key p = record {
    seen = refl;
    counted = λ c. unsent key p _ refl refl refl c (omega arith);
  }
  ingested-IsHandled (raised store_failed, stored) key p = record {
    seen = refl;
    counted = λ c. unsent key p _ refl refl refl c (omega arith);
  }

  -- What a cycle leaves: nothing that counts has changed, or a new bundle was handled.
  cycle_seen :
      (r : Reading) (p : AcquisitionPipeline) (key : ℕ)
      → In key p.seen_hashes
      → In key (run_one_cycle w r p).1.seen_hashes
  unfolding run_one_cycle handled
  cycle_seen scanner_unavailable p key i = i
  cycle_seen unexpected p key i = i
  cycle_seen (bundle b) p key i = elim (Bool-cases (contains p.seen_hashes (combined w b))) [
    | inl e ↦ rw e i
    | inr e ↦ rw e (subst (In key) (sym (ingested-IsHandled _ (combined w b) p).seen) (inr i))
  ]

  cycle-IsCounted :
      (r : Reading) (p : AcquisitionPipeline) → IsCounted p → IsCounted (run_one_cycle w r p).1
  unfolding run_one_cycle handled
  cycle-IsCounted scanner_unavailable p c = c
  cycle-IsCounted unexpected p c = record {
    ingested_at_most = c.ingested_at_most;
    ends_at_most = c.ends_at_most;
    posts_at_most = c.posts_at_most;
  }
  cycle-IsCounted (bundle b) p c = elim (Bool-cases (contains p.seen_hashes (combined w b))) [
    | inl e ↦ rw e c
    | inr e ↦ rw e ((ingested-IsHandled _ (combined w b) p).counted c)
  ]

  marked :
      (b : ScanBundle) (p : AcquisitionPipeline)
      → In (combined w b) (run_one_cycle w (bundle b) p).1.seen_hashes
  unfolding run_one_cycle handled
  marked b p = elim (Bool-cases (contains p.seen_hashes (combined w b))) [
    | inl e ↦ rw e ((contains_iff p.seen_hashes (combined w b)).0 e)
    | inr e ↦
        rw e
          (subst (In (combined w b)) (sym (ingested-IsHandled _ (combined w b) p).seen) (inl refl))
  ]

  proceed_keeps :
      (P : AcquisitionPipeline → Type 0) (out : CycleEnd × AcquisitionPipeline)
      (next : AcquisitionPipeline → CycleEnd × AcquisitionPipeline)
      → ((q : AcquisitionPipeline) → P q → P (next q).1)
      → P out.1
      → P (proceed w out next).1
  proceed_keeps P (returned, q) next keeps h = keeps q h
  proceed_keeps P (unavailable, q) next keeps h = h
  proceed_keeps P (escaped, q) next keeps h = h

  -- What each cycle keeps, a run keeps.
  run_keeps :
      (P : AcquisitionPipeline → Type 0)
      → ((r : Reading) (p : AcquisitionPipeline) → P p → P (run_one_cycle w r p).1)
      → (rs : List Reading) (p : AcquisitionPipeline) → P p
      → P (run_forever w rs p).1
  unfolding run_forever
  run_keeps P step [] p h = h
  run_keeps P step (r ∷ rs) p h =
      proceed_keeps P (run_one_cycle w r p) (run_forever w rs) (run_keeps P step rs) (step r p h)

  -- Whatever happens, the counters stay in step: at most one scan is ingested, and at most one ends
  -- as posted or failed, for each bundle that was not a repeat, and it takes four POSTs at most.
  pub run_forever-IsCounted :
      (rs : List Reading) (p : AcquisitionPipeline) → IsCounted p → IsCounted (run_forever w rs p).1
  run_forever-IsCounted = run_keeps IsCounted cycle-IsCounted

  handled_again :
      (b : ScanBundle) (p : AcquisitionPipeline)
      → contains p.seen_hashes (combined w b) ≡ true
      → run_one_cycle w (bundle b) p ≡ (returned, p)
  unfolding run_one_cycle handled
  handled_again b p seen = rw seen refl

  -- A bundle is handled once: after a cycle on it, however that cycle ended, and after any further
  -- readings, another cycle on a bundle with the same digest returns and changes nothing. It is not
  -- posted again, not even when its ingestion or its POSTs have failed.
  pub repeat_ignored :
      (b again : ScanBundle) (rs : List Reading) (p : AcquisitionPipeline)
      → combined w again ≡ combined w b
      → run_one_cycle w (bundle again) (run_forever w rs (run_one_cycle w (bundle b) p).1).1
        ≡ (returned, (run_forever w rs (run_one_cycle w (bundle b) p).1).1)
  repeat_ignored b again rs p same =
      let q = (run_forever w rs (run_one_cycle w (bundle b) p).1).1 in
      let kept : In (combined w b) q.seen_hashes =
        run_keeps (λ q. In (combined w b) q.seen_hashes) (λ r q i. cycle_seen r q (combined w b) i)
          rs _ (marked b p) in
      let seen : contains q.seen_hashes (combined w again) ≡ true =
        ap (contains q.seen_hashes) same ∙ (contains_iff q.seen_hashes (combined w b)).1 kept in
      handled_again again q seen
