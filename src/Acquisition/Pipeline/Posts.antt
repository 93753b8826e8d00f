-- ===== src/Acquisition/Pipeline/Posts.antt =====
-- acquisition/pipeline.py: what the POSTs of one scan change.
use loyiha.Base.{
  ℕ, ℕ_eq, zero, suc, ◌+◌, ◌*◌, ◌≤◌, ◌≡◌, refl, ◌∙◌, ◌||◌, ◌==◌, [], ◌∷◌, inl, inr, length,
  Bool-cases, arith,
}
use loyiha.Acquisition.Pipeline.{
  Response, status, transport_error, other_error, CycleEnd, AcquisitionPipeline, Wiring, backoffs,
  slice, slept, scan_posted, answered,
}

-- What a run of at most `n` POSTs for one scan may change.
pub record IsPosted (n : ℕ) (p q : AcquisitionPipeline) : Type 0 where
  pub same_seen : q.seen_hashes ≡ p.seen_hashes
  pub same_ingested : q.stats.scans_ingested ≡ p.stats.scans_ingested
  pub tries : q.posts ≤ p.posts + n
  pub ends_once :
      q.stats.scans_posted + q.stats.scans_failed ≤ p.stats.scans_posted + p.stats.scans_failed + 1

pub slept-IsPosted :
    (n : ℕ) (p : AcquisitionPipeline)
    → ((slept n p).seen_hashes ≡ p.seen_hashes)
      × ((slept n p).posts ≡ p.posts)
      × ((slept n p).stats.scans_ingested ≡ p.stats.scans_ingested)
      × ((slept n p).stats.scans_posted ≡ p.stats.scans_posted)
      × ((slept n p).stats.scans_failed ≡ p.stats.scans_failed)
unfolding slept
slept-IsPosted zero p = (refl, refl, refl, refl, refl)
slept-IsPosted (suc n) p = (refl, refl, refl, refl, refl)

next_try :
    (n : ℕ) (p q : AcquisitionPipeline) (r : AcquisitionPipeline)
    → q.seen_hashes ≡ p.seen_hashes
    → q.stats.scans_ingested ≡ p.stats.scans_ingested
    → q.posts ≡ p.posts + 1
    → q.stats.scans_posted ≡ p.stats.scans_posted
    → q.stats.scans_failed ≡ p.stats.scans_failed
    → IsPosted n q r
    → IsPosted (suc n) p r
next_try n p q r s i t a b h = record {
  same_seen = h.same_seen ∙ s;
  same_ingested = h.same_ingested ∙ i;
  tries = omega (arith, h.tries, t);
  ends_once = omega (arith, h.ends_once, a, b);
}

pub answered-IsPosted :
    (n : ℕ) (p q : AcquisitionPipeline) (r : Response) (next : CycleEnd × AcquisitionPipeline)
    → q.seen_hashes ≡ p.seen_hashes
    → q.stats.scans_ingested ≡ p.stats.scans_ingested
    → q.posts ≡ p.posts + 1
    → q.stats.scans_posted ≡ p.stats.scans_posted
    → q.stats.scans_failed ≡ p.stats.scans_failed
    → IsPosted n q next.1
    → IsPosted (suc n) p (answered r q next).1
unfolding scan_posted
answered-IsPosted n p q (status code) next s i t a b h =
    elim (Bool-cases (code == 200 || code == 201 || code == 202)) [
      | inl e ↦ rw e (record {
        same_seen = s;
        same_ingested = i;
        tries = omega (arith, t);
        ends_once = omega (arith, a, b);
      })
      | inr e ↦ elim (Bool-cases (code == 409)) [
        | inl f ↦
            rw (e, f)
              (record {
                same_seen = s;
                same_ingested = i;
                tries = omega (arith, t);
                ends_once = omega (arith, a, b);
              })
        | inr f ↦ rw (e, f) (next_try n p q next.1 s i t a b h)
      ]
    ]
answered-IsPosted n p q transport_error next s i t a b h = next_try n p q next.1 s i t a b h
answered-IsPosted n p q other_error next s i t a b h = record {
  same_seen = s;
  same_ingested = i;
  tries = omega (arith, t);
  ends_once = omega (arith, a, b);
}

pub length-backoffs : (w : Wiring) → length (backoffs w) ≤ 4
unfolding backoffs slice
length-backoffs w = bounded w.api_retries w.second (3 * w.second) (8 * w.second)
  where
    bounded : (n a b c : ℕ) → suc (length (slice n (a ∷ b ∷ c ∷ []))) ≤ 4
    bounded zero a b c = omega arith
    bounded (suc zero) a b c = omega arith
    bounded (suc (suc zero)) a b c = omega arith
    bounded (suc (suc (suc zero))) a b c = omega arith
    bounded (suc (suc (suc (suc zero)))) a b c = omega arith
    bounded (suc (suc (suc (suc (suc n))))) a b c = omega arith
