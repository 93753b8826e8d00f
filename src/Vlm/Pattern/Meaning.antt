-- ===== src/Vlm/Pattern/Meaning.antt =====
-- The search of vlm/guard.py's regular expressions finds exactly what occurs in a text.
use loyiha.Base.{ℕ, ◌≡◌, refl, ap, ◌↔◌, ◌⊎◌, inl, inr, Bool, true, [], ◌∷◌, or_iff, and_iff}
use loyiha.Contracts.Common.{Text}
use loyiha.Vlm.Pattern.{
  Pattern, nothing, word_end, item, many, then, either, at_end, many_then, match_then, search,
  Takes, by_nothing, by_end, by_item, by_none, by_more, by_then, by_left, by_right, Occurs,
}

module _ (is_word : ℕ → Bool) where
  -- the pattern takes some front after which `k` passes
  abbrev CanTake : Pattern → (Text → Bool) → Text → Type 0
  CanTake r k s = (t : Text) × Takes is_word r s t × (k t ≡ true)

  many_then_sound :
      (p : ℕ → Bool) (k : Text → Bool) (s : Text)
      → many_then is_word p k s ≡ true
      → CanTake (many p) k s
  many_then_sound p k [] h = ([], by_none, h)
  many_then_sound p k (c ∷ cs) h = elim ((or_iff (k (c ∷ cs)) _).0 h) [
    | inl now ↦ (c ∷ cs, by_none, now)
    | inr later ↦
        let (pc, rest) = (and_iff (p c) _).0 later in
        let (t, m, after) = many_then_sound p k cs rest in (t, by_more pc m, after)
  ]

  match_then_sound :
      (r : Pattern) (k : Text → Bool) (s : Text) → match_then is_word r k s ≡ true → CanTake r k s
  unfolding match_then
  match_then_sound nothing k s h = (s, by_nothing, h)
  match_then_sound word_end k s h =
      let (e, after) = (and_iff (at_end is_word s) _).0 h in (s, by_end e, after)
  match_then_sound (item p) k [] h = cc
  match_then_sound (item p) k (c ∷ cs) h =
      let (pc, after) = (and_iff (p c) _).0 h in (cs, by_item pc, after)
  match_then_sound (many p) k s h = many_then_sound p k s h
  match_then_sound (then a b) k s h =
      let (t, m, h') = match_then_sound a (match_then is_word b k) s h in
      let (u, n, after) = match_then_sound b k t h' in (u, by_then m n, after)
  match_then_sound (either a b) k s h = elim ((or_iff (match_then is_word a k s) _).0 h) [
    | inl l ↦ let (t, m, after) = match_then_sound a k s l in (t, by_left m, after)
    | inr r ↦ let (t, m, after) = match_then_sound b k s r in (t, by_right m, after)
  ]

  many_then_now :
      (p : ℕ → Bool) (k : Text → Bool) (s : Text) → k s ≡ true → many_then is_word p k s ≡ true
  many_then_now p k [] h = h
  many_then_now p k (c ∷ cs) h = rw h

  match_then_complete :
      (r : Pattern) (k : Text → Bool) (s t : Text)
      → Takes is_word r s t
      → k t ≡ true
      → match_then is_word r k s ≡ true
  unfolding match_then
  match_then_complete _ k _ _ by_nothing h = h
  match_then_complete _ k _ _ (by_end e) h = rw e h
  match_then_complete _ k _ _ (by_item pc) h = rw pc h
  match_then_complete _ k _ _ (by_none {p} {s}) h = many_then_now p k s h
  match_then_complete _ k _ _ (by_more {p} {c} {cs} {t} pc m) h =
      (or_iff (k (c ∷ cs)) _).1
        (inr ((and_iff (p c) _).1 (pc, match_then_complete (many p) k cs t m h)))
  match_then_complete _ k _ _ (by_then {a} {b} {s} {t} {u} m n) h =
      match_then_complete a (match_then is_word b k) s t m (match_then_complete b k t u n h)
  match_then_complete _ k _ _ (by_left {a} {b} {s} {t} m) h =
      (or_iff (match_then is_word a k s) _).1 (inl (match_then_complete a k s t m h))
  match_then_complete _ k _ _ (by_right {a} {b} {s} {t} m) h =
      (or_iff (match_then is_word a k s) _).1 (inr (match_then_complete b k s t m h))

  at_front :
      (r : Pattern) (s : Text)
      → (match_then is_word r (λ rest. true) s ≡ true) ↔ ((t : Text) × Takes is_word r s t)
  at_front r s = (
    λ h. let (t, m, after) = match_then_sound r (λ rest. true) s h in (t, m),
    λ h. match_then_complete r (λ rest. true) s h.0 h.1 refl,
  )

  here_or_later :
      (r : Pattern) (c : ℕ) (cs : Text)
      → Occurs is_word r (c ∷ cs)
      → ((t : Text) × Takes is_word r (c ∷ cs) t) ⊎ Occurs is_word r cs
  here_or_later r c cs ([], rest, after, e, m) = inl (after, rw e at m)
  here_or_later r c cs (b ∷ before, rest, after, e, m) = inr (before, rest, after, cc, m)

  -- The search answers true exactly when the text has a part, from some place on, that the pattern
  -- takes.
  pub search_iff : (r : Pattern) (s : Text) → (search is_word r s ≡ true) ↔ Occurs is_word r s
  unfolding search
  search_iff r [] = (
    λ h. let (t, m) = (at_front r []).0 h in ([], [], t, refl, m),
    λ h. (at_front r []).1 (empty h),
  )
    where
      empty : Occurs is_word r [] → (t : Text) × Takes is_word r [] t
      empty ([], rest, after, e, m) = (after, rw e at m)
      empty (c ∷ cs, rest, after, e, m) = cc
  search_iff r (c ∷ cs) =
      let ih = search_iff r cs in
      let split = or_iff (match_then is_word r (λ rest. true) (c ∷ cs)) (search is_word r cs) in
      (
        λ h. elim (split.0 h) [
          | inl now ↦ let (t, m) = (at_front r (c ∷ cs)).0 now in ([], c ∷ cs, t, refl, m)
          | inr later ↦
              let (before, rest, after, e, m) = ih.0 later in
              (c ∷ before, rest, after, ap (λ l. c ∷ l) e, m)
        ],
        λ o. elim (here_or_later r c cs o) [
          | inl now ↦ split.1 (inl ((at_front r (c ∷ cs)).1 now))
          | inr later ↦ split.1 (inr (ih.1 later))
        ],
      )
