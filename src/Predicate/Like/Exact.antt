-- ===== src/Predicate/Like/Exact.antt =====
-- The matcher of apps/engine/src/predicate.rs against the meaning of LIKE.
use electric_circuits.Prelude.{
  ℕ, zero, suc, ◌+◌, ◌*◌, ◌≡◌, refl, ap, sym, subst, ◌∙◌, Bool, true, false, ◌||◌, Option, none,
  some, [], ◌∷◌, ◌++◌, arith, length, length-append, drop, drop-past-append, All-append, ◌==◌,
  ==_iff, nat_ord, if◌then◌else◌, Bool-cases, inl, inr,
}
use mathlib.Core.List.{append_assoc}
use electric_circuits.Value.{Text}
use electric_circuits.Predicate.Like.{percent, literal_match, like_fuel, like_match}
use electric_circuits.Predicate.Like.Reference.{
  some_rest, like_ref, NoPercent, need, need-append, some_rest_like-need, some_rest-drop,
  drop-some_rest, like_ref-prefix, like_ref-percent,
}
use electric_circuits.Predicate.Like.Scan.{Star, tail_of, scan, all_percent, like_loop-scan}
use electric_circuits.Predicate.Like.Total.{
  Fits, Fits-advance, Fits-open, Fits-backtrack, like_fuel-Fits,
}

-- The matches that are left to try: a longer piece of the text for the last `%`.
retry : Star → Bool
retry none = false
retry (some (ps, [])) = false
retry (some (ps, c ∷ ts)) = some_rest (like_ref ps) ts

-- Since the last `%`, as many characters were read as the pattern moved, none of it a `%`.
record Since (ps ts p t : Text) : Type 0 where
  moved : Text
  read : Text
  pattern_at : ps ≡ moved ++ p
  text_at : ts ≡ read ++ t
  same_length : length moved ≡ length read
  plain : NoPercent moved

abbrev Tracks : Star → Text → Text → Type 0
Tracks none t p = Unit
Tracks (some (ps, ts)) t p = Since ps ts p t × NoPercent ts

all_percent-like_ref : (p : Text) → all_percent p ≡ like_ref p []
unfolding scan like_ref
all_percent-like_ref [] = refl
all_percent-like_ref (q ∷ p) = ground (arith, all_percent-like_ref p)

some_rest-retry :
    (ps ts : Text) → some_rest (like_ref ps) ts ≡ (like_ref ps ts || retry (some (ps, ts)))
unfolding like_ref retry
some_rest-retry ps [] = ground arith
some_rest-retry ps (c ∷ ts) = ground arith

-- At the end of the text a longer piece for the last `%` leaves too few characters.
retry-end : (star : Star) (p : Text) → Tracks star [] p → retry star ≡ false
unfolding retry
retry-end none p h = refl
retry-end (some (ps, [])) p h = refl
retry-end (some (ps, c ∷ ts)) p h = elim (Bool-cases (some_rest (like_ref ps) ts)) [
  | inl e ↦
      let s = h.0 in
      absurd (
        omega (
          arith,
          some_rest_like-need ps ts e,
          ap need s.pattern_at,
          need-append s.moved p s.plain,
          s.same_length,
          ap length s.text_at,
          length-append s.read [],
        ))
  | inr e ↦ e
]

pieces :
    {ps : Text} {c : ℕ} {ts p t : Text} (s : Since ps (c ∷ ts) p t) (i k : ℕ)
    → drop k (drop (length s.moved) (drop i ts)) ≡ drop (suc i + k) t
pieces {ts = ts} {t = t} s i k =
    subst (λ m. drop k (drop m (drop i ts)) ≡ drop (suc i + k) t) (sym s.same_length)
      (subst (λ x. drop k (drop (length s.read) (drop (suc i) x)) ≡ drop (suc i + k) t)
        (sym s.text_at) (drop-past-append s.read t (suc i) k))

-- A later `%` makes the pieces for the earlier one superfluous.
retry-superseded :
    (ps ts p t : Text) (q : ℕ)
    → Since ps ts (q ∷ p) t
    → q ≡ percent
    → retry (some (ps, ts)) ≡ true
    → some_rest (like_ref p) t ≡ true
unfolding retry
retry-superseded ps [] p t q s e h = cc
retry-superseded ps (c ∷ ts) p t q s e h =
    let (i, r) = some_rest-drop (like_ref ps) ts h in
    let (k, r') = some_rest-drop (like_ref p) (drop (length s.moved) (drop i ts)) (
      subst (λ b. b ≡ true) (like_ref-percent q p (drop (length s.moved) (drop i ts)) e)
        (like_ref-prefix s.moved (q ∷ p) (drop i ts) s.plain
          (subst (λ x. like_ref x (drop i ts) ≡ true) s.pattern_at r))) in
    drop-some_rest (like_ref p) t (suc i + k) (subst (λ x. like_ref p x ≡ true) (pieces s i k) r')

Since-start : (ps ts : Text) → Since ps ts ps ts
Since-start ps ts = record {
  moved = [];
  read = [];
  pattern_at = refl;
  text_at = refl;
  same_length = refl;
  plain = tt;
}

Since-advance :
    {ps ts p t : Text} {q c : ℕ}
    → Since ps ts (q ∷ p) (c ∷ t)
    → (q == percent) ≡ false
    → Since ps ts p t
Since-advance {p = p} {t = t} {q = q} {c = c} s e = record {
  moved = s.moved ++ q ∷ [];
  read = s.read ++ c ∷ [];
  pattern_at = s.pattern_at ∙ sym (append_assoc s.moved (q ∷ []) p);
  text_at = s.text_at ∙ sym (append_assoc s.read (c ∷ []) t);
  same_length =
      omega (arith, s.same_length, length-append s.moved (q ∷ []), length-append s.read (c ∷ []));
  plain = All-append (λ c. (c == percent) ≡ false) s.moved (q ∷ []) s.plain (e, tt);
}

literal-plain :
    (q c : ℕ) → (c == percent) ≡ false → literal_match q c ≡ true → (q == percent) ≡ false
literal-plain q c h m = ground arith

like_ref-literal :
    (q c : ℕ) (p t : Text)
    → (c == percent) ≡ false
    → literal_match q c ≡ true
    → like_ref (q ∷ p) (c ∷ t) ≡ like_ref p t
unfolding like_ref
like_ref-literal q c p t h m = rw (literal-plain q c h m, m) refl

like_ref-mismatch :
    (q c : ℕ) (p t : Text)
    → literal_match q c ≡ false
    → (q == percent) ≡ false
    → like_ref (q ∷ p) (c ∷ t) ≡ false
unfolding like_ref
like_ref-mismatch q c p t m e = rw (e, m) refl

like_ref-open :
    (q c : ℕ) (p t : Text)
    → (q == percent) ≡ true
    → like_ref (q ∷ p) (c ∷ t) ≡ (like_ref p (c ∷ t) || retry (some (p, c ∷ t)))
unfolding like_ref
like_ref-open q c p t e = rw e (some_rest-retry p (c ∷ t))

NoPercent-tail : (ts : Text) → NoPercent ts → NoPercent (tail_of ts)
NoPercent-tail [] h = tt
NoPercent-tail (c ∷ ts) h = h.1

-- What a backtrack computes, from what the loop computes after it.
after_backtrack :
    {ps ts p t : Text} {c : ℕ} {r : Option Bool}
    → Since ps ts p (c ∷ t)
    → r ≡ some (like_ref ps (tail_of ts) || retry (some (ps, tail_of ts)))
    → r ≡ some (retry (some (ps, ts)))
unfolding retry
after_backtrack {ts = []} {t = t} {c = c} s e =
    absurd (omega (arith, ap length s.text_at, length-append s.read (c ∷ t)))
after_backtrack {ps = ps} {ts = d ∷ ts} s e = e ∙ ap some (sym (some_rest-retry ps ts))

or-false : (b : Bool) → (b || false) ≡ b
or-false b = ground arith

backtrack-Tracks : (ps ts : Text) → NoPercent ts → Tracks (some (ps, tail_of ts)) (tail_of ts) ps
backtrack-Tracks ps ts np = (Since-start ps (tail_of ts), NoPercent-tail ts np)

-- One round that reads a character, from what the loop computes after each branch.
round :
    (q c : ℕ) (p t : Text) (star : Star) {advance open_star backtrack : Option Bool}
    → (c == percent) ≡ false
    → (literal_match q c ≡ true → advance ≡ some (like_ref p t || retry star))
    → ((q == percent) ≡ true → open_star ≡ some (like_ref (q ∷ p) (c ∷ t) || retry star))
    → backtrack ≡ some (retry star)
    → (if literal_match q c then advance else if q == percent then open_star else backtrack)
      ≡ some (like_ref (q ∷ p) (c ∷ t) || retry star)
round q c p t star np adv opn back = elim (Bool-cases (literal_match q c)) [
  | inl m ↦ rw m (adv m ∙ ap (λ b. some (b || retry star)) (sym (like_ref-literal q c p t np m)))
  | inr m ↦ elim (Bool-cases (q == percent)) [
    | inl e ↦ rw (m, e) (opn e)
    | inr e ↦
        rw (m, e) (back ∙ ap (λ b. some (b || retry star)) (sym (like_ref-mismatch q c p t m e)))
  ]
]

or-absorbs : (a b : Bool) → (b ≡ true → a ≡ true) → a ≡ (a || b)
or-absorbs true b h = refl
or-absorbs false true h = h refl
or-absorbs false false h = refl

open-exact :
    (q c : ℕ) (p t : Text) (star : Star) {r : Option Bool}
    → (retry star ≡ true → some_rest (like_ref p) (c ∷ t) ≡ true)
    → (q == percent) ≡ true
    → r ≡ some (like_ref p (c ∷ t) || retry (some (p, c ∷ t)))
    → r ≡ some (like_ref (q ∷ p) (c ∷ t) || retry star)
open-exact q c p t star sup e ih =
    ih
    ∙ ap some (
        sym (like_ref-open q c p t e)
        ∙ or-absorbs (like_ref (q ∷ p) (c ∷ t)) (retry star)
            (λ h. like_ref-percent q p (c ∷ t) ((==_iff q percent).0 e) ∙ sup h))

like_ref-end : (c : ℕ) (t : Text) (b : Bool) → some b ≡ some (like_ref [] (c ∷ t) || b)
unfolding like_ref
like_ref-end c t b = refl

-- The loop finds a match of what is left, or one for a longer piece for the last `%`.
scan-exact :
    (w n : ℕ) (t p : Text) (star : Star)
    → NoPercent t
    → Tracks star t p
    → Fits w n star t p
    → scan n t p star ≡ some (like_ref p t || retry star)
unfolding scan
scan-exact w zero t p none np tr h = absurd (omega arith)
scan-exact w zero t p (some (ps, ts)) np tr h = absurd (omega arith)
scan-exact w (suc n) [] p star np tr h =
    rw (retry-end star p tr, all_percent-like_ref p) (ap some (sym (or-false (like_ref p []))))
scan-exact w (suc n) (c ∷ t) [] none np tr h = unfold like_ref retry in refl
scan-exact w (suc n) (c ∷ t) [] (some (ps, ts)) np tr h =
    after_backtrack tr.0 (
      scan-exact w n (tail_of ts) ps (some (ps, tail_of ts)) (NoPercent-tail ts tr.1)
        (backtrack-Tracks ps ts tr.1) (Fits-backtrack w n ps ts c t [] h))
    ∙ like_ref-end c t (retry (some (ps, ts)))
scan-exact w (suc n) (c ∷ t) (q ∷ p) none np tr h =
    round q c p t none np.0 (λ m. scan-exact w n t p none np.1 tt (Fits-advance w n none c q t p h))
      (λ e.
        open-exact q c p t none (λ r. unfold retry in cc) e
          (scan-exact w n (c ∷ t) p (some (p, c ∷ t)) np (Since-start p (c ∷ t), np)
            (Fits-open w n none c q t p h)))
      (unfold retry in refl)
scan-exact w (suc n) (c ∷ t) (q ∷ p) (some (ps, ts)) np tr h =
    let star : Star = some (ps, ts) in
    round q c p t star np.0
      (λ m.
        scan-exact w n t p star np.1 (Since-advance tr.0 (literal-plain q c np.0 m), tr.1)
          (Fits-advance w n star c q t p h))
      (λ e.
        open-exact q c p t star
          (λ r. retry-superseded ps ts p (c ∷ t) q tr.0 ((==_iff q percent).0 e) r) e
          (scan-exact w n (c ∷ t) p (some (p, c ∷ t)) np (Since-start p (c ∷ t), np)
            (Fits-open w n star c q t p h)))
      (after_backtrack tr.0 (
        scan-exact w n (tail_of ts) ps (some (ps, tail_of ts)) (NoPercent-tail ts tr.1)
          (backtrack-Tracks ps ts tr.1) (Fits-backtrack w n ps ts c t (q ∷ p) h)))

-- On a text without the character `%` the matcher's loop ends and decides SQL's LIKE.
pub like_match-exact : (t p : Text) → NoPercent t → like_match t p ≡ some (like_ref p t)
unfolding like_match retry
like_match-exact t p np =
    like_loop-scan (like_fuel t p) t p 0 0 none 0
    ∙ scan-exact (length p + 2) (like_fuel t p) t p none np tt (like_fuel-Fits t p)
    ∙ ap some (or-false (like_ref p t))

fuel_of : (t : Text) → suc (suc (length t * 3 + 8)) ≡ suc (suc (suc (suc (length t))) * 3)
fuel_of t = omega arith

scan-percent :
    (n : ℕ) (c : ℕ) (t : Text)
    → scan (suc (suc n)) (percent ∷ c ∷ t) (percent ∷ []) none ≡ some false
unfolding scan
scan-percent n c t = refl

some_rest_all : (t : Text) → some_rest (like_ref []) t ≡ true
unfolding like_ref
some_rest_all [] = refl
some_rest_all (c ∷ t) = some_rest_all t

-- A text of two or more characters that begins with `%` does not match the pattern `%`, though
-- LIKE matches every text with it.
pub like_match-percent_text :
    (c : ℕ) (t : Text)
    → (like_match (percent ∷ c ∷ t) (percent ∷ []) ≡ some false)
      × (like_ref (percent ∷ []) (percent ∷ c ∷ t) ≡ true)
unfolding like_match like_ref
like_match-percent_text c t = (
  like_loop-scan (like_fuel (percent ∷ c ∷ t) (percent ∷ [])) (percent ∷ c ∷ t) (percent ∷ []) 0 0
        none 0
      ∙ subst (λ n. scan n (percent ∷ c ∷ t) (percent ∷ []) none ≡ some false)
          (omega (arith, fuel_of t)) (scan-percent (length t * 3 + 8) c t),
  some_rest_all (c ∷ t),
)
