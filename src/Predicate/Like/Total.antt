-- ===== src/Predicate/Like/Total.antt =====
-- The matcher's loop always ends within its fuel.
use electric_circuits.Prelude.{
  ℕ, zero, suc, ◌+◌, ◌*◌, ◌≤◌, ◌<◌, ◌≡◌, refl, Bool, true, false, Option, none, some, [], ◌∷◌,
  arith, length, ◌==◌, nat_ord, if◌then◌else◌,
}
use electric_circuits.Value.{Text}
use electric_circuits.Predicate.Like.{percent, literal_match, like_fuel, like_match}
use electric_circuits.Predicate.Like.Scan.{Star, tail_of, scan, all_percent, like_loop-scan}

-- The rounds that are left, for a width `w` above the length of the pattern.
abbrev pub Fits : ℕ → ℕ → Star → Text → Text → Type 0
Fits w n none t p = (length t * w + length p < n) × (length p + 2 ≤ w)
Fits w n (some (ps, ts)) t p =
    (length ts * w + length p < n)
    × (length p + 2 ≤ w)
    × (length ps + 2 ≤ w)
    × (length t ≤ length ts)

pub Fits-advance :
    (w n : ℕ) (star : Star) (c q : ℕ) (t p : Text)
    → Fits w (suc n) star (c ∷ t) (q ∷ p)
    → Fits w n star t p
Fits-advance w n none c q t p h = omega arith
Fits-advance w n (some (ps, ts)) c q t p h = omega arith

pub Fits-open :
    (w n : ℕ) (star : Star) (c q : ℕ) (t p : Text)
    → Fits w (suc n) star (c ∷ t) (q ∷ p)
    → Fits w n (some (p, c ∷ t)) (c ∷ t) p
Fits-open w n none c q t p h = omega arith
Fits-open w n (some (ps, ts)) c q t p h = grind arith

pub Fits-backtrack :
    (w n : ℕ) (ps ts : Text) (c : ℕ) (t p : Text)
    → Fits w (suc n) (some (ps, ts)) (c ∷ t) p
    → Fits w n (some (ps, tail_of ts)) (tail_of ts) ps
Fits-backtrack w n ps [] c t p h = absurd (omega arith)
Fits-backtrack w n ps (d ∷ ts) c t p h = omega arith

abbrev Answers : Option Bool → Type 0
Answers r = (b : Bool) × (r ≡ some b)

Answers-if : (b : Bool) {x y : Option Bool} → Answers x → Answers y → Answers (if b then x else y)
Answers-if true hx hy = hx
Answers-if false hx hy = hy

scan_total : (w n : ℕ) (t p : Text) (star : Star) → Fits w n star t p → Answers (scan n t p star)
unfolding scan
scan_total w zero t p none h = absurd (omega arith)
scan_total w zero t p (some (ps, ts)) h = absurd (omega arith)
scan_total w (suc n) [] p star h = (all_percent p, refl)
scan_total w (suc n) (c ∷ t) [] none h = (false, refl)
scan_total w (suc n) (c ∷ t) [] (some (ps, ts)) h =
    scan_total w n (tail_of ts) ps (some (ps, tail_of ts)) (Fits-backtrack w n ps ts c t [] h)
scan_total w (suc n) (c ∷ t) (q ∷ p) none h =
    Answers-if (literal_match q c) (scan_total w n t p none (Fits-advance w n none c q t p h)) (
      Answers-if (q == percent)
        (scan_total w n (c ∷ t) p (some (p, c ∷ t)) (Fits-open w n none c q t p h)) (false, refl))
scan_total w (suc n) (c ∷ t) (q ∷ p) (some (ps, ts)) h =
    let star : Star = some (ps, ts) in
    Answers-if (literal_match q c) (scan_total w n t p star (Fits-advance w n star c q t p h)) (
      Answers-if (q == percent)
        (scan_total w n (c ∷ t) p (some (p, c ∷ t)) (Fits-open w n star c q t p h))
        (scan_total w n (tail_of ts) ps (some (ps, tail_of ts))
          (Fits-backtrack w n ps ts c t (q ∷ p) h)))

pub like_fuel-Fits : (t p : Text) → Fits (length p + 2) (like_fuel t p) none t p
like_fuel-Fits t p = omega arith

-- The matcher ends with an answer on every text and pattern.
pub like_match-total : (t p : Text) → (b : Bool) × (like_match t p ≡ some b)
unfolding like_match
like_match-total t p =
    rw (like_loop-scan (like_fuel t p) t p 0 0 none 0)
      (scan_total (length p + 2) (like_fuel t p) t p none (like_fuel-Fits t p))
