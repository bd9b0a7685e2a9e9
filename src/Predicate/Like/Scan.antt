-- ===== src/Predicate/Like/Scan.antt =====
-- The matcher's loop of apps/engine/src/predicate.rs over the rests of the text and of the
-- pattern, in place of positions.
use electric_circuits.Prelude.{
  ℕ, zero, suc, ◌≤◌, ◌<◌, ◌≡◌, refl, Bool, true, false, Option, none, some, [], ◌∷◌, arith, length,
  drop, get_elem?-drop, ◌==◌, nat_ord, if◌then◌else◌, inl, inr,
}
use electric_circuits.Value.{Text}
use electric_circuits.Predicate.Like.{percent, literal_match, only_percents, like_loop}

unfoldable pub all_percent : Text → Bool
all_percent [] = true
all_percent (q ∷ p) = if q == percent then all_percent p else false

-- The pattern behind the last `%`, and the text from which it is being tried.
abbrev pub Star : Type 0
Star = Option (Text × Text)

abbrev pub tail_of : Text → Text
tail_of [] = []
tail_of (c ∷ t) = t

unfoldable pub scan : ℕ → Text → Text → Star → Option Bool
unfolding all_percent
scan zero t p star = none
scan (suc n) [] p star = some (all_percent p)
scan (suc n) (c ∷ t) p star =
    let backtrack : Option Bool = elim star [
      | none ↦ some false
      | some (ps, ts) ↦ scan n (tail_of ts) ps (some (ps, tail_of ts))
    ] in
    elim p [
      | [] ↦ backtrack
      | q ∷ p' ↦
          let advance = scan n t p' star in
          let open_star = scan n (c ∷ t) p' (some (p', c ∷ t)) in
          if literal_match q c then advance else if q == percent then open_star else backtrack
    ]

only_percents_lem :
    (p : Text) (fuel pi : ℕ)
    → length (drop pi p) < fuel
    → only_percents p fuel pi ≡ all_percent (drop pi p)
unfolding only_percents all_percent
only_percents_lem p zero pi h = elim h [ ]
only_percents_lem p (suc fuel) pi h = elim (get_elem?-drop p pi) [
  | inl (g, d) ↦ ground arith
  | inr (q, g, d) ↦ ground (arith, only_percents_lem p fuel (suc pi))
]

length-drop-le : (xs : Text) (n : ℕ) → length (drop n xs) ≤ length xs
length-drop-le xs zero = omega arith
length-drop-le [] (suc n) = omega arith
length-drop-le (x ∷ xs) (suc n) = omega (arith, length-drop-le xs n)

tail_of-drop : (xs : Text) (n : ℕ) → tail_of (drop n xs) ≡ drop (suc n) xs
tail_of-drop [] zero = refl
tail_of-drop [] (suc n) = refl
tail_of-drop (x ∷ xs) zero = refl
tail_of-drop (x ∷ xs) (suc n) = tail_of-drop xs n

abbrev star_of : Text → Text → Option ℕ → ℕ → Star
star_of t p none st = none
star_of t p (some sp) st = some (drop (suc sp) p, drop st t)

pub like_loop-scan :
    (n : ℕ) (t p : Text) (ti pi : ℕ) (sp : Option ℕ) (st : ℕ)
    → like_loop n t p ti pi sp st ≡ scan n (drop ti t) (drop pi p) (star_of t p sp st)
unfolding like_loop scan
like_loop-scan zero t p ti pi sp st = refl
like_loop-scan (suc n) t p ti pi none st = elim (get_elem?-drop t ti) [
  | inl (g, d) ↦ ground (arith, only_percents_lem p (suc (length p)) pi, length-drop-le p pi)
  | inr (c, g, d) ↦ elim (get_elem?-drop p pi) [
    | inl (g', d') ↦ ground arith
    | inr (q, g', d') ↦ ground (
      arith,
      like_loop-scan n t p (suc ti) (suc pi) none st,
      like_loop-scan n t p ti (suc pi) (some pi) ti,
    )
  ]
]
like_loop-scan (suc n) t p ti pi (some sp) st = elim (get_elem?-drop t ti) [
  | inl (g, d) ↦ ground (arith, only_percents_lem p (suc (length p)) pi, length-drop-le p pi)
  | inr (c, g, d) ↦ elim (get_elem?-drop p pi) [
    | inl (g', d') ↦
        ground (arith, tail_of-drop t st, like_loop-scan n t p (suc st) (suc sp) (some sp) (suc st))
    | inr (q, g', d') ↦ ground (
      arith,
      tail_of-drop t st,
      like_loop-scan n t p (suc ti) (suc pi) (some sp) st,
      like_loop-scan n t p ti (suc pi) (some pi) ti,
      like_loop-scan n t p (suc st) (suc sp) (some sp) (suc st),
    )
  ]
]
