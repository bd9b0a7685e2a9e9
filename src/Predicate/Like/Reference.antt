-- ===== src/Predicate/Like/Reference.antt =====
-- The meaning of SQL LIKE, by recursion on the pattern, and what it says of the rests of a text.
use electric_circuits.Prelude.{
  ℕ, zero, suc, ◌+◌, ◌≤◌, ◌≡◌, Bool, true, false, [], ◌∷◌, ◌++◌, arith, length, drop, drop-nil, All,
  ◌==◌, nat_ord, if◌then◌else◌, Bool-cases, inl, inr,
}
use electric_circuits.Value.{Text}
use electric_circuits.Predicate.Like.{percent, literal_match}

-- `f` holds of the text or of a rest of it.
unfoldable pub some_rest : (Text → Bool) → Text → Bool
some_rest f [] = f []
some_rest f (c ∷ t) = if f (c ∷ t) then true else some_rest f t

abbrev first_char : (ℕ → Bool) → (Text → Bool) → Text → Bool
first_char m f [] = false
first_char m f (c ∷ t) = if m c then f t else false

-- `%` stands for any sequence, `_` for one character, anything else for itself.
unfoldable pub like_ref : Text → Text → Bool
unfolding some_rest
like_ref [] [] = true
like_ref [] (c ∷ t) = false
like_ref (q ∷ p) t =
    let rest = like_ref p in
    if q == percent then some_rest rest t else first_char (literal_match q) rest t

abbrev pub NoPercent : Text → Type 0
NoPercent = All (λ c. (c == percent) ≡ false)

-- The characters that a match needs at least.
abbrev pub need : Text → ℕ
need [] = 0
need (q ∷ p) = if q == percent then need p else suc (need p)

pub need-append : (u p : Text) → NoPercent u → need (u ++ p) ≡ length u + need p
need-append [] p h = omega arith
need-append (q ∷ u) p h = ground (arith, need-append u p h.1)

some_rest-need :
    (f : Text → Bool) (n : ℕ) (t : Text)
    → ((s : Text) → f s ≡ true → n ≤ length s)
    → some_rest f t ≡ true
    → n ≤ length t
unfolding some_rest
some_rest-need f n [] h e = h [] e
some_rest-need f n (c ∷ t) h e = ground (arith, h (c ∷ t), some_rest-need f n t h)

first_char-need :
    (m : ℕ → Bool) (f : Text → Bool) (n : ℕ) (t : Text)
    → ((s : Text) → f s ≡ true → n ≤ length s)
    → first_char m f t ≡ true
    → suc n ≤ length t
first_char-need m f n [] h e = cc
first_char-need m f n (c ∷ t) h e = ground (arith, h t)

pub like_ref-need : (p t : Text) → like_ref p t ≡ true → need p ≤ length t
unfolding like_ref
like_ref-need [] t h = omega arith
like_ref-need (q ∷ p) t h = elim (Bool-cases (q == percent)) [
  | inl e ↦ rw e (some_rest-need (like_ref p) (need p) t (like_ref-need p) (rw e at h))
  | inr e ↦
      rw e (first_char-need (literal_match q) (like_ref p) (need p) t (like_ref-need p) (rw e at h))
]

pub some_rest_like-need : (p t : Text) → some_rest (like_ref p) t ≡ true → need p ≤ length t
some_rest_like-need p t h = some_rest-need (like_ref p) (need p) t (like_ref-need p) h

pub some_rest-drop :
    (f : Text → Bool) (t : Text) → some_rest f t ≡ true → (i : ℕ) × (f (drop i t) ≡ true)
unfolding some_rest
some_rest-drop f [] h = (0, h)
some_rest-drop f (c ∷ t) h = elim (Bool-cases (f (c ∷ t))) [
  | inl e ↦ (0, e)
  | inr e ↦ let (i, r) = some_rest-drop f t (rw e at h) in (suc i, r)
]

pub drop-some_rest :
    (f : Text → Bool) (t : Text) (i : ℕ) → f (drop i t) ≡ true → some_rest f t ≡ true
unfolding some_rest
drop-some_rest f [] i h = rw (drop-nil i) at h
drop-some_rest f (c ∷ t) zero h = rw h
drop-some_rest f (c ∷ t) (suc i) h = ground (arith, drop-some_rest f t i h)

-- A literal prefix of the pattern takes as many characters.
pub like_ref-prefix :
    (u w s : Text)
    → NoPercent u
    → like_ref (u ++ w) s ≡ true
    → like_ref w (drop (length u) s) ≡ true
unfolding like_ref
like_ref-prefix [] w s n h = h
like_ref-prefix (q ∷ u) w [] n h = absurd (ground arith)
like_ref-prefix (q ∷ u) w (c ∷ s) n h = like_ref-prefix u w s n.1 (ground arith)

pub like_ref-percent :
    (q : ℕ) (p t : Text) → q ≡ percent → like_ref (q ∷ p) t ≡ some_rest (like_ref p) t
unfolding like_ref
like_ref-percent q p t e = rw e
