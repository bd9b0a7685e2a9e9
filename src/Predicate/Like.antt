-- ===== src/Predicate/Like.antt =====
-- apps/engine/src/predicate.rs, `like_match`: the iterative SQL LIKE matcher, over the code points
-- of the text and of the pattern.
pub mod Reference
mod Scan
pub mod Total
pub mod Exact
use electric_circuits.Prelude.{
  ℕ, zero, suc, ◌+◌, ◌*◌, Bool, true, false, ◌||◌, Option, none, some, List, ◌==◌, length,
  get_elem?, if◌then◌else◌, nat_ord,
}
use electric_circuits.Value.{Text}

abbrev pub percent : ℕ
percent = b'%'

abbrev pub underscore : ℕ
underscore = b'_'

-- The test of the first branch: `p[pi] == '_' || p[pi] == t[ti]`.
abbrev pub literal_match : ℕ → ℕ → Bool
literal_match q c = if q == underscore then true else q == c

-- `while pi < p.len() && p[pi] == '%' { pi += 1; }  pi == p.len()`, on the pattern left at `pi`.
unfoldable pub only_percents : Text → ℕ → ℕ → Bool
only_percents p zero pi = false
only_percents p (suc fuel) pi = elim (get_elem? p pi) [
  | none ↦ true
  | some q ↦ let rest = only_percents p fuel (suc pi) in if q == percent then rest else false
]

-- The main loop over `ti`, `pi`, `star_p` and `star_t`; a read out of range is the end of the text
-- or of the pattern. `none`: the fuel ran out.
unfoldable pub like_loop : ℕ → Text → Text → ℕ → ℕ → Option ℕ → ℕ → Option Bool
like_loop zero t p ti pi star_p star_t = none
like_loop (suc fuel) t p ti pi star_p star_t =
    let advance = like_loop fuel t p (suc ti) (suc pi) star_p star_t in
    let open_star = like_loop fuel t p ti (suc pi) (some pi) ti in
    let backtrack : Option Bool = elim star_p [
      | none ↦ some false
      | some sp ↦ like_loop fuel t p (suc star_t) (suc sp) (some sp) (suc star_t)
    ] in
    elim (get_elem? t ti) [
      | none ↦ some (only_percents p (suc (length p)) pi)
      | some c ↦ elim (get_elem? p pi) [
        | none ↦ backtrack
        | some q ↦
            if literal_match q c then advance else if q == percent then open_star else backtrack
      ]
    ]

-- The rounds that the loop can take: each backtrack moves `star_t`, and between two of them `pi`
-- only grows.
abbrev pub like_fuel : Text → Text → ℕ
like_fuel t p = suc (suc (length t) * (length p + 2))

unfoldable pub like_match : Text → Text → Option Bool
unfolding like_loop only_percents
like_match t p = like_loop (like_fuel t p) t p 0 0 none 0
