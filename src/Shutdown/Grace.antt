-- ===== src/Shutdown/Grace.antt =====
-- apps/engine/src/shutdown.rs: the grace period and the readiness window from the environment. The
-- argument is what the getter gives for the variable; the result is in seconds, `none` an error.
use electric_circuits.Prelude.{
  ℕ, zero, suc, ◌<◌, ◌≡◌, refl, sym, subst, ◌∙◌, Bool, true, false, ◌&&◌, ◌||◌, Option, none, some,
  [], ◌∷◌, ◌++◌, arith, leb, ◌==◌, nat_ord, if◌then◌else◌, All, some_inj, some_none,
}
use electric_circuits.Value.{Text}
use electric_circuits.Value.Decimal.{parse_u64}

-- The code points of the property White_Space.
abbrev pub is_whitespace : ℕ → Bool
is_whitespace c =
    (leb 9 c && leb c 13)
    || (c == 32)
    || (c == 133)
    || (c == 160)
    || (c == 5760)
    || (leb 8192 c && leb c 8202)
    || (c == 8232)
    || (c == 8233)
    || (c == 8239)
    || (c == 8287)
    || (c == 12288)

unfoldable pub trim_start : Text → Text
trim_start [] = []
trim_start (c ∷ cs) = let rest = trim_start cs in if is_whitespace c then rest else c ∷ cs

unfoldable pub reverse : Text → Text
reverse [] = []
reverse (c ∷ cs) = reverse cs ++ c ∷ []

abbrev pub trim : Text → Text
trim s = reverse (trim_start (reverse (trim_start s)))

abbrev pub parse_or : ℕ → Text → Option ℕ
parse_or default [] = some default
parse_or default (c ∷ cs) = parse_u64 (c ∷ cs)

abbrev pub secs_var : Option Text → ℕ → Option ℕ
secs_var none default = some default
secs_var (some raw) default = parse_or default (trim raw)

abbrev pub default_grace : ℕ
default_grace = 25

abbrev pub default_ready_drain : ℕ
default_ready_drain = 2

abbrev pub nonzero : Option ℕ → Option ℕ
nonzero none = none
nonzero (some secs) = if secs == 0 then none else some secs

unfoldable pub resolve_grace : Option Text → Option ℕ
resolve_grace raw = nonzero (secs_var raw default_grace)

unfoldable pub resolve_ready_drain : Option Text → Option ℕ
resolve_ready_drain raw = secs_var raw default_ready_drain

abbrev pub Blank : Text → Type 0
Blank s = All (λ c. is_whitespace c ≡ true) s

trim_start-Blank : (s : Text) → Blank s → trim_start s ≡ []
unfolding trim_start
trim_start-Blank [] h = refl
trim_start-Blank (c ∷ cs) h = rw h.0 (trim_start-Blank cs h.1)

secs_var-Blank : (s : Text) (default : ℕ) → Blank s → secs_var (some s) default ≡ some default
unfolding reverse trim_start
secs_var-Blank s default h = rw (trim_start-Blank s h) refl

zero_test : (n : ℕ) → 0 < n → (n == 0) ≡ false
zero_test n h = ground arith

nonzero_set : (n : ℕ) → 0 < n → nonzero (some n) ≡ some n
nonzero_set n h = rw (zero_test n h) refl

nonzero_positive : (o : Option ℕ) (secs : ℕ) → nonzero o ≡ some secs → 0 < secs
nonzero_positive none secs h = elim (some_none (sym h)) [ ]
nonzero_positive (some zero) secs h = elim (some_none (sym h)) [ ]
nonzero_positive (some (suc n)) secs h =
    subst (λ x. 0 < x) (some_inj (sym (nonzero_set (suc n) (omega arith)) ∙ h)) (omega arith)

-- A blank value of the environment is taken for an unset one, in both windows, and a grace period
-- that is resolved, from whatever value, is not zero.
pub resolve_grace-positive :
    (blank : Text) (raw : Option Text) (secs : ℕ)
    → Blank blank
    → resolve_grace raw ≡ some secs
    → (resolve_grace (some blank) ≡ resolve_grace none)
      × (resolve_ready_drain (some blank) ≡ resolve_ready_drain none)
      × (0 < secs)
unfolding resolve_grace resolve_ready_drain
resolve_grace-positive blank raw secs h e = (
  rw (secs_var-Blank blank default_grace h) refl,
  secs_var-Blank blank default_ready_drain h,
  nonzero_positive (secs_var raw default_grace) secs e,
)
