-- ===== src/Routing/Listed.antt =====
-- The posting lists of apps/engine/src/engine/executors.rs, `StandaloneIndex`: what a push, a `retain`
-- and an `extend` keep of the shapes that are listed.
use electric_circuits.Prelude.{
  ◌≡◌, refl, ◌∙◌, Bool, true, false, ◌&&◌, Option, none, some, List, [], ◌∷◌, ◌++◌, arith, ◌==◌,
  ==_iff, nat_ord, list_ord, bool_ord, if◌then◌else◌, member, add, member-add, member-snoc, ◌>>=◌,
}
use electric_circuits.Value.{Text, value_ord}
use electric_circuits.Routing.Postings.{is_empty, or_default, kept}
use electric_circuits.Routing.Scan.{Monotone}
use electric_circuits.Routing.Standalone.{
  PostedBound, extend, reached, extend_bound, retain, retain_bound,
}

abbrev pub listed : Text → Option (List Text) → Bool
listed sid none = false
listed sid (some sids) = member sid sids

abbrev pub has_bound : Text → Bool → List PostedBound → Bool
has_bound sid strict [] = false
has_bound sid strict ((s, t) ∷ sids) =
    let rest = has_bound sid strict sids in if (s == sid) && (t == strict) then true else rest

abbrev pub listed_bound : Text → Bool → Option (List PostedBound) → Bool
listed_bound sid strict none = false
listed_bound sid strict (some sids) = has_bound sid strict sids

-- Filing a shape keeps what is listed, and lists the shape.
pub listed-snoc :
    (sid new : Text) (o : Option (List Text))
    → listed sid o ≡ true
    → listed sid (some (or_default [] o ++ new ∷ [])) ≡ true
listed-snoc sid new none h = cc
listed-snoc sid new (some sids) h = member-snoc sid new sids ∙ ground arith

pub has_bound-snoc :
    (sid new : Text) (strict t : Bool) (sids : List PostedBound)
    → has_bound sid strict (sids ++ (new, t) ∷ [])
      ≡ (if has_bound sid strict sids then true else (new == sid) && (t == strict))
has_bound-snoc sid new strict t [] = ground arith
has_bound-snoc sid new strict t ((s, u) ∷ sids) =
    ground (arith, has_bound-snoc sid new strict t sids)

pub listed_bound-snoc :
    (sid new : Text) (strict t : Bool) (o : Option (List PostedBound))
    → listed_bound sid strict o ≡ true
    → listed_bound sid strict (some (or_default [] o ++ (new, t) ∷ [])) ≡ true
listed_bound-snoc sid new strict t none h = cc
listed_bound-snoc sid new strict t (some sids) h =
    has_bound-snoc sid new strict t sids ∙ ground arith

-- Removing another shape keeps what is listed.
pub member-retain :
    (sid gone : Text) (sids : List Text)
    → (gone == sid) ≡ false
    → member sid (retain gone sids) ≡ member sid sids
unfolding member
member-retain sid gone [] h = refl
member-retain sid gone (s ∷ sids) h =
    ground (arith, member-retain sid gone sids, ==_iff s gone, ==_iff s sid, ==_iff gone sid)

pub has_bound-retain :
    (sid gone : Text) (strict : Bool) (sids : List PostedBound)
    → (gone == sid) ≡ false
    → has_bound sid strict (retain_bound gone sids) ≡ has_bound sid strict sids
has_bound-retain sid gone strict [] h = refl
has_bound-retain sid gone strict ((s, t) ∷ sids) h =
    ground
      (arith, has_bound-retain sid gone strict sids, ==_iff s gone, ==_iff s sid, ==_iff gone sid)

pub not_empty : (sid : Text) (sids : List Text) → member sid sids ≡ true → is_empty sids ≡ false
unfolding member
not_empty sid [] h = cc
not_empty sid (s ∷ sids) h = refl

pub has_bound-not_empty :
    (sid : Text) (strict : Bool) (sids : List PostedBound)
    → has_bound sid strict sids ≡ true
    → is_empty sids ≡ false
has_bound-not_empty sid strict [] h = cc
has_bound-not_empty sid strict (s ∷ sids) h = refl

pub listed-retain :
    (sid gone : Text) (o : Option (List Text))
    → (gone == sid) ≡ false
    → listed sid o ≡ true
    → listed sid (o >>= kept is_empty (retain gone)) ≡ true
listed-retain sid gone none other h = h
listed-retain sid gone (some sids) other h =
    let still = member-retain sid gone sids other ∙ h in
    rw (not_empty sid (retain gone sids) still) still

pub listed_bound-retain :
    (sid gone : Text) (strict : Bool) (o : Option (List PostedBound))
    → (gone == sid) ≡ false
    → listed_bound sid strict o ≡ true
    → listed_bound sid strict (o >>= kept is_empty (retain_bound gone)) ≡ true
listed_bound-retain sid gone strict none other h = h
listed_bound-retain sid gone strict (some sids) other h =
    let still = has_bound-retain sid gone strict sids other ∙ h in
    rw (has_bound-not_empty sid strict (retain_bound gone sids) still) still

-- The sets that the probe takes up.
pub member-extend :
    (sid : Text) (sids out : List Text)
    → member sid (extend sids out) ≡ (if member sid sids then true else member sid out)
unfolding member
member-extend sid [] out = refl
member-extend sid (s ∷ sids) out =
    ground (arith, member-extend sid sids (add s out), member-add s sid out)

pub member-reached :
    (sid : Text) (strict at : Bool) (sids : List PostedBound)
    → has_bound sid strict sids ≡ true
    → (at && strict) ≡ false
    → member sid (reached at sids) ≡ true
unfolding member
member-reached sid strict at [] h a = cc
member-reached sid strict at ((s, t) ∷ sids) h a =
    ground (arith, member-reached sid strict at sids, ==_iff t strict)

pub keeps_extend : (sid : Text) → Monotone (member sid) extend
keeps_extend sid sids out h = member-extend sid sids out ∙ ground arith

pub keeps_bound : (sid : Text) (at : Bool) → Monotone (member sid) (extend_bound at)
keeps_bound sid at sids out h = member-extend sid (reached at sids) out ∙ ground arith

pub listed-some :
    (sid : Text) (o : Option (List Text))
    → listed sid o ≡ true
    → (sids : List Text) × (o ≡ some sids) × (member sid sids ≡ true)
listed-some sid none h = cc
listed-some sid (some sids) h = (sids, refl, h)

pub listed_bound-some :
    (sid : Text) (strict : Bool) (o : Option (List PostedBound))
    → listed_bound sid strict o ≡ true
    → (sids : List PostedBound) × (o ≡ some sids) × (has_bound sid strict sids ≡ true)
listed_bound-some sid strict none h = cc
listed_bound-some sid strict (some sids) h = (sids, refl, h)
