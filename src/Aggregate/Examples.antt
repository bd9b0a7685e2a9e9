-- ===== src/Aggregate/Examples.antt =====
-- Concrete runs of the aggregates over quantities: 5 arrives, 3 arrives, 3 leaves, and a row without a
-- quantity arrives.
use electric_circuits.Prelude.{◌≡◌, ◌<◌, ◌^◌, refl, some, [], ◌∷◌, arith, if◌then◌else◌}
use electric_circuits.Value.{int, null, pos, negsuc}
use electric_circuits.Value.Arith.{◌+ℤ◌, ◌*ℤ◌, is_positive}
use electric_circuits.Value.Sample.{Float, half, float_ord, scalars}
use electric_circuits.Value.Order.{Transitive}
use electric_circuits.Predicate.Ast.{Fault, match_all}
use electric_circuits.Predicate.Eval.{matches_ctx, eval_ctx}
use electric_circuits.Output.Codec.{Delta}
use electric_circuits.Output.Standalone.{eval_standalone}
use electric_circuits.Aggregate.Fold.{FloatLib, AggFn, int_sum, apply, value, sum_json}
use electric_circuits.Aggregate.Weights.{total, mass, non_null}
use electric_circuits.Aggregate.Sum.{sum_of, sum_mass, ExactColumn}
use electric_circuits.Aggregate.Extremes.{Solvent}
use electric_circuits.Aggregate.Exact.{fresh, matched, IsAnswer, sum-exact, extreme-exact}

abbrev floats : FloatLib Float
floats = record { of_int = λ i. half; add = λ a b. half; mul = λ a b. half; div = λ a b. half }

float-Transitive : Transitive Float
float-Transitive a b c h k = ground arith

abbrev quantities : Delta Float
quantities =
    (int (pos 5) ∷ [], pos 1)
    ∷ (int (pos 3) ∷ [], pos 1)
    ∷ (int (pos 3) ∷ [], negsuc 0)
    ∷ (null ∷ [], pos 1)
    ∷ []

all_match : matched Fault.none scalars floats match_all quantities ≡ quantities
unfolding eval_standalone matches_ctx eval_ctx
all_match = refl

quantities-mass : mass (matched Fault.none scalars floats match_all quantities) < 2 ^ 63
unfolding mass
quantities-mass = rw all_match (omega arith)

few_quantities : mass (non_null 0 (matched Fault.none scalars floats match_all quantities)) < 2 ^ 63
unfolding mass
few_quantities = rw all_match (omega arith)

quantities-sum_mass : sum_mass 0 (matched Fault.none scalars floats match_all quantities) < 2 ^ 127
unfolding sum_mass ◌*ℤ◌
quantities-sum_mass = rw all_match (omega arith)

quantities-exact : ExactColumn 0 (matched Fault.none scalars floats match_all quantities)
quantities-exact = rw all_match (refl, (refl, (refl, (refl, tt))))

sum-exact_example :
    value scalars floats
      (apply Fault.none floats
        (fresh Fault.none scalars floats match_all AggFn.sum (some 0))
        quantities).1
    ≡ (if is_positive (total (non_null 0 (matched Fault.none scalars floats match_all quantities)))
        then sum_json scalars
            (int_sum (sum_of 0 (matched Fault.none scalars floats match_all quantities)))
        else scalars.of_null)
sum-exact_example =
    sum-exact Fault.none scalars floats match_all 0 quantities quantities-mass quantities-sum_mass
      quantities-exact

quantities-Solvent :
    Solvent 0 (λ u. pos 0) (non_null 0 (matched Fault.none scalars floats match_all quantities))
unfolding ◌+ℤ◌
quantities-Solvent = rw all_match (refl, (refl, (refl, tt)))

extreme-exact_example :
    IsAnswer Fault.none scalars floats match_all AggFn.min 0
      (matched Fault.none scalars floats match_all quantities)
      (value scalars floats
        (apply Fault.none floats
          (fresh Fault.none scalars floats match_all AggFn.min (some 0))
          quantities).1)
extreme-exact_example =
    extreme-exact Fault.none scalars floats match_all AggFn.min 0 quantities float-Transitive refl
      few_quantities quantities-Solvent
