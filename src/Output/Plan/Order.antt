-- ===== src/Output/Plan/Order.antt =====
-- crates/around-engine/src/output_plan.rs: `compare_plan` is a total order up to equal keys.
use around.Base.Compare.{
  IsCompare, compare-IsCompare, lex-IsCompare, reverse-IsCompare, on-IsCompare,
}
use around.Base.Int.{compare_ℤ-IsCompare}
use around.Base.Text.{compare_text-IsCompare}
use around.Output.Loss.{total, from_bool}
use around.Output.Plan.{compare_plan}

-- The comparison of plans is a total order up to equal keys: it is antisymmetric, its `Less` is
-- transitive, and plans that compare as equal compare alike with any other.
pub compare_plan-IsCompare : IsCompare compare_plan
unfolding compare_plan
compare_plan-IsCompare = lex-IsCompare (on-IsCompare (λ p. p.preference_index) compare-IsCompare) (
    lex-IsCompare (reverse-IsCompare (on-IsCompare (λ p. p.device_priority) compare_ℤ-IsCompare)) (
      lex-IsCompare (on-IsCompare (λ p. total p.conversion_loss) compare-IsCompare) (
        lex-IsCompare (reverse-IsCompare (on-IsCompare (λ p. p.quality_rank) compare-IsCompare)) (
          lex-IsCompare
            (reverse-IsCompare (on-IsCompare (λ p. from_bool p.is_default) compare-IsCompare))
            (lex-IsCompare
              (reverse-IsCompare (on-IsCompare (λ p. p.target_spec.sample_rate) compare-IsCompare))
              (lex-IsCompare (on-IsCompare (λ p. p.device_id) compare_text-IsCompare)
                (on-IsCompare (λ p. p.mode_id) compare-IsCompare)))))))
