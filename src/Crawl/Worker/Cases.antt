-- ===== src/Crawl/Worker/Cases.antt =====
-- Predicates on what the worker's `switch`es return.
use league_of_legends.Prelude.{◌≡◌, refl, Bool, true, false, String, if◌then◌else◌}
use league_of_legends.Crawl.Worker.{
  World, Provenance, summary, no_summary, unreadable, Outcome, held, settled, failed,
}

-- The cases of the worker's `switch`es, at a predicate on what is returned.
pub provenance_both {ℓ} :
    {B : Type ℓ} (P : B → Type 0) (p : Provenance) {x y : B} {f : String → B}
    → P x
    → P y
    → ((c : String) → P (f c))
    → P (elim p [ summary ↦ x | no_summary ↦ y | unreadable c ↦ f c ])
provenance_both P summary p q r = p
provenance_both P no_summary p q r = q
provenance_both P (unreadable c) p q r = r c

pub outcome_both {ℓ} :
    {B : Type ℓ} (P : B → Type 0) (o : Outcome) {x y z : B}
    → P x
    → P y
    → P z
    → P (elim o [ held ↦ x | settled ↦ y | failed ↦ z ])
outcome_both P held p q r = p
outcome_both P settled p q r = q
outcome_both P failed p q r = r

-- The three ends of `retain_match`.
pub retain_ends :
    (P : World × Outcome → Type 0) (written upserted : Bool)
    (stays fails given_up : World × Outcome)
    → (written ≡ true → P stays)
    → P fails
    → P given_up
    → P (if written then (if upserted then stays else fails) else given_up)
retain_ends P true true stays fails given_up p q r = p refl
retain_ends P true false stays fails given_up p q r = q
retain_ends P false upserted stays fails given_up p q r = r
