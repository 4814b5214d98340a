-- ===== src/Access/Entitlements/Ranks.antt =====
-- The order of the plans.
use mytrackr_backend.Prelude.{◌≤◌, ◌≡◌, true, Option, none, some, String, arith}
use mytrackr_backend.Payments.Entities.{Plan}
use mytrackr_backend.Access.Entitlements.{
  PlanSlug, plan_rank, plan_has_access, normalize_plan_slug, normalize_required_plan, outranks,
}

outranks_mono :
    (active : Option PlanSlug) (a b : PlanSlug)
    → plan_rank b ≤ plan_rank a
    → outranks active (some a) ≡ true
    → outranks active (some b) ≡ true
outranks_mono none a b h k = k
outranks_mono (some x) a b h k = ground arith

-- A plan that gives access to what a known plan requires also gives access to what any other known
-- plan of the same or of a lower rank requires.
pub plan_has_access_mono :
    (active : Option Plan) (required other : String) (a b : PlanSlug)
    → normalize_required_plan required ≡ some a
    → normalize_required_plan other ≡ some b
    → plan_rank b ≤ plan_rank a
    → plan_has_access active required ≡ true
    → plan_has_access active other ≡ true
unfolding plan_has_access
plan_has_access_mono active required other a b ea eb h access =
    rw eb (outranks_mono (normalize_plan_slug active) a b h (rw ea at access))
