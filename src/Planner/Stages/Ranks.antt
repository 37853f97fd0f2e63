-- ===== src/Planner/Stages/Ranks.antt =====
-- How late each capability of src/voodoo_skillset/dag.py can come, so that what it depends on comes
-- earlier.
use voodoo_skillset.Prelude.{
  ℕ, String, true, false, ◌≡◌, inl, inr, refl, ap, ◌∙◌, arith, ◌≤◌, ◌<◌, contains, str_eq, eq_iff,
  Bool-cases, if◌then◌else◌,
}
use voodoo_skillset.Planner.Stages.{dependency_rules, late_exclusions, is_late}

-- How late a capability can come.
pub rank : String → ℕ
rank x =
    if str_eq x "implementer"
    then 1
    else if str_eq x "test-engineer"
    then 2
    else if str_eq x "devops-reviewer"
    then 3
    else if str_eq x "red-team"
    then 4
    else if str_eq x "independent-verifier"
    then 5
    else if str_eq x "evidence-curator"
    then 5
    else 0

rank_of : (x t : String) (n : ℕ) → rank t ≡ n → str_eq x t ≡ true → rank x ≡ n
unfolding rank
rank_of x t n e h = ap rank ((eq_iff x t).0 h) ∙ e

pub rank_equal : (x y : String) → str_eq y x ≡ true → rank y ≡ rank x
rank_equal x y h = ap rank ((eq_iff y x).0 h)

pub rules_rank : (x d : String) → contains d (dependency_rules x) ≡ true → rank d < rank x
unfolding dependency_rules rank
rules_rank x d h = ground (
  arith,
  rank_of d "architect" 0 refl,
  rank_of d "repo-auditor" 0 refl,
  rank_of d "security-reviewer" 0 refl,
  rank_of d "reality-checker" 0 refl,
  rank_of d "implementer" 1 refl,
  rank_of d "test-engineer" 2 refl,
)

rank_last :
    (d : String)
    → str_eq d "independent-verifier" ≡ false
    → str_eq d "evidence-curator" ≡ false
    → rank d ≤ 4
unfolding rank
rank_last d f e = ground arith

rank_before_last :
    (d : String)
    → str_eq d "red-team" ≡ false
    → str_eq d "independent-verifier" ≡ false
    → str_eq d "evidence-curator" ≡ false
    → rank d ≤ 3
unfolding rank
rank_before_last d g f e = ground arith

red_team_rank :
    (x d : String)
    → str_eq x "red-team" ≡ true
    → contains d (late_exclusions x) ≡ false
    → rank d < rank x
unfolding late_exclusions rank
red_team_rank x d q e = omega (
  arith,
  rank_of x "red-team" 4 refl q,
  rank_before_last d (ground arith) (ground arith) (ground arith),
)

last_rank : (x : String) → is_late x ≡ true → str_eq x "red-team" ≡ false → rank x ≡ 5
unfolding rank
last_rank x h q = elim (Bool-cases (str_eq x "independent-verifier")) [
  | inl verifier ↦ rank_of x "independent-verifier" 5 refl verifier
  | inr other ↦ rank_of x "evidence-curator" 5 refl (ground arith)
]

pub late_rank :
    (x d : String) → is_late x ≡ true → contains d (late_exclusions x) ≡ false → rank d < rank x
unfolding late_exclusions
late_rank x d h e = elim (Bool-cases (str_eq x "red-team")) [
  | inl red ↦ red_team_rank x d red e
  | inr other ↦ omega (arith, last_rank x h other, rank_last d (ground arith) (ground arith))
]
