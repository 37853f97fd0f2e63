-- ===== src/Planner/Stages/Order.antt =====
-- The stages of src/voodoo_skillset/dag.py: the loop ends, no dependency stays unmet, every selected
-- capability has its place, and nothing runs before what it depends on.
use voodoo_skillset.Prelude.{
  ℕ, zero, suc, String, Bool, true, false, not, ◌&&◌, ◌||◌, List, [], ◌∷◌, ◌++◌, ◌≡◌, inl, inr,
  refl, sym, ap, ◌∙◌, arith, ◌≤◌, ◌<◌, length, is_empty, all_of, keep, contains, eq_refl, leb,
  Bool-cases, if◌then◌else◌,
}
use voodoo_skillset.Prelude.Members.{
  distinct, sorted, contains-append, contains-keep, contains-sorted, contains-distinct,
  all_of-member, all_of_members, IsDistinct, IsDistinct-keep, sorted-IsDistinct,
  distinct-IsDistinct, append-IsDistinct, length-keep_less,
}
use voodoo_skillset.Planner.Stages.{
  dependency_rules, late_exclusions, is_late, deps, stages, cycle, then_stages, ready_of, loop,
  compose_stages, flat,
}
use voodoo_skillset.Planner.Stages.Ranks.{rank, rank_equal, rules_rank, late_rank}

pub contains-deps :
    (selected : List String) (x d : String)
    → contains d (deps selected x) ≡ (
        contains d selected
        && (contains d (dependency_rules x) || (is_late x && not (contains d (late_exclusions x)))))
unfolding deps
contains-deps selected x d = ground (
  arith,
  contains-keep (λ y. contains y (dependency_rules x)) d selected,
  contains-keep (λ y. not (contains y (late_exclusions x))) d selected,
  contains-append d (keep (λ y. contains y (dependency_rules x)) selected)
      (if is_late x then keep (λ y. not (contains y (late_exclusions x))) selected else []),
)

-- A dependency is selected and can come earlier.
deps_earlier :
    (selected : List String) (x d : String)
    → contains d (deps selected x) ≡ true
    → (contains d selected ≡ true) × (rank d < rank x)
deps_earlier selected x d h =
    let both = sym (contains-deps selected x d) ∙ h in
    (ground (arith, both), ground (arith, both, rules_rank x d, late_rank x d))

-- Of some texts, one that can come as early as any.
earliest :
    (x : String) (xs : List String)
    → (m : String) × (contains m (x ∷ xs) ≡ true)
      × ((y : String) → contains y (x ∷ xs) ≡ true → rank m ≤ rank y)
earliest x [] = (x, ground (arith, eq_refl x), λ y h. ground (arith, rank_equal x y))
earliest x (y ∷ ys) =
    let (m, inside, least) = earliest y ys in
    elim (Bool-cases (leb (rank x) (rank m))) [
      | inl first ↦ (x, ground (arith, eq_refl x), λ z h. ground (arith, rank_equal x z, least z))
      | inr second ↦ (m, ground arith, λ z h. ground (arith, rank_equal x z, least z))
    ]

is_empty-contains : (t : String) (us : List String) → contains t us ≡ true → is_empty us ≡ false
is_empty-contains t [] h = absurd (ground arith)
is_empty-contains t (u ∷ us) h = refl

pub contains-ready_of :
    (selected remaining completed : List String) (t : String)
    → contains t (ready_of selected remaining completed)
      ≡ (contains t remaining && all_of (λ d. contains d completed) (deps selected t))
unfolding ready_of
contains-ready_of selected remaining completed t =
    contains-sorted t _
    ∙ contains-keep (λ x. all_of (λ d. contains d completed) (deps selected x)) t remaining

-- Every selected capability remains or is completed.
abbrev Covers : List String → List String → List String → Type 0
Covers selected remaining completed =
    (d : String)
    → contains d selected ≡ true
    → (contains d remaining || contains d completed) ≡ true

-- A round is never stuck: what depends on nothing that remains is ready, such as the earliest.
ready_found :
    (selected : List String) (x : String) (xs completed : List String)
    → Covers selected (x ∷ xs) completed
    → is_empty (ready_of selected (x ∷ xs) completed) ≡ false
ready_found selected x xs completed cover =
    let (m, inside, least) = earliest x xs in
    let met : all_of (λ d. contains d completed) (deps selected m) ≡ true =
      all_of_members (λ d. contains d completed) (deps selected m)
        (λ d h.
          let (chosen, lower) = deps_earlier selected m d h in
          completed_one (contains d (x ∷ xs)) (contains d completed) (cover d chosen)
            (λ q. absurd (omega (arith, least d q)))) in
    is_empty-contains m (ready_of selected (x ∷ xs) completed)
      (contains-ready_of selected (x ∷ xs) completed m ∙ ground (arith, inside, met))
  where
    completed_one : (a b : Bool) → (a || b) ≡ true → (a ≡ true → ⊥) → b ≡ true
    completed_one a b h n = ground arith

-- Each stage has somebody in it, and whoever is in it depends only on earlier stages.
abbrev pub IsOrdered : List String → List String → List (List String) → Type 0
IsOrdered selected completed [] = Unit
IsOrdered selected completed (st ∷ sts) =
    (is_empty st ≡ false)
    × ((x d : String)
        → contains x st ≡ true
        → contains d (deps selected x) ≡ true
        → contains d completed ≡ true)
    × IsOrdered selected (completed ++ st) sts

-- The stages that a loop has left to make.
record Composed (selected : List String) (fuel : ℕ) (remaining completed : List String)
    : Type 0 where
  made : List (List String)
  loop_makes : loop selected fuel remaining completed ≡ stages made
  ordered : IsOrdered selected completed made
  same_members : (t : String) → contains t (flat made) ≡ contains t remaining
  no_repetition : IsDistinct (flat made)

abbrev unready : List String → List String → List String
unready ready remaining = keep (λ y. not (contains y ready)) remaining

Covers-step :
    (selected remaining completed ready : List String)
    → Covers selected remaining completed
    → Covers selected (unready ready remaining) (completed ++ ready)
Covers-step selected remaining completed ready cover d h = ground (
  arith,
  cover d h,
  contains-keep (λ y. not (contains y ready)) d remaining,
  contains-append d completed ready,
)

-- Who is ready was remaining, so that fewer remain.
unready_shorter :
    (ready remaining : List String)
    → ((t : String) → contains t ready ≡ true → contains t remaining ≡ true)
    → is_empty ready ≡ false
    → length (unready ready remaining) < length remaining
unready_shorter [] remaining inside h = absurd (ground arith)
unready_shorter (r ∷ rs) remaining inside h =
    let first : contains r (r ∷ rs) ≡ true = ground (arith, eq_refl r) in
    length-keep_less (λ y. not (contains y (r ∷ rs))) remaining r (inside r first) (ap not first)

ready_inside :
    (selected remaining completed : List String) (t : String)
    → contains t (ready_of selected remaining completed) ≡ true
    → contains t remaining ≡ true
ready_inside selected remaining completed t h =
    ground (arith, sym (contains-ready_of selected remaining completed t) ∙ h)

ready_met :
    (selected remaining completed : List String) (x d : String)
    → contains x (ready_of selected remaining completed) ≡ true
    → contains d (deps selected x) ≡ true
    → contains d completed ≡ true
ready_met selected remaining completed x d h m =
    let both = sym (contains-ready_of selected remaining completed x) ∙ h in
    all_of-member (λ y. contains y completed) (deps selected x) d (ground (arith, both)) m

ready_once :
    (selected remaining completed : List String)
    → IsDistinct remaining
    → IsDistinct (ready_of selected remaining completed)
unfolding ready_of
ready_once selected remaining completed h =
    sorted-IsDistinct _
      (IsDistinct-keep (λ x. all_of (λ d. contains d completed) (deps selected x)) remaining h)

next_stages :
    (selected : List String) (fuel : ℕ) (ready remaining completed : List String)
    (made : List (List String))
    → is_empty ready ≡ false
    → loop selected fuel (unready ready remaining) (completed ++ ready) ≡ stages made
    → (if is_empty ready
        then cycle (sorted remaining)
        else then_stages ready (loop selected fuel (unready ready remaining) (completed ++ ready)))
      ≡ stages (ready ∷ made)
next_stages selected fuel ready remaining completed made found e = rw (found, e) refl

together :
    (t : String) (ready remaining : List String) (made : List (List String))
    → (contains t ready ≡ true → contains t remaining ≡ true)
    → contains t (flat made) ≡ contains t (unready ready remaining)
    → contains t (ready ++ flat made) ≡ contains t remaining
together t ready remaining made inside e = ground (
  arith,
  inside,
  e,
  contains-append t ready (flat made),
  contains-keep (λ y. not (contains y ready)) t remaining,
)

apart :
    (t : String) (ready remaining : List String) (made : List (List String))
    → contains t (flat made) ≡ contains t (unready ready remaining)
    → contains t ready ≡ true
    → contains t (flat made) ≡ false
apart t ready remaining made e h =
    ground (arith, e, contains-keep (λ y. not (contains y ready)) t remaining)

loop-Composed :
    (selected : List String) (fuel : ℕ) (remaining completed : List String)
    → length remaining ≤ fuel
    → IsDistinct remaining
    → Covers selected remaining completed
    → Composed selected fuel remaining completed
unfolding loop
loop-Composed selected fuel [] completed enough once cover = record {
  made = [];
  loop_makes = refl;
  ordered = tt;
  same_members = λ t. refl;
  no_repetition = tt;
}
loop-Composed selected zero (x ∷ xs) completed enough once cover = absurd (omega arith)
loop-Composed selected (suc fuel) (x ∷ xs) completed enough once cover =
    let ready = ready_of selected (x ∷ xs) completed in
    let found = ready_found selected x xs completed cover in
    let inside : (t : String) → contains t ready ≡ true → contains t (x ∷ xs) ≡ true =
      λ t h. ready_inside selected (x ∷ xs) completed t h in
    let rest =
      loop-Composed selected fuel (unready ready (x ∷ xs)) (completed ++ ready)
        (omega (arith, unready_shorter ready (x ∷ xs) inside found))
        (IsDistinct-keep (λ y. not (contains y ready)) (x ∷ xs) once)
        (Covers-step selected (x ∷ xs) completed ready cover) in
    record {
      made = ready ∷ rest.made;
      loop_makes =
          next_stages selected fuel ready (x ∷ xs) completed rest.made found rest.loop_makes;
      ordered = (found, ready_met selected (x ∷ xs) completed, rest.ordered);
      same_members = λ t. together t ready (x ∷ xs) rest.made (inside t) (rest.same_members t);
      no_repetition =
          append-IsDistinct ready (flat rest.made) (ready_once selected (x ∷ xs) completed once)
            rest.no_repetition (λ t h. apart t ready (x ∷ xs) rest.made (rest.same_members t) h);
    }

-- For any selection the loop ends, with all its fuel used at most, and no dependency stays unmet: the
-- stages hold what is selected, each once, none of them is empty, and what stands in a stage depends
-- only on earlier stages.
pub compose_stages_returns :
    (ids : List String)
    → (sts : List (List String)) × (compose_stages ids ≡ stages sts)
      × IsOrdered (distinct ids) [] sts
      × ((t : String) → contains t (flat sts) ≡ contains t ids)
      × IsDistinct (flat sts)
unfolding compose_stages
compose_stages_returns ids =
    let selected = distinct ids in
    let c =
      loop-Composed selected (length selected) selected [] (omega arith) (distinct-IsDistinct ids)
        (λ d h. ground arith) in
    (
      c.made,
      c.loop_makes,
      c.ordered,
      λ t. c.same_members t ∙ contains-distinct t ids,
      c.no_repetition,
    )
