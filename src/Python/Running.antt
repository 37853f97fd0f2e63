-- ===== src/Python/Running.antt =====
-- Methods of src/voodoo_skillset that return: chains of them, one method at a time.
use voodoo_skillset.Prelude.{◌≡◌, refl, sym, subst}
use voodoo_skillset.Python.{ok, Method, pure, ◌>>=◌}

-- The method returns the value, and leaves this state.
pub record Runs {S : Type 0} {A : Type 0} (m : Method S A) (s : S) (a : A) (t : S) : Type 0 where
  pub equation : m s ≡ (ok a, t)

pub Runs-bind :
    {S A B : Type 0} (m : Method S A) (f : A → Method S B) (s t u : S) (a : A) (b : B)
    → Runs m s a t
    → Runs (f a) t b u
    → Runs (m >>= f) s b u
Runs-bind {S = S} m f s t u a b r q = record {
  equation = subst (λ x. ((λ (z : S). x) >>= f) s ≡ (ok b, u)) (sym r.equation) q.equation;
}

pub Runs-pure : {S A : Type 0} (a : A) (s : S) → Runs (pure a) s a s
Runs-pure a s = record { equation = refl }
