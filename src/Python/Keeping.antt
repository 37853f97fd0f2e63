-- ===== src/Python/Keeping.antt =====
-- Methods of src/voodoo_skillset as relations: what a method that returns has done, and predicates of
-- the state that a method keeps whether it returns or raises.
use voodoo_skillset.Prelude.{Bool, true, false, Option, none, some, ◌≡◌, refl, sym, subst, arith}
use voodoo_skillset.Python.{
  Result, ok, err, PyError, Method, pure, raise, or_raise, raise_if, ◌>>=◌, ◌>>◌,
}

module _ {S A B : Type 0} where
  pub record Bound (m : Method S A) (f : A → Method S B) (s : S) (b : B) : Type 0 where
    pub value : A
    pub state : S
    pub first : m s ≡ (ok value, state)
    pub then_ok : (f value state).0 ≡ ok b
    pub result : (m >>= f) s ≡ f value state

  Bound-from :
      (m : Method S A) (f : A → Method S B) (s : S) (b : B) (q : Result A × S)
      → m s ≡ q
      → ((m >>= f) s).0 ≡ ok b
      → Bound m f s b
  Bound-from m f s b (ok a, t) e h = record {
    value = a;
    state = t;
    first = e;
    then_ok = subst (λ x. (((λ (z : S). x) >>= f) s).0 ≡ ok b) e h;
    result = subst (λ x. ((λ (z : S). x) >>= f) s ≡ f a t) (sym e) refl;
  }
  Bound-from m f s b (err x, t) e h =
      absurd (impossible (subst (λ x. (((λ (z : S). x) >>= f) s).0 ≡ ok b) e h))
    where
      impossible : err x ≡ ok b → ⊥
      impossible h = ground arith

  -- A chain that returns has got through its first method.
  pub bound :
      (m : Method S A) (f : A → Method S B) (s : S) (b : B) → ((m >>= f) s).0 ≡ ok b → Bound m f s b
  bound m f s b h = Bound-from m f s b (m s) refl h

pub passed_if :
    {S : Type 0} (c : Bool) (e : PyError) (s t : S)
    → raise_if c e s ≡ (ok tt, t)
    → (c ≡ false) × (t ≡ s)
passed_if true e s t h = absurd (ground arith)
passed_if false e s t h = (refl, ground arith)

-- A chain that returns has passed its guard, and goes on from the same state.
pub passed :
    {S A : Type 0} (c : Bool) (e : PyError) (m : Method S A) (s : S) (b : A)
    → ((raise_if c e >> m) s).0 ≡ ok b
    → (c ≡ false) × ((m s).0 ≡ ok b) × (((raise_if c e >> m) s).1 ≡ (m s).1)
passed true e m s b h = absurd (ground arith)
passed false e m s b h = (refl, h, refl)

module _ {S : Type 0} (P : S → Type 0) where
  pub record Keeps {A : Type 0} (m : Method S A) : Type 0 where
    pub at : (s : S) → P s → P (m s).1

  pub Keeps-pure : {A : Type 0} (a : A) → Keeps (pure a)
  Keeps-pure a = record { at = λ s p. p }

  pub Keeps-raise : {A : Type 0} (e : PyError) → Keeps (raise {A = A} e)
  Keeps-raise e = record { at = λ s p. p }

  pub Keeps-or_raise : {A : Type 0} (o : Option A) (e : PyError) → Keeps (or_raise o e)
  Keeps-or_raise none e = record { at = λ s p. p }
  Keeps-or_raise (some a) e = record { at = λ s p. p }

  pub Keeps-raise_if : (c : Bool) (e : PyError) → Keeps (raise_if c e)
  Keeps-raise_if true e = record { at = λ s p. p }
  Keeps-raise_if false e = record { at = λ s p. p }

  module _ {A B : Type 0} where
    kept_after :
        (s : S) (r : Result A × S) (f : A → Method S B)
        → P r.1
        → ((a : A) → Keeps (f a))
        → P (((λ (z : S). r) >>= f) s).1
    kept_after s (ok a, t) f p h = (h a).at t p
    kept_after s (err e, t) f p h = p

    pub Keeps-bind :
        (m : Method S A) (f : A → Method S B) → Keeps m → ((a : A) → Keeps (f a)) → Keeps (m >>= f)
    Keeps-bind m f km kf = record { at = λ s p. kept_after s (m s) f (km.at s p) kf }

pub ruleset keeping = (Keeps-pure, Keeps-raise, Keeps-or_raise, Keeps-raise_if, Keeps-bind)
