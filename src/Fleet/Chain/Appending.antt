-- ===== src/Fleet/Chain/Appending.antt =====
-- Every operation of the fleet store (src/voodoo_skillset/fleet.py) leaves the events that are there
-- and puts new ones before them, each made by `_event`.
use voodoo_skillset.Prelude.{
  String, Bool, true, false, Option, none, some, List, ◌∷◌, ◌≡◌, sym, subst, arith, ℤ, Bool-cases,
  inl, inr,
}
use voodoo_skillset.Json.{Fields}
use voodoo_skillset.Python.{
  Method, Result, ok, err, PyError, pure, or_raise, gets, raise_if, settle, transaction, ◌>>=◌,
}
use voodoo_skillset.Platform.{Platform}
use voodoo_skillset.Fleet.Tables.{Job, Event, Store}
use voodoo_skillset.Fleet.Events.{new_event, record_event, has_hash}
use voodoo_skillset.Fleet.Queue.{get_job, update_job}

-- A log after another one: events were put before it, each as `_event` makes it.
pub data Extends (env : Platform) (es : List Event) : List Event → Type 0 where
  same : Extends env es es
  more :
      {fs : List Event} (job : Option String) (kind actor : String) (payload : Fields) (now : ℤ)
      → Extends env es fs
      → Extends env es (new_event env job kind actor payload now fs ∷ fs)

pub Extends-trans :
    (env : Platform) {es fs gs : List Event}
    → Extends env es fs
    → Extends env fs gs
    → Extends env es gs
Extends-trans env e same = e
Extends-trans env e (more job kind actor payload now f) =
    more job kind actor payload now (Extends-trans env e f)

module _ (env : Platform) where
  pub record Appending {A : Type 0} (m : Method Store A) : Type 0 where
    pub at : (s : Store) → Extends env s.events (m s).1.events

  module _ {A : Type 0} where
    pub Appending-reads :
        (m : Method Store A) → ((s : Store) → (m s).1.events ≡ s.events) → Appending m
    Appending-reads m e = record { at = λ s. subst (Extends env s.events) (sym (e s)) same }

    pub Appending-pure : (a : A) → Appending (pure a)
    Appending-pure a = record { at = λ s. same }

    pub Appending-or_raise : (o : Option A) (e : PyError) → Appending (or_raise o e)
    Appending-or_raise none e = record { at = λ s. same }
    Appending-or_raise (some a) e = record { at = λ s. same }

    pub Appending-gets : (f : Store → A) → Appending (gets f)
    Appending-gets f = record { at = λ s. same }

    settle-Extends :
        (s : Store) (r : Result A × Store)
        → Extends env s.events r.1.events
        → Extends env s.events (settle s r).1.events
    settle-Extends s (ok a, t) e = e
    settle-Extends s (err x, t) e = same

    pub Appending-transaction : (m : Method Store A) → Appending m → Appending (transaction m)
    Appending-transaction m e = record { at = λ s. settle-Extends s (m s) (e.at s) }

  pub Appending-raise_if : (b : Bool) (e : PyError) → Appending (raise_if b e)
  Appending-raise_if true e = record { at = λ s. same }
  Appending-raise_if false e = record { at = λ s. same }

  module _ {A B : Type 0} where
    continue-Extends :
        (s : Store) (r : Result A × Store) (f : A → Method Store B)
        → Extends env s.events r.1.events
        → ((a : A) → Appending (f a))
        → Extends env s.events (((λ (z : Store). r) >>= f) s).1.events
    continue-Extends s (ok a, t) f e h = Extends-trans env e ((h a).at t)
    continue-Extends s (err x, t) f e h = e

    pub Appending-bind :
        (m : Method Store A) (f : A → Method Store B)
        → Appending m
        → ((a : A) → Appending (f a))
        → Appending (m >>= f)
    Appending-bind m f em ef = record { at = λ s. continue-Extends s (m s) f (em.at s) ef }

  pub Appending-record_event :
      (job : Option String) (kind actor : String) (payload : Fields) (now : ℤ)
      → Appending (record_event env job kind actor payload now)
  unfolding record_event
  Appending-record_event job kind actor payload now = record {
    at = λ s.
        elim (Bool-cases
          (has_hash (new_event env job kind actor payload now s.events).event_hash s.events)) [
            | inl taken ↦ rw taken same
            | inr free ↦ rw free (more job kind actor payload now same)
          ];
  }

  pub Appending-update_job : (id : String) (f : Job → Job) → Appending (update_job id f)
  unfolding update_job
  Appending-update_job id f = record { at = λ s. same }

  pub Appending-get_job : (id : String) → Appending (get_job id)
  unfolding get_job
  Appending-get_job id = Appending-reads (get_job id) (λ s. ground arith)

pub ruleset appending = (
  Appending-pure, Appending-or_raise, Appending-gets, Appending-transaction, Appending-raise_if,
  Appending-bind, Appending-record_event, Appending-update_job, Appending-get_job,
)
