-- ===== src/Fleet/Chain.antt =====
-- The hash chain of `fleet_events` (src/voodoo_skillset/fleet.py): what `verify_event_chain` decides,
-- and that every operation extends the chain and leaves its past alone.
pub mod Appending
pub mod Histories
use voodoo_skillset.Prelude.{
  ℕ, String, true, false, Option, none, some, List, [], ◌∷◌, ◌++◌, ◌≡◌, ◌≢◌, ◌↔◌, ◌⊎◌, inl, inr,
  refl, sym, ap, ◌∙◌, subst, arith, reverse, str_eq, eq_iff, length, Bool-cases, ◌+◌, suc,
}
use mathlib.Core.List.{reverse-append}
use voodoo_skillset.Platform.{Platform}
use voodoo_skillset.Fleet.Tables.{Event, Store}
use voodoo_skillset.Fleet.Events.{
  genesis_hash, event_body, head_hash, expected_hash, scan_chain, verify_event_chain, Fault,
}

-- The events, newest first: each names the hash of the one before it, and has the hash of its body.
abbrev pub IsChain : Platform → List Event → Type 0
IsChain env [] = Unit
IsChain env (e ∷ es) =
    (e.prev_hash ≡ head_hash es) × (e.event_hash ≡ expected_hash env e) × IsChain env es

-- The hash at which a scan of the rows ends.
last_hash : String → List Event → String
last_hash p [] = p
last_hash p (e ∷ es) = last_hash e.event_hash es

scan_chain-append :
    (env : Platform) (p : String) (xs : List Event) (e : Event)
    → (scan_chain env p (xs ++ e ∷ []) ≡ none) ↔ (
        (scan_chain env p xs ≡ none)
        × (e.prev_hash ≡ last_hash p xs)
        × (e.event_hash ≡ expected_hash env e))
unfolding scan_chain last_hash
scan_chain-append env p [] e =
    ground (arith, eq_iff e.prev_hash p, eq_iff e.event_hash (expected_hash env e))
scan_chain-append env p (x ∷ xs) e = ground (arith, scan_chain-append env x.event_hash xs e)

last_hash-append :
    (p : String) (xs : List Event) (e : Event) → last_hash p (xs ++ e ∷ []) ≡ e.event_hash
unfolding last_hash
last_hash-append p [] e = refl
last_hash-append p (x ∷ xs) e = last_hash-append x.event_hash xs e

last_hash-reverse : (es : List Event) → last_hash genesis_hash (reverse es) ≡ head_hash es
unfolding last_hash head_hash
last_hash-reverse [] = refl
last_hash-reverse (e ∷ es) =
    rw (reverse-append (e ∷ []) es) (last_hash-append genesis_hash (reverse es) e)

scan_chain-IsChain :
    (env : Platform) (es : List Event)
    → (scan_chain env genesis_hash (reverse es) ≡ none) ↔ IsChain env es
unfolding scan_chain
scan_chain-IsChain env [] = ground arith
scan_chain-IsChain env (e ∷ es) = rw (reverse-append (e ∷ []) es) (
    ground (
      arith,
      scan_chain-append env genesis_hash (reverse es) e,
      last_hash-reverse es,
      scan_chain-IsChain env es,
    ))

-- `verify_event_chain` reports success exactly when each event names the hash of the one before it,
-- the first one GENESIS_HASH, and has the SHA-256 hash of its own body.
pub verify_event_chain-IsChain :
    (env : Platform) (s : Store) → (verify_event_chain env s ≡ none) ↔ IsChain env s.events
unfolding verify_event_chain
verify_event_chain-IsChain env s = scan_chain-IsChain env s.events

-- The text of an event that is hashed.
abbrev pub hashed_text : Platform → Event → String
hashed_text env e =
    env.dumps (event_body e.job_id e.kind e.actor e.payload e.created_at e.prev_hash)

-- The same number of events, with the same hashed texts.
abbrev pub SameTexts : Platform → List Event → List Event → Type 0
SameTexts env [] [] = Unit
SameTexts env [] (f ∷ fs) = ⊥
SameTexts env (e ∷ es) [] = ⊥
SameTexts env (e ∷ es) (f ∷ fs) = (hashed_text env e ≡ hashed_text env f) × SameTexts env es fs

-- Two texts with one SHA-256 hash.
abbrev pub Collision : Platform → Type 0
Collision env = (x : String) × (y : String) × (x ≢ y) × (env.sha256 x ≡ env.sha256 y)

-- Two chains of the same length that end in the same hash hold the same events, text for text, or
-- exhibit a collision of SHA-256. The field "prev_hash" can be read back from a hashed text.
pub chain_tamper_evident :
    (env : Platform) (prev_hash_of : String → String)
    → ((e : Event) → prev_hash_of (hashed_text env e) ≡ e.prev_hash)
    → (es fs : List Event) → IsChain env es
    → IsChain env fs
    → length es ≡ length fs
    → head_hash es ≡ head_hash fs
    → SameTexts env es fs ⊎ Collision env
unfolding head_hash expected_hash
chain_tamper_evident env read back [] [] c d l h = inl tt
chain_tamper_evident env read back [] (f ∷ fs) c d l h = absurd (omega arith)
chain_tamper_evident env read back (e ∷ es) [] c d l h = absurd (omega arith)
chain_tamper_evident env read back (e ∷ es) (f ∷ fs) c d l h =
    elim (Bool-cases (str_eq (hashed_text env e) (hashed_text env f))) [
      | inl same ↦
          let t = (eq_iff (hashed_text env e) (hashed_text env f)).0 same in
          let p : head_hash es ≡ head_hash fs = sym c.0 ∙ sym (back e) ∙ ap read t ∙ back f ∙ d.0 in
          elim (chain_tamper_evident env read back es fs c.2 d.2 (omega arith) p) [
            | inl rest ↦ inl (t, rest)
            | inr collision ↦ inr collision
          ]
      | inr other ↦ inr (
        hashed_text env e,
        hashed_text env f,
        ground (arith, eq_iff (hashed_text env e) (hashed_text env f)),
        cc,
      )
    ]
