-- ===== src/Evidence/Integrity.antt =====
-- Appending keeps an evidence ledger verified (src/voodoo_skillset/evidence.py).
use voodoo_skillset.Prelude.{
  ℕ, suc, String, none, List, [], ◌∷◌, ◌++◌, ◌+◌, ◌≡◌, ◌↔◌, refl, arith, length, eq_iff,
}
use voodoo_skillset.Json.{Fields}
use voodoo_skillset.Platform.{Platform}
use voodoo_skillset.Evidence.{
  EvidenceEvent, genesis, last_hash, core, hash, new_event, append, verify_from, verify,
}

module _ (env : Platform) where
  -- An event that stands at position `i` after the hash `prev`.
  pub record Follows (i : ℕ) (prev : String) (e : EvidenceEvent) : Type 0 where
    pub in_sequence : e.seq ≡ i
    pub after : e.prev_hash ≡ prev
    pub sealed :
        hash env (core e.seq e.timestamp e.kind e.subject e.payload e.prev_hash) ≡ e.event_hash

  -- Every event stands at its position, after the hash of the one before it.
  abbrev pub IsSealed : ℕ → String → List EvidenceEvent → Type 0
  IsSealed i prev [] = Unit
  IsSealed i prev (e ∷ es) = Follows i prev e × IsSealed (suc i) e.event_hash es

  verify_from-IsSealed :
      (i : ℕ) (prev : String) (es : List EvidenceEvent)
      → (verify_from env i prev es ≡ none) ↔ IsSealed i prev es
  unfolding verify_from
  verify_from-IsSealed i prev [] = (λ h. tt, λ h. refl)
  verify_from-IsSealed i prev (e ∷ es) =
      let rest = verify_from-IsSealed (suc i) e.event_hash es in
      let a = eq_iff e.prev_hash prev in
      let b =
        eq_iff (hash env (core e.seq e.timestamp e.kind e.subject e.payload e.prev_hash))
          e.event_hash in
      (
        λ h. (
          record {
            in_sequence = ground arith;
            after = ground (arith, a);
            sealed = ground (arith, b);
          },
          rest.0 (ground (arith, a, b)),
        ),
        λ (f, r). ground (arith, a, b, rest.1 r, f.in_sequence, f.after, f.sealed),
      )

  -- `verify` passes exactly the ledgers in which each event has its position, the hash of the event
  -- before it, the first one GENESIS, and the hash of its own fields.
  pub verify-IsSealed : (es : List EvidenceEvent) → (verify env es ≡ none) ↔ IsSealed 1 genesis es
  unfolding verify
  verify-IsSealed es = verify_from-IsSealed 1 genesis es

  IsSealed-append :
      (i : ℕ) (prev : String) (es : List EvidenceEvent) (e : EvidenceEvent)
      → IsSealed i prev es
      → Follows (i + length es) (last_hash prev es) e
      → IsSealed i prev (es ++ e ∷ [])
  unfolding last_hash
  IsSealed-append i prev [] e s f = (
    record { in_sequence = omega (arith, f.in_sequence); after = f.after; sealed = f.sealed },
    tt,
  )
  IsSealed-append i prev (x ∷ es) e (fx, s) f = (
    fx,
    IsSealed-append (suc i) x.event_hash es e s
        (record { in_sequence = omega (arith, f.in_sequence); after = f.after; sealed = f.sealed }),
  )

  -- A ledger that `verify` passes is passed after any `append`.
  pub verify-append :
      (kind subject : String) (payload : Fields) (timestamp : String) (es : List EvidenceEvent)
      → verify env es ≡ none
      → verify env (append env kind subject payload timestamp es) ≡ none
  unfolding append new_event
  verify-append kind subject payload timestamp es h =
      (verify-IsSealed (append env kind subject payload timestamp es)).1 (
        IsSealed-append 1 genesis es (new_event env kind subject payload timestamp es)
          ((verify-IsSealed es).0 h)
          (record { in_sequence = omega arith; after = refl; sealed = refl }))
