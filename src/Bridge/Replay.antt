-- ===== src/Bridge/Replay.antt =====
-- `ReplayGuard` of src/voodoo_skillset/executor_bridge.py: the table of nonces, and why a nonce that
-- was accepted is refused until it has expired.
use voodoo_skillset.Prelude.{
  String, Bool, true, false, not, List, [], ◌∷◌, ◌≡◌, arith, ℤ, ltb_ℤ, keep, any_of, str_eq,
  if◌then◌else◌, eq_refl, ◌≤ℤ◌, ◌&&◌,
}

-- A row of `nonces`: the nonce and its expires_at.
abbrev pub Nonces : Type 0
Nonces = List (String × ℤ)

abbrev pub is_live : ℤ → String × ℤ → Bool
is_live now row = not (ltb_ℤ row.1 now)

abbrev pub has_nonce : String → Nonces → Bool
has_nonce nonce rows = any_of (λ (row : String × ℤ). str_eq row.0 nonce) rows

-- DELETE, then INSERT under the primary key; the IntegrityError of the insertion rolls both back.
unfoldable pub claim : String → ℤ → ℤ → Nonces → Bool × Nonces
claim nonce expires_at now rows =
    let kept = keep (is_live now) rows in
    if has_nonce nonce kept then (false, rows) else (true, (nonce, expires_at) ∷ kept)

-- The nonce is in a row that expires at `until` or later.
abbrev pub is_guarded : String → ℤ → Nonces → Bool
is_guarded nonce until rows =
    any_of (λ (row : String × ℤ). str_eq row.0 nonce && not (ltb_ℤ row.1 until)) rows

is_guarded-keep :
    (nonce : String) (until now : ℤ) (rows : Nonces)
    → now ≤ℤ until
    → is_guarded nonce until rows ≡ true
    → is_guarded nonce until (keep (is_live now) rows) ≡ true
is_guarded-keep nonce until now [] h g = g
is_guarded-keep nonce until now ((n, e) ∷ rows) h g =
    ground (arith, is_guarded-keep nonce until now rows h)

has_nonce-guarded :
    (nonce : String) (until : ℤ) (rows : Nonces)
    → is_guarded nonce until rows ≡ true
    → has_nonce nonce rows ≡ true
has_nonce-guarded nonce until [] g = g
has_nonce-guarded nonce until ((n, e) ∷ rows) g = ground (arith, has_nonce-guarded nonce until rows)

-- A claim keeps what is guarded.
pub is_guarded-claim :
    (nonce other : String) (until expires_at now : ℤ) (rows : Nonces)
    → now ≤ℤ until
    → is_guarded nonce until rows ≡ true
    → is_guarded nonce until (claim other expires_at now rows).1 ≡ true
unfolding claim
is_guarded-claim nonce other until expires_at now rows h g =
    ground (arith, is_guarded-keep nonce until now rows h g)

-- A guarded nonce is refused.
pub claim_refused :
    (nonce : String) (until expires_at now : ℤ) (rows : Nonces)
    → now ≤ℤ until
    → is_guarded nonce until rows ≡ true
    → (claim nonce expires_at now rows).0 ≡ false
unfolding claim
claim_refused nonce until expires_at now rows h g = ground (
  arith,
  has_nonce-guarded nonce until (keep (is_live now) rows)
      (is_guarded-keep nonce until now rows h g),
)

-- An accepted nonce is guarded until it expires.
pub claim_guards :
    (nonce : String) (expires_at now : ℤ) (rows : Nonces)
    → (claim nonce expires_at now rows).0 ≡ true
    → is_guarded nonce expires_at (claim nonce expires_at now rows).1 ≡ true
unfolding claim
claim_guards nonce expires_at now rows h = ground (arith, eq_refl nonce)
