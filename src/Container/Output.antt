-- ===== src/Container/Output.antt =====
-- `_run_bounded` of src/voodoo_skillset/container_executor.py: what is kept of a process's output, and
-- how long it may run. A stream is the chunks that `pipe.read(65_536)` returns before its end, none of
-- them empty; a byte is its number.
use voodoo_skillset.Prelude.{
  ℕ, zero, suc, Bool, true, false, List, [], ◌∷◌, ◌++◌, ◌+◌, ◌-◌, ◌≤◌, ◌≡◌, refl, sym, ap, ◌∙◌,
  arith, inl, inr, Bool-cases, length, ltb, if◌then◌else◌,
}

-- `chunk[:n]`
unfoldable pub take : ℕ → List ℕ → List ℕ
take zero bs = []
take (suc n) [] = []
take (suc n) (b ∷ bs) = b ∷ take n bs

-- MAX_CAPTURE_BYTES
abbrev pub max_capture_bytes : ℕ
max_capture_bytes = 4194304

-- `if remaining > 0: buffer.extend(chunk[:remaining])`
unfoldable pub extend : ℕ → List ℕ → List ℕ → List ℕ
unfolding take
extend limit chunk buffer =
    let remaining = limit - length buffer in
    if ltb 0 remaining then buffer ++ take remaining chunk else buffer

-- `drain`: the buffer that it fills, and whether it sets `overflow`.
unfoldable pub drain : ℕ → List (List ℕ) → List ℕ → List ℕ × Bool
unfolding extend
drain limit [] buffer = (buffer, false)
drain limit (chunk ∷ chunks) buffer =
    let rest = drain limit chunks (extend limit chunk buffer) in
    if ltb (limit - length buffer) (length chunk) then (extend limit chunk buffer, true) else rest

abbrev pub joined : List (List ℕ) → List ℕ
joined [] = []
joined (chunk ∷ chunks) = chunk ++ joined chunks

length-append_bytes : (a b : List ℕ) → length (a ++ b) ≡ length a + length b
length-append_bytes [] b = omega arith
length-append_bytes (x ∷ a) b = omega (arith, length-append_bytes a b)

append_assoc : (a b c : List ℕ) → (a ++ b) ++ c ≡ a ++ (b ++ c)
append_assoc [] b c = refl
append_assoc (x ∷ a) b c = ap (λ t. x ∷ t) (append_assoc a b c)

append_nil : (a : List ℕ) → a ++ [] ≡ a
append_nil [] = refl
append_nil (x ∷ a) = ap (λ t. x ∷ t) (append_nil a)

take_nil : (n : ℕ) → take n [] ≡ []
unfolding take
take_nil zero = refl
take_nil (suc n) = refl

-- A cut inside the first of two parts, and one behind it.
take-within : (n : ℕ) (a b : List ℕ) → n ≤ length a → take n (a ++ b) ≡ take n a
unfolding take
take-within zero a b h = refl
take-within (suc n) [] b h = absurd (omega (arith, h))
take-within (suc n) (x ∷ a) b h = ap (λ t. x ∷ t) (take-within n a b (omega (arith, h)))

take-behind : (n : ℕ) (a b : List ℕ) → length a ≤ n → take n (a ++ b) ≡ a ++ take (n - length a) b
unfolding take
take-behind n [] b h = ap (λ m. take m b) (omega arith)
take-behind zero (x ∷ a) b h = absurd (omega (arith, h))
take-behind (suc n) (x ∷ a) b h =
    ap (λ t. x ∷ t)
      (take-behind n a b (omega (arith, h)) ∙ ap (λ m. a ++ take m b) (omega (arith, h)))

take_all : (n : ℕ) (a : List ℕ) → length a ≤ n → take n a ≡ a
unfolding take
take_all n [] h = take_nil n
take_all zero (x ∷ a) h = absurd (omega (arith, h))
take_all (suc n) (x ∷ a) h = ap (λ t. x ∷ t) (take_all n a (omega (arith, h)))

extend-take :
    (limit : ℕ) (chunk buffer : List ℕ)
    → extend limit chunk buffer ≡ buffer ++ take (limit - length buffer) chunk
unfolding extend take
extend-take limit chunk buffer = elim (Bool-cases (ltb 0 (limit - length buffer))) [
  | inl room ↦ rw room refl
  | inr full ↦ rw full (nothing full)
]
  where
    no_room : ltb 0 (limit - length buffer) ≡ false → limit - length buffer ≡ 0
    no_room full = ground arith

    nothing :
        ltb 0 (limit - length buffer) ≡ false
        → buffer ≡ buffer ++ take (limit - length buffer) chunk
    nothing full = sym (ap (λ m. buffer ++ take m chunk) (no_room full) ∙ append_nil buffer)

module _ (limit : ℕ) (buffer chunk more : List ℕ) where
  abbrev room : ℕ
  room = limit - length buffer

  cut_longer : ltb room (length chunk) ≡ true → ltb room (length (chunk ++ more)) ≡ true
  cut_longer h = ground (arith, length-append_bytes chunk more)

  cut_within :
      ltb room (length chunk) ≡ true
      → extend limit chunk buffer ≡ buffer ++ take room (chunk ++ more)
  cut_within h =
      extend-take limit chunk buffer
      ∙ ap (λ t. buffer ++ t) (sym (take-within room chunk more (ground (arith, h))))

  module _ (fits : ltb room (length chunk) ≡ false) where
    extended : extend limit chunk buffer ≡ buffer ++ chunk
    extended =
        extend-take limit chunk buffer
        ∙ ap (λ t. buffer ++ t) (take_all room chunk (ground (arith, fits)))

    extended_length : length (extend limit chunk buffer) ≡ length buffer + length chunk
    extended_length = ap length extended ∙ length-append_bytes buffer chunk

    extended_small : length buffer ≤ limit → length (extend limit chunk buffer) ≤ limit
    extended_small h = ground (arith, extended_length, fits)

    room_left : limit - length (extend limit chunk buffer) ≡ room - length chunk
    room_left = omega (arith, extended_length)

    cut_behind :
        extend limit chunk buffer ++ take (limit - length (extend limit chunk buffer)) more
        ≡ buffer ++ take room (chunk ++ more)
    cut_behind =
        ap (λ t. t ++ take (limit - length (extend limit chunk buffer)) more) extended
        ∙ append_assoc buffer chunk (take (limit - length (extend limit chunk buffer)) more)
        ∙ ap (λ n. buffer ++ (chunk ++ take n more)) room_left
        ∙ ap (λ t. buffer ++ t) (sym (take-behind room chunk more (ground (arith, fits))))

    same_overflow :
        ltb (limit - length (extend limit chunk buffer)) (length more)
        ≡ ltb room (length (chunk ++ more))
    same_overflow = ground (arith, room_left, length-append_bytes chunk more, fits)

-- What `drain` keeps of a stream, in whatever chunks it arrives: the first bytes of it for which there
-- is room, and it sets `overflow` exactly if there are more.
pub drain-take :
    (limit : ℕ) (chunks : List (List ℕ)) (buffer : List ℕ)
    → length buffer ≤ limit
    → drain limit chunks buffer ≡ (
      buffer ++ take (limit - length buffer) (joined chunks),
      ltb (limit - length buffer) (length (joined chunks)),
    )
unfolding drain
drain-take limit [] buffer h =
    rw (take_nil (limit - length buffer), append_nil buffer, none_more (limit - length buffer)) refl
  where
    none_more : (n : ℕ) → ltb n 0 ≡ false
    none_more n = ground arith
drain-take limit (chunk ∷ chunks) buffer h =
    elim (Bool-cases (ltb (limit - length buffer) (length chunk))) [
      | inl more ↦
          rw
            (
              more,
              cut_longer limit buffer chunk (joined chunks) more,
              cut_within limit buffer chunk (joined chunks) more,
            )
            refl
      | inr fits ↦
          rw (fits, drain)
            (drain-take limit chunks (extend limit chunk buffer)
                (extended_small limit buffer chunk (joined chunks) fits h)
              ∙ rw
                  (
                    cut_behind limit buffer chunk (joined chunks) fits,
                    same_overflow limit buffer chunk (joined chunks) fits,
                  )
                  refl)
    ]

length-take : (n : ℕ) (a : List ℕ) → length (take n a) ≤ n
unfolding take
length-take zero a = omega arith
length-take (suc n) [] = omega arith
length-take (suc n) (x ∷ a) = omega (arith, length-take n a)

-- An extended buffer keeps to the limit.
pub length-extend :
    (limit : ℕ) (chunk buffer : List ℕ)
    → length buffer ≤ limit
    → length (extend limit chunk buffer) ≤ limit
length-extend limit chunk buffer h =
    let taken = take (limit - length buffer) chunk in
    omega (
      arith,
      ap length (extend-take limit chunk buffer),
      length-append_bytes buffer taken,
      length-take (limit - length buffer) chunk,
      h,
    )

-- The first bytes of a stream, up to the limit, are kept.
pub drained :
    (limit : ℕ) (chunks : List (List ℕ)) → (drain limit chunks []).0 ≡ take limit (joined chunks)
drained limit chunks =
    ap (λ q. q.0) (drain-take limit chunks [] (omega arith))
    ∙ ap (λ n. take n (joined chunks)) (omega arith)

pub length-drained : (limit : ℕ) (chunks : List (List ℕ)) → length (drain limit chunks []).0 ≤ limit
length-drained limit chunks =
    omega (arith, ap length (drained limit chunks), length-take limit (joined chunks))
