-- ===== src/Egg/Buffer/Writes.antt =====
-- What the writers of egg/egg-buffer.c append, and how one writer after another appends both parts.
use gcr.Shared.{
  ℕ, ◌+◌, ◌^◌, ◌≤◌, ◌<◌, ◌≡◌, refl, sym, ap, ◌∙◌, ◌⊎◌, inl, inr, Bool, true, false, List, [], ◌++◌,
  length, arith, append-nil, append_assoc, length-append, length-take_le,
}
use gcr.Egg.Buffer.Memory.{Buffer, Run, done, fault, Ensures, ◌>>=◌, ◌+size◌}
use gcr.Egg.Buffer.Storage.{reserve, if_reserved, copy_in, append}
use gcr.Egg.Buffer.Numbers.{◌and_then◌}
use gcr.Egg.Buffer.Valid.{IsValid, contents, IsReserved, reserve-IsReserved}
use gcr.Egg.Buffer.Access.{splice, poke-done, length-splice, take-splice_end}

-- `s` is appended if the call succeeds, and a front part of it if it fails.
abbrev pub Appended : List ℕ → Buffer → Bool × Buffer → Type 0
Appended s b (true, b') = (contents b' ≡ contents b ++ s) × (b'.failures ≡ b.failures)
Appended s b (false, b') =
    (front : List ℕ) × (back : List ℕ) × (front ++ back ≡ s) × (contents b' ≡ contents b ++ front)

pub record IsWritten (s : List ℕ) (b : Buffer) (r : Bool × Buffer) : Type 0 where
  pub valid : IsValid r.1
  pub appended : Appended s b r
  pub allocator_kept : r.1.allocator ≡ b.allocator
  pub grows : b.allocated_len ≤ r.1.allocated_len
  pub granted : (r.0 ≡ true) ⊎ (b.allocated_len ≤ b.len + length s)

-- From a valid buffer with room left in a size_t, `m` does not fault, and appends `s`.
abbrev pub Writes : List ℕ → (Buffer → Run (Bool × Buffer)) → Type 0
Writes s m = (b : Buffer) → IsValid b → b.len + length s < 2 ^ 63 → Ensures (IsWritten s b) (m b)

pub length-contents : (b : Buffer) → IsValid b → length (contents b) ≡ b.len
length-contents b v = length-take_le b.len b.buf (omega (arith, v.sized, v.within))

-- A refusal appends nothing.
pub refused :
    (s : List ℕ) (b : Buffer) {n : ℕ} {r : Bool × Buffer}
    → n ≡ b.len + length s
    → IsReserved n b r
    → r.0 ≡ false
    → IsWritten s b (false, r.1)
refused s b n_lem v e = record {
  valid = v.valid;
  appended = ([], s, refl, v.kept ∙ sym (append-nil (contents b)));
  allocator_kept = v.allocator_kept;
  grows = v.grows;
  granted = inr (ground (arith, v.granted));
}

-- The bytes are copied behind those in use.
pub stored :
    (s : List ℕ) (b b' : Buffer) (n : ℕ)
    → n ≡ b.len + length s
    → IsReserved n b (true, b')
    → b.len + length s < 2 ^ 63
    → IsWritten s b (true, record b' { buf = splice b'.buf b'.len s; len = b'.len +size length s })
stored s b b' n e v small = record {
  valid = record {
    sized = length-splice b'.buf b'.len s fits ∙ v.valid.sized;
    within = omega (arith, v.room refl, v.len_kept);
    fits = v.valid.fits;
    owned = v.valid.owned;
  };
  appended = (
    rw no_wrap (take-splice_end b'.len b'.buf s fits ∙ ap (λ (xs : List ℕ). xs ++ s) v.kept),
    v.counted,
  );
  allocator_kept = v.allocator_kept;
  grows = v.grows;
  granted = inl refl;
}
  where
    fits : b'.len + length s ≤ length b'.buf
    fits = omega (arith, v.room refl, v.len_kept, v.valid.sized)

    no_wrap : b'.len +size length s ≡ b'.len + length s
    no_wrap = omega (arith, v.len_kept)

-- A writer asks for its room first, and writes where that is granted.
reserved_cases :
    (s : List ℕ) (b : Buffer) (next : Buffer → Run (Bool × Buffer)) (n : ℕ) (r : Bool × Buffer)
    → n ≡ b.len + length s
    → IsReserved n b r
    → ((b' : Buffer) → IsReserved n b (true, b') → Ensures (IsWritten s b) (next b'))
    → Ensures (IsWritten s b) (if_reserved next r)
reserved_cases s b next n (true, b') e v granted = granted b' v
reserved_cases s b next n (false, b') e v granted = refused s b e v refl

pub reserve-then :
    (s : List ℕ) (b : Buffer) (next : Buffer → Run (Bool × Buffer)) (n : ℕ)
    → n ≡ b.len + length s
    → IsValid b
    → b.len + length s < 2 ^ 63
    → ((b' : Buffer) → IsReserved n b (true, b') → Ensures (IsWritten s b) (next b'))
    → Ensures (IsWritten s b) (if_reserved next (reserve n b))
reserve-then s b next n e v small granted =
    reserved_cases s b next n (reserve n b) e (reserve-IsReserved n b v (omega arith)) granted

pub copy_in-written :
    (s : List ℕ) (b b' : Buffer) (n : ℕ)
    → n ≡ b.len + length s
    → IsReserved n b (true, b')
    → b.len + length s < 2 ^ 63
    → Ensures (IsWritten s b) (copy_in s b')
unfolding copy_in
copy_in-written s b b' n e v small =
    let room : b'.len + length s ≤ length b'.buf =
      omega (arith, v.room refl, v.len_kept, v.valid.sized) in
    rw (poke-done b'.buf b'.len s room) (stored s b b' n e v small)

pub append-Writes : (s : List ℕ) → Writes s (append s)
unfolding append
append-Writes s b v small =
    let n : ℕ = b.len +size length s in
    let no_wrap : n ≡ b.len + length s = omega arith in
    reserve-then s b (copy_in s) n no_wrap v small
      (λ b' w. copy_in-written s b b' n no_wrap w small)

pub len_after :
    (s : List ℕ) (b b' : Buffer) → IsValid b → IsWritten s b (true, b') → b'.len ≡ b.len + length s
len_after s b b' v w = omega (
  arith,
  length-contents b v,
  length-contents b' w.valid,
  ap (λ (xs : List ℕ). length xs) w.appended.0,
  length-append (contents b) s,
)

-- One writer after another.
joined :
    (s t : List ℕ) (b b' : Buffer) (r : Bool × Buffer)
    → IsValid b
    → IsWritten s b (true, b')
    → IsWritten t b' r
    → IsWritten (s ++ t) b r
joined s t b b' (true, b'') v w x = record {
  valid = x.valid;
  appended =
      (x.appended.0 ∙ rw w.appended.0 (append_assoc (contents b) s t), x.appended.1 ∙ w.appended.1);
  allocator_kept = x.allocator_kept ∙ w.allocator_kept;
  grows = omega (arith, w.grows, x.grows);
  granted = inl refl;
}
joined s t b b' (false, b'') v w x =
    let (front, back, whole, got) = x.appended in
    record {
      valid = x.valid;
      appended = (
        s ++ front,
        back,
        append_assoc s front back ∙ ap (λ r. s ++ r) whole,
        got ∙ rw w.appended.0 (append_assoc (contents b) s front),
      );
      allocator_kept = x.allocator_kept ∙ w.allocator_kept;
      grows = omega (arith, w.grows, x.grows);
      granted = ground (arith, x.granted, len_after s b b' v w, length-append s t, w.grows);
    }

Ensures-map :
    {A : Type 0} {P Q : A → Type 0} (r : Run A) → ((a : A) → P a → Q a) → Ensures P r → Ensures Q r
Ensures-map (done a) f h = f a h
Ensures-map fault f h = h

written_both :
    (s t : List ℕ) (b : Buffer) (n : Buffer → Run (Bool × Buffer)) (r : Run (Bool × Buffer))
    → Writes t n
    → b.len + length (s ++ t) < 2 ^ 63
    → IsValid b
    → Ensures (IsWritten s b) r
    → Ensures (IsWritten (s ++ t) b) (r >>= if_reserved n)
written_both s t b n (done (true, b')) wt small v w =
    Ensures-map (n b') (λ r. joined s t b b' r v w)
      (wt b' w.valid (omega (arith, len_after s b b' v w, length-append s t)))
written_both s t b n (done (false, b')) wt small v w =
    let (front, back, whole, got) = w.appended in
    record {
      valid = w.valid;
      appended = (front, back ++ t, sym (append_assoc front back t) ∙ ap (λ r. r ++ t) whole, got);
      allocator_kept = w.allocator_kept;
      grows = w.grows;
      granted = ground (arith, w.granted, length-append s t);
    }
written_both s t b n fault wt small v w = w

pub and_then-Writes :
    (s t : List ℕ) (m n : Buffer → Run (Bool × Buffer))
    → Writes s m
    → Writes t n
    → Writes (s ++ t) (m and_then n)
and_then-Writes s t m n ws wt b v small =
    written_both s t b n (m b) wt small v (ws b v (omega (arith, length-append s t)))
