-- ===== src/Egg/SecureMemory/Realloc/Bytes.antt =====
-- The bytes of memory whose size egg/egg-secure-memory.c changes.
use mathlib.Core.Path.{subst}
use gcr.Shared.{
  ℕ, zero, suc, ◌-◌, ◌≤◌, ◌<◌, ◌≡◌, refl, sym, ap, ◌∙◌, inl, inr, false, not, List, [], ◌∷◌, ◌++◌,
  if◌then◌else◌, ltb, arith, All, length, take, drop, length-take_le, length-append, length-drop,
  take-take, take_all, take-append, drop-append, take-append-drop, Bool-cases, ltb→lt, ne→==_false,
}
use gcr.Egg.SecureMemory.{Byte, Cell, sec_clear, is_unused}
use gcr.Egg.SecureMemory.Realloc.{resized, enlarged, overwritten}
use gcr.Egg.SecureMemory.Bytes.{
  IsBlank, IsClean, length-clear_to, clear_to-IsClean, IsBlank-append, IsBlank-take, IsBlank-drop,
}
use gcr.Egg.SecureMemory.Valid.{IsCell}

-- What is held by memory of another size: the same bytes as far as they fit, and behind them nothing but
-- zeros and bytes of guard words.
pub record IsResized (n : ℕ) (old new : List Byte) : Type 0 where
  pub sized : length new ≡ n
  pub kept : take (length old) new ≡ take n old
  pub blank : All IsBlank (drop (length old) new)

IsClean-later : (n m : ℕ) (xs : List Byte) → n ≤ m → IsClean n xs → IsClean m xs
IsClean-later zero m xs h p = IsBlank-drop m xs p
IsClean-later (suc n) zero xs h p = elim h [ ]
IsClean-later (suc n) (suc m) [] h p = tt
IsClean-later (suc n) (suc m) (x ∷ xs) h p = IsClean-later n m xs (omega arith) p

IsClean-take : (n k : ℕ) (xs : List Byte) → IsClean n xs → IsClean n (take k xs)
IsClean-take zero k xs p = IsBlank-take k xs p
IsClean-take (suc n) zero xs p = tt
IsClean-take (suc n) (suc k) [] p = tt
IsClean-take (suc n) (suc k) (x ∷ xs) p = IsClean-take n k xs p

sec_clear-IsClean :
    (from to : ℕ) (xs : List Byte) → from ≤ to → IsClean to xs → IsClean from (sec_clear from to xs)
unfolding sec_clear
sec_clear-IsClean zero to xs h p = clear_to-IsClean to xs p
sec_clear-IsClean (suc from) zero xs h p = elim h [ ]
sec_clear-IsClean (suc from) (suc to) [] h p = tt
sec_clear-IsClean (suc from) (suc to) (x ∷ xs) h p =
    rw (less to) (sec_clear-IsClean from to xs (omega arith) p)
  where
    less : (n : ℕ) → suc n - 1 ≡ n
    less n = omega arith

take-sec_clear : (from to : ℕ) (xs : List Byte) → take from (sec_clear from to xs) ≡ take from xs
unfolding sec_clear
take-sec_clear zero to xs = refl
take-sec_clear (suc from) to [] = refl
take-sec_clear (suc from) to (x ∷ xs) = ap (λ l. x ∷ l) (take-sec_clear from (to - 1) xs)

pub length-sec_clear : (from to : ℕ) (xs : List Byte) → length (sec_clear from to xs) ≡ length xs
unfolding sec_clear
length-sec_clear zero to xs = length-clear_to to xs
length-sec_clear (suc from) to [] = refl
length-sec_clear (suc from) to (x ∷ xs) = ap suc (length-sec_clear from (to - 1) xs)

-- Bytes that begin as those of a cell do and have nothing behind them.
IsResized-from :
    (r n : ℕ) (xs ys : List Byte)
    → r ≤ length xs
    → n ≤ length ys
    → take (if ltb n r then n else r) ys ≡ take (if ltb n r then n else r) xs
    → IsClean r ys
    → IsResized n (take r xs) (take n ys)
IsResized-from r n xs ys room fits same clean = record {
  sized = length-take_le n ys fits;
  kept = rw (length-take_le r xs room) (elim (Bool-cases (ltb n r)) [
    | inl less ↦
        take_all r (take n ys) (omega (arith, length-take_le n ys fits, ltb→lt _ _ less))
        ∙ rw less at same
        ∙ sym (take-take n r xs (omega (arith, ltb→lt _ _ less)))
    | inr more ↦
        take-take r n ys (ground arith)
        ∙ rw more at same
        ∙ sym (take_all n (take r xs) (ground (arith, length-take_le r xs room)))
  ]);
  blank = rw (length-take_le r xs room) (IsClean-take r n ys clean);
}

abbrev pub bytes_of : Cell → List Byte
bytes_of c = take (c.requested) (c.content)

-- A cell that is given another size in place.
pub resized-IsCell :
    (n : ℕ) (c : Cell)
    → IsCell c
    → is_unused c ≡ false
    → 0 < n
    → n ≤ length (c.content)
    → IsCell (resized n c) × IsResized n (bytes_of c) (bytes_of (resized n c))
resized-IsCell n c v busy pos fits =
    let mine : is_unused (resized n c) ≡ false = ne→==_false n 0 (λ e. omega arith) in
    elim (Bool-cases (ltb n (c.requested))) [
      | inl less ↦
          let cleared = sec_clear n (c.requested) (c.content) in
          let clean =
            sec_clear-IsClean n (c.requested) (c.content) (omega (arith, ltb→lt _ _ less))
              (v.clean) in
          let same_length = length-sec_clear n (c.requested) (c.content) in
          rw less (
            record {
              sized = omega (arith, v.sized, same_length);
              holds = omega (arith, same_length);
              tagged = v.tagged ∙ ap not (busy ∙ sym mine);
              clean = clean;
            },
            IsResized-from (c.requested) n (c.content) cleared (v.holds)
                (omega (arith, same_length)) (rw less (take-sec_clear n (c.requested) (c.content)))
                (IsClean-later n (c.requested) cleared (omega (arith, ltb→lt _ _ less)) clean),
          )
      | inr more ↦ rw more (
        record {
          sized = v.sized;
          holds = fits;
          tagged = v.tagged ∙ ap not (busy ∙ sym mine);
          clean = IsClean-later (c.requested) n (c.content) (ground arith) (v.clean);
        },
        IsResized-from (c.requested) n (c.content) (c.content) (v.holds) fits refl (v.clean),
      )
    ]

pub enlarged-IsCell :
    (tag : List ℕ) (n : ℕ) (c : Cell)
    → IsCell c
    → 0 < n
    → c.requested ≤ n
    → n ≤ length (c.content)
    → IsCell (enlarged tag n c) × IsResized n (bytes_of c) (bytes_of (enlarged tag n c))
enlarged-IsCell tag n c v pos more fits =
    let mine : is_unused (enlarged tag n c) ≡ false = ne→==_false n 0 (λ e. omega arith) in
    let r = c.requested in
    let same_length = length-sec_clear r n (c.content) in
    let clean =
      sec_clear-IsClean r n (c.content) more (IsClean-later r n (c.content) more (v.clean)) in
    let not_less : ltb n r ≡ false = ground arith in
    (
      record {
        sized = omega (arith, v.sized, same_length);
        holds = omega (arith, same_length);
        tagged = ap not (sym mine);
        clean = IsClean-later r n (sec_clear r n (c.content)) more clean;
      },
      IsResized-from r n (c.content) (sec_clear r n (c.content)) (v.holds)
          (omega (arith, same_length)) (rw not_less (take-sec_clear r n (c.content))) clean,
    )

-- New memory that the bytes of old memory are written to.
pub overwritten-IsCell :
    (n : ℕ) (old : List Byte) (c : Cell)
    → IsCell c
    → c.requested ≡ n
    → length old ≤ n
    → All IsBlank (bytes_of c)
    → IsCell (overwritten old c) × IsResized n old (bytes_of (overwritten old c))
overwritten-IsCell n old c v asked le zeros =
    let r = length old in
    let bytes = old ++ drop r (c.content) in
    let all_blank : All IsBlank (c.content) =
      subst (All IsBlank) (take-append-drop (c.requested) (c.content)) (
        IsBlank-append (take (c.requested) (c.content)) (drop (c.requested) (c.content)) zeros
          (v.clean)) in
    let clean : IsClean r bytes =
      rw (drop-append r old (drop r (c.content)) refl) (IsBlank-drop r (c.content) all_blank) in
    let same_length : length bytes ≡ length (c.content) =
      omega (arith, length-append old (drop r (c.content)), length-drop r (c.content), v.holds) in
    (
      record {
        sized = omega (arith, v.sized, same_length);
        holds = omega (arith, v.holds, same_length);
        tagged = v.tagged;
        clean = IsClean-later r (c.requested) bytes (omega arith) clean;
      },
      record {
        sized = length-take_le (c.requested) bytes (omega (arith, v.holds, same_length)) ∙ asked;
        kept =
            take-take r (c.requested) bytes (omega arith)
            ∙ take-append r old (drop r (c.content)) refl
            ∙ sym (take_all n old le);
        blank = IsClean-take r (c.requested) bytes clean;
      },
    )
