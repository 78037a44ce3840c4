-- ===== src/Egg/SecureMemory/Strings.antt =====
-- The copies of text that egg/egg-secure-memory.c makes. A text is the bytes that can be read from its
-- start on. `none` stands for an assertion that fails, or for bytes that are copied to null.
use gcr.Shared.{
  ℕ, zero, suc, ◌+◌, ◌≤◌, ◌<◌, ◌≡◌, ◌≢◌, refl, sym, ap, ◌∙◌, Bool, Option, none, some, List, [],
  ◌∷◌, ◌++◌, length, take, ◌==◌, if◌then◌else◌, arith, All, take-append, length-append,
  append_assoc, ne→==_false,
}
use gcr.Egg.SecureMemory.Blocks.{
  Placed, System, Given, null, secure, insecure, egg_secure_alloc_full,
}

abbrev pub one_later : Option ℕ → Option ℕ
one_later none = none
one_later (some i) = some (i + 1)

-- How far a byte is from the start, among so many bytes.
unfoldable pub memchr : List ℕ → ℕ → ℕ → Option ℕ
memchr [] c n = none
memchr (b ∷ str) c zero = none
memchr (b ∷ str) c (suc n) = let rest = memchr str c n in if b == c then some 0 else one_later rest

unfoldable pub strlen : List ℕ → ℕ
strlen [] = 0
strlen (b ∷ str) = let rest = strlen str in if b == 0 then 0 else rest + 1

-- The memory, what is written to it, and the blocks.
abbrev pub copied_to : List ℕ → Option (Given × List Placed) → Option (Given × List ℕ × List Placed)
copied_to bytes none = none
copied_to bytes (some (null, blocks)) = none
copied_to bytes (some (secure m, blocks)) = some (secure m, bytes, blocks)
copied_to bytes (some (insecure m, blocks)) = some (insecure m, bytes, blocks)

unfoldable pub egg_secure_strdup_full :
    System
    → Option (List ℕ)
    → Option (List ℕ)
    → Bool
    → List Placed
    → Option (Given × List ℕ × List Placed)
egg_secure_strdup_full system tag none options blocks = some (null, [], blocks)
egg_secure_strdup_full system tag (some str) options blocks =
    copied_to (take (strlen str) str ++ 0 ∷ [])
      (egg_secure_alloc_full system tag (strlen str + 1) options blocks)

abbrev pub end_or : ℕ → Option ℕ → ℕ
end_or n none = n
end_or n (some end) = end

abbrev pub strndup_length : List ℕ → ℕ → ℕ
strndup_length str n = end_or n (memchr str 0 n)

unfoldable pub egg_secure_strndup_full :
    System
    → Option (List ℕ)
    → Option (List ℕ)
    → ℕ
    → Bool
    → List Placed
    → Option (Given × List ℕ × List Placed)
egg_secure_strndup_full system tag none n options blocks = some (null, [], blocks)
egg_secure_strndup_full system tag (some str) n options blocks =
    copied_to (take (strndup_length str n + 1) str)
      (egg_secure_alloc_full system tag (strndup_length str n + 1) options blocks)

-- Bytes that are overwritten before memory is given back.
unfoldable pub egg_secure_clear : ℕ → List ℕ → List ℕ
egg_secure_clear zero bytes = bytes
egg_secure_clear (suc n) [] = []
egg_secure_clear (suc n) (b ∷ bytes) = 0xaa ∷ egg_secure_clear n bytes

unfoldable pub egg_secure_strclear : List ℕ → List ℕ
unfolding egg_secure_clear strlen
egg_secure_strclear str = egg_secure_clear (strlen str) str

-- The text ends at a zero, or goes on to the end of what is read.
later : (n k : ℕ) (found : Option ℕ) → end_or n found ≡ k → end_or (suc n) (one_later found) ≡ suc k
later n k none e = ap suc e
later n k (some i) e = omega (arith, e)

memchr_text :
    (text : List ℕ) (c : ℕ) (rest : List ℕ) (n : ℕ)
    → All (λ b. b ≢ 0) text
    → length text ≤ n
    → (length text < n → c ≡ 0)
    → strndup_length (text ++ c ∷ rest) n ≡ length text
unfolding memchr
memchr_text [] c rest zero clean le ends = refl
memchr_text [] c rest (suc n) clean le ends = rw (ends (omega arith)) refl
memchr_text (b ∷ text) c rest zero clean le ends = elim le [ ]
memchr_text (b ∷ text) c rest (suc n) clean le ends = rw (ne→==_false b 0 clean.0) (
    later n (length text) (memchr (text ++ c ∷ rest) 0 n)
      (memchr_text text c rest n clean.1 (omega arith) (λ lt. ends (omega arith))))

take_one_more :
    (text : List ℕ) (c : ℕ) (rest : List ℕ)
    → take (length text + 1) (text ++ c ∷ rest) ≡ text ++ c ∷ []
take_one_more text c rest =
    ap (take (length text + 1)) (sym (append_assoc text (c ∷ []) rest))
    ∙ take-append (length text + 1) (text ++ c ∷ []) rest
        (omega (arith, length-append text (c ∷ [])))

-- Where secure memory is given, a copy of at most so many bytes of a text, which has no zero before its
-- byte `c`, holds what is before `c` and `c` itself, where `c` is the zero that ends the text, or the
-- byte that follows as many as were asked for: then it is copied whatever it is, and no zero is added.
pub egg_secure_strndup_full-copies :
    (system : System) (tag : Option (List ℕ)) (text : List ℕ) (c : ℕ) (rest : List ℕ) (n : ℕ)
    (options : Bool) (blocks : List Placed) (memory : ℕ) (blocks' : List Placed)
    → All (λ b. b ≢ 0) text
    → length text ≤ n
    → (length text < n → c ≡ 0)
    → egg_secure_alloc_full system tag (length text + 1) options blocks
      ≡ some (secure memory, blocks')
    → egg_secure_strndup_full system tag (some (text ++ c ∷ rest)) n options blocks
      ≡ some (secure memory, text ++ c ∷ [], blocks')
unfolding egg_secure_strndup_full
egg_secure_strndup_full-copies system tag text c rest n options blocks memory blocks' clean le ends
      given =
    rw
      (
        egg_secure_strndup_full,
        memchr_text text c rest n clean le ends,
        given,
        take_one_more text c rest,
      )
      refl
