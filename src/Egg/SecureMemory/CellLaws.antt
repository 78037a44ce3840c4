-- ===== src/Egg/SecureMemory/CellLaws.antt =====
-- What is done to single cells of egg/egg-secure-memory.c keeps them in order.
use gcr.Shared.{
  ℕ, ◌+◌, ◌-◌, ◌*◌, ◌≤◌, ◌<◌, ◌≡◌, refl, true, List, ◌++◌, arith, All, length, length-take,
  length-drop, length-append, ==_iff, ne→==_false,
}
use gcr.Egg.SecureMemory.{Cell, is_unused, guards, sec_clear}
use gcr.Egg.SecureMemory.Alloc.{front, rest_of, allocated}
use gcr.Egg.SecureMemory.Free.{joined_content, into_first, into_second, cleared, unused}
use gcr.Egg.SecureMemory.Bytes.{
  IsBlank, length-clear_to, drop-clear_to, clear_to-IsClean, IsBlank-append, IsBlank-take,
  IsBlank-drop, guards-IsBlank,
}
use gcr.Egg.SecureMemory.Valid.{IsCell}

-- All the bytes of an unused cell are blank.
pub blank : (c : Cell) → IsCell c → is_unused c ≡ true → All IsBlank (c.content)
blank c v h = rw ((==_iff (c.requested) 0).0 h) at (v.clean)

pub front-IsCell :
    (item n_words : ℕ) (c : Cell)
    → IsCell c
    → is_unused c ≡ true
    → 2 ≤ n_words
    → n_words ≤ c.n_words
    → IsCell (front item n_words c)
front-IsCell item n_words c v h two le = record {
  sized = omega (arith, v.sized, length-take (8 * n_words - 16) (c.content));
  holds = omega arith;
  tagged = refl;
  clean = IsBlank-take (8 * n_words - 16) (c.content) (blank c v h);
}

pub rest_of-IsCell :
    (n_words : ℕ) (c : Cell)
    → IsCell c
    → is_unused c ≡ true
    → n_words + 2 ≤ c.n_words
    → IsCell (rest_of n_words c)
rest_of-IsCell n_words c v h le = record {
  sized = omega (arith, v.sized, length-drop (8 * n_words) (c.content));
  holds = rw ((==_iff (c.requested) 0).0 h) (omega arith);
  tagged = v.tagged;
  clean = rw ((==_iff (c.requested) 0).0 h) (IsBlank-drop (8 * n_words) (c.content) (blank c v h));
}

pub allocated-IsCell :
    (tag : List ℕ) (n : ℕ) (c : Cell)
    → IsCell c
    → is_unused c ≡ true
    → 0 < n
    → n ≤ length (c.content)
    → IsCell (allocated tag n c)
unfolding sec_clear
allocated-IsCell tag n c v h pos le = record {
  sized = rw (length-clear_to n (c.content)) (v.sized);
  holds = rw (length-clear_to n (c.content)) le;
  tagged = rw (ne→==_false n 0 (λ e. omega arith)) refl;
  clean = rw (drop-clear_to n (c.content)) (IsBlank-drop n (c.content) (blank c v h));
}

pub released-IsCell : (c : Cell) → IsCell c → IsCell (unused (cleared c))
unfolding sec_clear
released-IsCell c v = record {
  sized = rw (length-clear_to (c.requested) (c.content)) (v.sized);
  holds = omega arith;
  tagged = refl;
  clean = clear_to-IsClean (c.requested) (c.content) (v.clean);
}

joined-IsBlank :
    (a b : Cell)
    → All IsBlank (a.content)
    → All IsBlank (b.content)
    → All IsBlank (joined_content a b)
joined-IsBlank a b p q =
    IsBlank-append (a.content) (guards ++ b.content) p
      (IsBlank-append guards (b.content) guards-IsBlank q)

length-joined :
    (a b : Cell) → length (joined_content a b) ≡ length (a.content) + 16 + length (b.content)
length-joined a b =
    omega (arith, length-append (a.content) (guards ++ b.content), length-append guards (b.content))

pub into_first-IsCell :
    (a b : Cell)
    → IsCell a
    → IsCell (unused b)
    → is_unused a ≡ true
    → IsCell (unused (into_first a b))
into_first-IsCell a b v w h = record {
  sized = omega (arith, v.sized, w.sized, length-joined a b);
  holds = omega arith;
  tagged = refl;
  clean = joined-IsBlank a b (blank a v h) (w.clean);
}

pub into_second-IsCell :
    (a b : Cell)
    → IsCell (unused a)
    → IsCell b
    → is_unused b ≡ true
    → IsCell (unused (into_second a b))
into_second-IsCell a b v w h = record {
  sized = omega (arith, v.sized, w.sized, length-joined a b);
  holds = omega arith;
  tagged = refl;
  clean = joined-IsBlank a b (v.clean) (blank b w h);
}
