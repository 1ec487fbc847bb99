-- ===== src/Bytes/CString/Copy.antt =====
-- Copies are cut to the buffer and always ended; prefixes are found.
use quick_js_swift.Base.{
  ℕ, zero, suc, ◌-◌, ◌≤◌, ◌<◌, ◌≡◌, ◌≢◌, ◌↔◌, refl, sym, ap, inl, inr, List, [], ◌∷◌, ◌++◌, true,
  false, Option, none, some, lt→ltb, ◌==◌, ==_iff, Bool-cases, take, drop, length, drop-length,
  take-length, length-append, All, arith, get_or,
}
use quick_js_swift.Bytes.CString.{strlen, copy_loop, pstrcpy, pstrcat_at, pstrcat, strstart}

abbrev the_rest : Option (Option (List ℕ)) → List ℕ
the_rest (some (some p)) = p
the_rest (some none) = []
the_rest none = []

not_found : {p : List ℕ} → some none ≡ some (some p) → ⊥
not_found h = cc

-- The bytes of a string, before the 0 that ends it.
abbrev pub IsText : List ℕ → Type 0
IsText s = All (λ (c : ℕ). c ≢ 0) s

-- `q` with the first `left` bytes of `s` at its start, ended by a 0.
abbrev pub filled : ℕ → List ℕ → List ℕ → List ℕ
filled left q s = take left s ++ (0 ∷ drop (suc (length (take left s))) q)

copy_loop_lem :
    (left : ℕ) (q s rest : List ℕ)
    → IsText s
    → left < length q
    → copy_loop left q (s ++ (0 ∷ rest)) ≡ some (filled left q s)
unfolding copy_loop
copy_loop_lem left [] s rest t h = absurd (omega arith)
copy_loop_lem zero (b ∷ q) [] rest t h = refl
copy_loop_lem (suc left) (b ∷ q) [] rest t h = refl
copy_loop_lem zero (b ∷ q) (c ∷ s) rest t h =
    let ends : (c == 0) ≡ false = ground (arith, t.0) in rw ends
copy_loop_lem (suc left) (b ∷ q) (c ∷ s) rest t h =
    let ends : (c == 0) ≡ false = ground (arith, t.0) in
    let full : (suc left == 0) ≡ false = ground arith in
    let on : suc left - 1 ≡ left = omega arith in
    rw (ends, full, on, copy_loop_lem left q s rest t.1 (omega arith))

strlen_lem : (s rest : List ℕ) → IsText s → strlen (s ++ (0 ∷ rest)) ≡ some (length s)
unfolding strlen
strlen_lem [] rest t = refl
strlen_lem (c ∷ s) rest t =
    let ends : (c == 0) ≡ false = ground (arith, t.0) in rw (ends, strlen_lem s rest t.1)

-- `pstrcpy` into a buffer of `buf_size` bytes, which is not 0: the string is there, cut to
-- `buf_size - 1` bytes, and ended; what lies behind is as it was, and no byte past the buffer or
-- past the string is touched.
pub pstrcpy_lem :
    (buf s rest : List ℕ) (buf_size : ℕ)
    → IsText s
    → 0 < buf_size
    → buf_size ≤ length buf
    → pstrcpy buf buf_size (s ++ (0 ∷ rest)) ≡ some (filled (buf_size - 1) buf s)
unfolding pstrcpy
pstrcpy_lem buf s rest buf_size t pos h =
    let some_room : (buf_size == 0) ≡ false = ground arith in
    rw some_room (copy_loop_lem (buf_size - 1) buf s rest t (omega arith))

-- `pstrcat` to a string in a buffer of `buf_size` bytes: both strings are there, cut to
-- `buf_size - 1` bytes and ended, and what lies behind is as it was.
pub pstrcat_lem :
    (t s more rest : List ℕ) (buf_size : ℕ)
    → IsText t
    → IsText s
    → length t < buf_size
    → buf_size ≤ length (t ++ (0 ∷ more))
    → pstrcat (t ++ (0 ∷ more)) buf_size (s ++ (0 ∷ rest))
      ≡ some (t ++ filled (buf_size - length t - 1) (0 ∷ more) s)
unfolding pstrcat pstrcat_at
pstrcat_lem t s more rest buf_size tt' ts h fits = rw (
  strlen_lem t more tt',
  lt→ltb (length t) buf_size h,
  drop-length t (0 ∷ more),
  take-length t (0 ∷ more),
  pstrcpy_lem (0 ∷ more) s rest (buf_size - length t) ts (omega arith)
      (omega (arith, length-append t (0 ∷ more))),
)

starts :
    (str v more p : List ℕ)
    → IsText v
    → str ++ (0 ∷ []) ≡ v ++ p
    → strstart (str ++ (0 ∷ [])) (v ++ (0 ∷ more)) ≡ some (some p)
unfolding strstart
starts [] [] more p tv e = ap (λ (l : List ℕ). some (some l)) e
starts (d ∷ str) [] more p tv e = ap (λ (l : List ℕ). some (some l)) e
starts [] (c ∷ v) more p tv e = absurd (tv.0 (ap (λ (l : List ℕ). get_or l 0 0) (sym e)))
starts (d ∷ str) (c ∷ v) more p tv e =
    let ends : (c == 0) ≡ false = ground (arith, tv.0) in
    let same : (d == c) ≡ true = (==_iff _ _).1 (ap (λ (l : List ℕ). get_or l 0 0) e) in
    rw (ends, same) (starts str v more p tv.1 (ap (drop 1) e))

found_prefix :
    (str v more p : List ℕ)
    → IsText v
    → strstart (str ++ (0 ∷ [])) (v ++ (0 ∷ more)) ≡ some (some p)
    → str ++ (0 ∷ []) ≡ v ++ p
unfolding strstart
found_prefix [] [] more p tv e = ap the_rest e
found_prefix (d ∷ str) [] more p tv e = ap the_rest e
found_prefix [] (c ∷ v) more p tv e =
    let ends : (c == 0) ≡ false = ground (arith, tv.0) in
    let other : (0 == c) ≡ false = ground (arith, tv.0) in
    absurd (not_found (rw (ends, other) at e))
found_prefix (d ∷ str) (c ∷ v) more p tv e =
    let ends : (c == 0) ≡ false = ground (arith, tv.0) in
    elim (Bool-cases (d == c)) [
      | inl same ↦
          rw ((==_iff _ _).0 same)
            (ap (◌∷◌ c) (found_prefix str v more p tv.1 (rw (ends, same) at e)))
      | inr other ↦ absurd (not_found (rw (ends, other) at e))
    ]

-- `strstart` finds exactly the prefixes of `str`, and what follows them up to the end of `str`.
pub strstart_iff :
    (str v more p : List ℕ)
    → IsText v
    → (strstart (str ++ (0 ∷ [])) (v ++ (0 ∷ more)) ≡ some (some p)) ↔ (str ++ (0 ∷ []) ≡ v ++ p)
strstart_iff str v more p tv = (found_prefix str v more p tv, starts str v more p tv)
