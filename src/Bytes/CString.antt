-- ===== src/Bytes/CString.antt =====
-- Strings of C: `pstrcpy`, `pstrcat` and `strstart` of Sources/QuickJSC/cutils.c. A pointer is the
-- list of the bytes from there to the end of its memory; `none` is an access past that end.
pub mod Copy
use quick_js_swift.Base.{
  ℕ, zero, suc, ◌+◌, ◌-◌, ◌<◌, List, [], ◌∷◌, ◌++◌, Bool, true, false, Option, none, some, ltb,
  ◌==◌, ◌||◌, if◌then◌else◌, take, drop,
}
use mathlib.Core.Option.{map}

pub strlen : List ℕ → Option ℕ
strlen [] = none
strlen (c ∷ str) = let rest = map (λ (n : ℕ). suc n) (strlen str) in if c == 0 then some 0 else rest

-- The loop at `q`, `left` bytes before the last of the buffer.
pub copy_loop : ℕ → List ℕ → List ℕ → Option (List ℕ)
copy_loop left q [] = none
copy_loop left [] (c ∷ str) = none
copy_loop left (b ∷ q) (c ∷ str) =
    let rest = map (λ (q' : List ℕ). c ∷ q') (copy_loop (left - 1) q str) in
    if c == 0 || left == 0 then some (0 ∷ q) else rest

-- What is left in the memory at `buf`. A `buf_size` of 0 stands for those below, too.
pub pstrcpy : List ℕ → ℕ → List ℕ → Option (List ℕ)
unfolding copy_loop
pstrcpy buf buf_size str =
    let copied = copy_loop (buf_size - 1) buf str in if buf_size == 0 then some buf else copied

pub pstrcat_at : List ℕ → ℕ → List ℕ → Option ℕ → Option (List ℕ)
unfolding pstrcpy
pstrcat_at buf buf_size s none = none
pstrcat_at buf buf_size s (some len) =
    let copied = pstrcpy (drop len buf) (buf_size - len) s in
    if ltb len buf_size then map (λ (q : List ℕ). take len buf ++ q) copied else some buf

pub pstrcat : List ℕ → ℕ → List ℕ → Option (List ℕ)
unfolding pstrcat_at strlen
pstrcat buf buf_size s = pstrcat_at buf buf_size s (strlen buf)

-- 1 and `*ptr`, or 0 (`some none`).
pub strstart : List ℕ → List ℕ → Option (Option (List ℕ))
strstart p [] = none
strstart [] (c ∷ q) = if c == 0 then some (some []) else none
strstart (d ∷ p) (c ∷ q) =
    let rest = strstart p q in
    if c == 0 then some (some (d ∷ p)) else if d == c then rest else some none
