-- ===== src/Bytes/DynBuf/Append.antt =====
-- What the writing functions leave in a buffer, and what a refused reallocation leaves.
use quick_js_swift.Base.{
  ℕ, zero, suc, ◌+◌, ◌%◌, ◌^◌, ◌≤◌, ◌<◌, ◌≡◌, refl, sym, ap, ◌∙◌, ◌⊎◌, inl, inr, List, [], ◌∷◌,
  ◌++◌, true, false, Option, none, some, ltb, length, take, drop, arith, length-append, length-take,
  length-drop, drop_all, max, Bool-cases,
}
use mathlib.Core.List.{append-nil}
use mathlib.Core.Path.{ap₂, subst}
use quick_js_swift.Bytes.DynBuf.{
  DynBuf, Outcome, ◌>>=◌, size_t, copy_to, contents, dbuf_realloc, answered, grown, dbuf_write,
  make_room, dbuf_put, dbuf_put_self,
}

-- What `realloc` promises: a block of the size asked for that begins with the old one.
pub record Reallocates {S : Type 0} (realloc : S → List ℕ → ℕ → S × Option (List ℕ)) : Type 0 where
  pub sized :
      (s : S) (buf : List ℕ) (n : ℕ) (out : List ℕ)
      → (realloc s buf n).1 ≡ some out
      → length out ≡ n
  pub kept :
      (s : S) (buf : List ℕ) (n : ℕ) (out : List ℕ)
      → (realloc s buf n).1 ≡ some out
      → length buf ≤ n
      → take (length buf) out ≡ buf

pub record IsValid {S : Type 0} (s : DynBuf S) : Type 0 where
  pub whole : length s.buf ≡ s.allocated_size
  pub within : s.size ≤ s.allocated_size

-- `r` succeeded, with room for `n` bytes and the contents of `s`; or it failed, with the error
-- flag set and the buffer as it was.
pub data MadeRoom {S : Type 0} (s : DynBuf S) (n : ℕ) : Outcome S → Type 0 where
  room :
      (s' : DynBuf S)
      → IsValid s'
      → contents s' ≡ contents s
      → s'.size ≡ s.size
      → s'.error ≡ s.error
      → n ≤ s'.allocated_size
      → MadeRoom s n (s', true)
  refused :
      (s' : DynBuf S)
      → s'.buf ≡ s.buf
      → s'.size ≡ s.size
      → s'.allocated_size ≡ s.allocated_size
      → s'.error ≡ true
      → MadeRoom s n (s', false)

take_prefix : (n m : ℕ) (xs ys : List ℕ) → n ≤ m → take m ys ≡ xs → take n ys ≡ take n xs
take_prefix zero m xs ys h e = refl
take_prefix (suc n) zero xs ys h e = absurd (omega arith)
take_prefix (suc n) (suc m) xs [] h e = ap (take (suc n)) e
take_prefix (suc n) (suc m) [] (y ∷ ys) h e = absurd (omega (arith, ap length e))
take_prefix (suc n) (suc m) (x ∷ xs) (y ∷ ys) h e =
    ground (arith, take_prefix n m xs ys (omega arith))

-- Bytes copied from the start of a block, seen through its first `n` bytes.
take-copy_front :
    (src buf : List ℕ) (n : ℕ)
    → n ≤ length buf
    → length src ≤ length buf
    → take (max (length src) n) (src ++ drop (length src) buf)
      ≡ src ++ drop (length src) (take n buf)
take-copy_front [] buf n h k = let e : max 0 n ≡ n = omega arith in rw e
take-copy_front (x ∷ src) [] n h k = absurd (omega arith)
take-copy_front (x ∷ src) (b ∷ buf) zero h k =
    let e : max (suc (length src)) zero ≡ suc (max (length src) zero) = omega arith in
    rw e (ap (◌∷◌ x) (take-copy_front src buf zero (omega arith) (omega arith) ∙ nothing src buf))
  where
    nothing : (src buf : List ℕ) → src ++ drop (length src) (take zero buf) ≡ src ++ []
    nothing src buf = ap (◌++◌ src) (drop_all (length src) [] (omega arith))
take-copy_front (x ∷ src) (b ∷ buf) (suc n) h k =
    let e : max (suc (length src)) (suc n) ≡ suc (max (length src) n) = omega arith in
    rw e (ap (◌∷◌ x) (take-copy_front src buf n (omega arith) (omega arith)))

take-copy_to :
    (off : ℕ) (buf src : List ℕ) (n : ℕ)
    → off ≤ n
    → n ≤ length buf
    → off + length src ≤ length buf
    → take (max (off + length src) n) (copy_to buf off src) ≡ copy_to (take n buf) off src
take-copy_to zero buf src n h k l =
    let e : 0 + length src ≡ length src = omega arith in
    rw e (take-copy_front src buf n k (omega arith))
take-copy_to (suc off) buf src zero h k l = absurd (omega arith)
take-copy_to (suc off) [] src (suc n) h k l = absurd (omega arith)
take-copy_to (suc off) (b ∷ buf) src (suc n) h k l =
    let e : max (suc off + length src) (suc n) ≡ suc (max (off + length src) n) = omega arith in
    let f : suc off + length src ≡ suc (off + length src) = omega arith in
    rw (e, f) (ap (◌∷◌ b) (take-copy_to off buf src n (omega arith) (omega arith) (omega arith)))

length-copy_to :
    (buf src : List ℕ) (off : ℕ)
    → off + length src ≤ length buf
    → length (copy_to buf off src) ≡ length buf
length-copy_to buf src off h = omega (
  arith,
  length-append (take off buf) (src ++ drop (off + length src) buf),
  length-append src (drop (off + length src) buf),
  length-take off buf,
  length-drop (off + length src) buf,
)

slice-take :
    (off len n : ℕ) (xs : List ℕ)
    → off + len ≤ n
    → take len (drop off (take n xs)) ≡ take len (drop off xs)
slice-take zero len n xs h = sym (take_prefix len n (take n xs) xs (omega arith) refl)
slice-take (suc off) len zero xs h = absurd (omega arith)
slice-take (suc off) len (suc n) [] h = refl
slice-take (suc off) len (suc n) (x ∷ xs) h = slice-take off len n xs (omega arith)

-- At the end of what is held, a copy is an addition.
copy_to_end : (xs src : List ℕ) → copy_to xs (length xs) src ≡ xs ++ src
copy_to_end xs src =
    ap₂ ◌++◌ (take_all xs)
      (ap (◌++◌ src) (drop_all (length xs + length src) xs (omega arith)) ∙ append-nil src)
  where
    take_all : (xs : List ℕ) → take (length xs) xs ≡ xs
    take_all [] = refl
    take_all (x ∷ xs) = ap (◌∷◌ x) (take_all xs)

grown-le : {S : Type 0} (s : DynBuf S) (n : ℕ) → n ≤ grown s n
grown-le s n = ground arith

module _ {S : Type 0} where
  -- The result of a writing function: it stored `new` and returned 0, or it returned -1 with the
  -- error flag set and the contents unchanged.
  abbrev pub Stored : DynBuf S → List ℕ → Outcome S → Type 0
  Stored s new r =
      ((r.1 ≡ true) × IsValid r.0 × (contents r.0 ≡ new) × (r.0.error ≡ s.error))
      ⊎ ((r.1 ≡ false) × (contents r.0 ≡ contents s) × (r.0.error ≡ true))

  -- A buffer with room for `n` bytes and the contents of `s`.
  record HasRoom (s : DynBuf S) (n : ℕ) (s' : DynBuf S) : Type 0 where
    valid : IsValid s'
    same : contents s' ≡ contents s
    same_size : s'.size ≡ s.size
    same_error : s'.error ≡ s.error
    fits : n ≤ s'.allocated_size

  >>=-Stored :
      (s : DynBuf S) (n : ℕ) (new : List ℕ) (m : Outcome S) (f : DynBuf S → Outcome S)
      → MadeRoom s n m
      → ((s' : DynBuf S) → HasRoom s n s' → Stored s new (f s'))
      → Stored s new (m >>= f)
  >>=-Stored s n new m f (room s' v c z e h) k =
      k s' (record { valid = v; same = c; same_size = z; same_error = e; fits = h })
  >>=-Stored s n new m f (refused s' b z a e) k = inr (refl, ap₂ take z b, e)

  -- Once there is room, a copy at `off` and the new size store the bytes.
  copy-Stored :
      (s : DynBuf S) (off size : ℕ) (src : List ℕ) (s' : DynBuf S)
      → HasRoom s (off + length src) s'
      → off ≤ s.size
      → size ≡ max (off + length src) s.size
      → Stored s
          (copy_to (contents s) off src)
          (record s' { buf = copy_to s'.buf off src; size = size }, true)
  copy-Stored s off size src s' r h e =
      let fits : off + length src ≤ length s'.buf = omega (arith, r.fits, r.valid.whole) in
      inl (
        refl,
        record {
          whole = length-copy_to s'.buf src off fits ∙ r.valid.whole;
          within = omega (arith, r.fits, r.valid.within, r.same_size);
        },
        rw e (
            take-copy_to off s'.buf src s.size h
              (omega (arith, r.valid.whole, r.valid.within, r.same_size)) fits
            ∙ ap (λ (l : List ℕ). copy_to l off src)
                (ap (λ (k : ℕ). take k s'.buf) (sym r.same_size) ∙ r.same)),
        r.same_error,
      )

  pub length-contents : (s : DynBuf S) → IsValid s → length (contents s) ≡ s.size
  length-contents s v = omega (arith, length-take s.size s.buf, v.whole, v.within)

  -- A copy at the end, as `dbuf_put` and `dbuf_put_self` make it.
  append-Stored :
      (s : DynBuf S) (src : List ℕ) (n : ℕ) (s' : DynBuf S)
      → IsValid s
      → n ≡ length src
      → s.size + n < 2 ^ 64
      → HasRoom s (s.size + n) s'
      → Stored s
          (contents s ++ src)
          (record s' { buf = copy_to s'.buf s'.size src; size = size_t (s'.size + n) }, true)
  append-Stored s src n s' v e h r =
      subst
        (λ new.
          Stored s new
            (record s' { buf = copy_to s'.buf s'.size src; size = size_t (s'.size + n) }, true))
        (ap (λ k. copy_to (contents s) k src) (r.same_size ∙ sym (length-contents s v))
          ∙ copy_to_end (contents s) src)
        (copy-Stored s s'.size (size_t (s'.size + n)) src s'
          (record {
            valid = r.valid;
            same = r.same;
            same_size = r.same_size;
            same_error = r.same_error;
            fits = omega (arith, r.fits, r.same_size, e);
          })
          (omega (arith, r.same_size)) (omega (arith, r.same_size, e)))

module _ {S : Type 0} (realloc : S → List ℕ → ℕ → S × Option (List ℕ))
    (law : Reallocates realloc) where
  answered-MadeRoom :
      (s : DynBuf S) (n size : ℕ) (a : S × Option (List ℕ))
      → IsValid s
      → s.allocated_size ≤ size
      → n ≤ size
      → realloc s.opaque s.buf size ≡ a
      → MadeRoom s n (answered s size a)
  unfolding answered
  answered-MadeRoom s n size (opaque, none) v le fits e =
      refused (record s { error = true; opaque = opaque }) refl refl refl refl
  answered-MadeRoom s n size (opaque, some buf) v le fits e =
      let got = ap (λ (r : S × Option (List ℕ)). r.1) e in
      room (record s { buf = buf; allocated_size = size; opaque = opaque })
        (record { whole = law.sized s.opaque s.buf size buf got; within = omega (arith, v.within) })
        (take_prefix s.size (length s.buf) s.buf buf (omega (arith, v.whole, v.within))
          (law.kept s.opaque s.buf size buf got (omega (arith, v.whole))))
        refl refl fits

  dbuf_realloc-MadeRoom :
      (s : DynBuf S) (n : ℕ) → IsValid s → MadeRoom s n (dbuf_realloc realloc s n)
  unfolding dbuf_realloc
  dbuf_realloc-MadeRoom s n v = elim (Bool-cases (ltb s.allocated_size n)) [
    | inr enough ↦ rw enough (room s v refl refl refl (ground arith))
    | inl short ↦ elim (Bool-cases s.error) [
      | inl bad ↦ simp (short, bad) (refused s refl refl refl bad)
      | inr good ↦
          simp (short, good)
            (answered-MadeRoom s n (grown s n) _ v (ground arith) (grown-le s n) refl)
    ]
  ]

  make_room-MadeRoom :
      (s : DynBuf S) (len : ℕ)
      → IsValid s
      → s.size + len < 2 ^ 64
      → MadeRoom s (s.size + len) (make_room realloc s len)
  unfolding make_room
  make_room-MadeRoom s len v h =
      let no_wrap : (s.size + len) % 2 ^ 64 ≡ s.size + len = omega arith in
      rw no_wrap (elim (Bool-cases (ltb s.allocated_size (s.size + len))) [
        | inl short ↦ rw short (dbuf_realloc-MadeRoom s (s.size + len) v)
        | inr enough ↦ rw enough (room s v refl refl refl (ground arith))
      ])

  -- `dbuf_put`: the bytes are added at the end and 0 is returned; or a refused reallocation
  -- returns -1, sets the error flag and leaves the contents.
  pub dbuf_put_lem :
      (s : DynBuf S) (src : List ℕ)
      → IsValid s
      → s.size + length src < 2 ^ 64
      → Stored s (contents s ++ src) (dbuf_put realloc s src)
  unfolding dbuf_put
  dbuf_put_lem s src v h =
      >>=-Stored s (s.size + length src) _ (make_room realloc s (length src)) _
        (make_room-MadeRoom s (length src) v h)
        λ s' r. append-Stored s src (length src) s' v refl h r

  -- `dbuf_write` at an offset within the contents: the bytes there are replaced and what reaches
  -- past the end is added, and 0 is returned; or a refused reallocation returns -1, sets the error
  -- flag and leaves the contents.
  pub dbuf_write_lem :
      (s : DynBuf S) (off : ℕ) (src : List ℕ)
      → IsValid s
      → off ≤ s.size
      → off + length src < 2 ^ 64
      → Stored s
          (take off (contents s) ++ (src ++ drop (off + length src) (contents s)))
          (dbuf_write realloc s off src)
  unfolding dbuf_write
  dbuf_write_lem s off src v h fits =
      let no_wrap : (off + length src) % 2 ^ 64 ≡ off + length src = omega arith in
      rw no_wrap (
        >>=-Stored s (off + length src) _ (dbuf_realloc realloc s (off + length src)) _
          (dbuf_realloc-MadeRoom s (off + length src) v)
          λ s' r. copy-Stored s off _ src s' r h (ground (arith, r.same_size)))

  -- `dbuf_put_self`: `len` bytes of the contents from `off` on are added once more, or a refused
  -- reallocation returns -1, sets the error flag and leaves the contents.
  pub dbuf_put_self_lem :
      (s : DynBuf S) (off len : ℕ)
      → IsValid s
      → off + len ≤ s.size
      → s.size + len < 2 ^ 64
      → Stored s (contents s ++ take len (drop off (contents s))) (dbuf_put_self realloc s off len)
  unfolding dbuf_put_self
  dbuf_put_self_lem s off len v h fits =
      >>=-Stored s (s.size + len) _ (make_room realloc s len) _ (make_room-MadeRoom s len v fits)
        λ s' r.
          let slice = take len (drop off s'.buf) in
          let same : slice ≡ take len (drop off (contents s)) =
            sym (slice-take off len s'.size s'.buf (omega (arith, r.same_size)))
            ∙ ap (λ (l : List ℕ). take len (drop off l)) r.same in
          let whole : len ≡ length slice = omega (
            arith,
            length-take len (drop off s'.buf),
            length-drop off s'.buf,
            r.valid.whole,
            r.valid.within,
            r.same_size,
          ) in
          rw (← same) (append-Stored s slice len s' v whole fits r)
