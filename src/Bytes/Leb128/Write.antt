-- ===== src/Bytes/Leb128/Write.antt =====
-- What `dbuf_put_leb128` and `dbuf_put_sleb128` leave in a buffer, and that the readers undo them.
use quick_js_swift.Base.{
  ℕ, zero, suc, ◌+◌, ◌/◌, ◌%◌, ◌^◌, ◌≤◌, ◌<◌, ◌≡◌, refl, sym, ap, ◌∙◌, inl, inr, List, [], ◌∷◌,
  ◌++◌, false, Option, some, ltb, ltb→lt, ◌==◌, length, arith, Bool-cases, bit_and, bit_or,
}
use native.Mathlib.Nat.{pow-suc}
use mathlib.Core.List.{append-nil}
use mathlib.Core.Path.{fun_ext}
use quick_js_swift.Base.Bits.{and_ones, low_or_high}
use quick_js_swift.Bytes.DynBuf.{DynBuf, contents, dbuf_putc}
use quick_js_swift.Bytes.DynBuf.Append.{Reallocates, IsValid}
use quick_js_swift.Bytes.DynBuf.Extend.{
  Extends, Writes, Writes-then, Serves, dbuf_putc-Writes, dbuf_putc_served,
}
use quick_js_swift.Bytes.Leb128.{
  put_loop, dbuf_put_leb128, dbuf_put_sleb128, zigzag, get_leb128, get_sleb128,
}
use quick_js_swift.Bytes.Leb128.RoundTrip.{
  groups, groups_last, groups_more, length-groups, get_leb128-groups, get_sleb128-groups, zigzag-lt,
}

plain : (v : ℕ) → v < 128 → bit_and v 0x7f % 2 ^ 8 ≡ v
plain v h = ap (λ (t : ℕ). t % 2 ^ 8) (and_ones 7 v) ∙ omega arith

marked : (v : ℕ) → bit_or (bit_and v 0x7f) 0x80 % 2 ^ 8 ≡ v % 128 + 128
marked v =
    ap (λ (t : ℕ). t % 2 ^ 8)
      (ap (λ (t : ℕ). bit_or t 0x80) (and_ones 7 v) ∙ low_or_high 7 (v % 128) 1 (omega arith))
    ∙ omega arith

module _ {S : Type 0} (realloc : S → List ℕ → ℕ → S × Option (List ℕ)) where
  put_loop-last :
      (fuel v : ℕ) (s : DynBuf S)
      → v < 128
      → put_loop realloc (suc fuel) s v ≡ (dbuf_putc realloc s (bit_and v 0x7f)).0
  unfolding put_loop
  put_loop-last fuel v s h = let e : v / 2 ^ 7 ≡ 0 = omega arith in rw e

  put_loop-more :
      (fuel v : ℕ) (s : DynBuf S)
      → 128 ≤ v
      → put_loop realloc (suc fuel) s v
        ≡ put_loop realloc fuel (dbuf_putc realloc s (bit_or (bit_and v 0x7f) 0x80)).0 (v / 128)
  unfolding put_loop
  put_loop-more fuel v s h = let e : (v / 2 ^ 7 == 0) ≡ false = ground arith in rw e

  -- A byte, by its value.
  byte-Writes :
      Reallocates realloc
      → (c b : ℕ) → c % 2 ^ 8 ≡ b
      → Writes (b ∷ []) (λ s. (dbuf_putc realloc s c).0)
  byte-Writes law c b e = rw (← e) (dbuf_putc-Writes realloc law c)

  put_loop-Writes :
      Reallocates realloc
      → (fuel v : ℕ) → v < 128 ^ fuel
      → Writes (groups fuel v) (λ s. put_loop realloc fuel s v)
  put_loop-Writes law zero v h =
      unfold put_loop groups in
      record {
        sticky = λ s e. e;
        extends = λ s valid h. inr (valid, sym (append-nil (contents s)), refl);
      }
  put_loop-Writes law (suc fuel) v h = elim (Bool-cases (ltb v 128)) [
    | inl small ↦
        let lt = ltb→lt v 128 small in
        rw (groups_last fuel v lt, fun_ext (λ (s : DynBuf S). put_loop-last fuel v s lt))
          (byte-Writes law (bit_and v 0x7f) v (plain v lt))
    | inr big ↦
        let ge : 128 ≤ v = ground arith in
        rw (groups_more fuel v ge, fun_ext (λ (s : DynBuf S). put_loop-more fuel v s ge))
          (Writes-then ((v % 128 + 128) ∷ []) (groups fuel (v / 128)) _ _
            (byte-Writes law (bit_or (bit_and v 0x7f) 0x80) (v % 128 + 128) (marked v))
            (put_loop-Writes law fuel (v / 128) (omega (arith, pow-suc 128 fuel))))
  ]

  pub dbuf_put_leb128-Writes :
      Reallocates realloc
      → (v : ℕ) → v < 2 ^ 32
      → Writes (groups 5 v) (λ s. dbuf_put_leb128 realloc s v)
  unfolding dbuf_put_leb128
  dbuf_put_leb128-Writes law v h = put_loop-Writes law 5 v (omega arith)

  pub dbuf_put_sleb128-Writes :
      Reallocates realloc
      → (v : ℕ) → v < 2 ^ 32
      → Writes (groups 5 (zigzag v)) (λ s. dbuf_put_sleb128 realloc s v)
  unfolding dbuf_put_sleb128
  dbuf_put_sleb128-Writes law v h = dbuf_put_leb128-Writes law (zigzag v) (zigzag-lt v h)

  put_loop_served :
      Serves realloc
      → (fuel v : ℕ) (s : DynBuf S) → s.error ≡ false
      → (put_loop realloc fuel s v).error ≡ false
  put_loop_served serves zero v s e = unfold put_loop in e
  put_loop_served serves (suc fuel) v s e = elim (Bool-cases (ltb v 128)) [
    | inl small ↦
        rw (put_loop-last fuel v s (ltb→lt v 128 small))
          (dbuf_putc_served realloc serves (bit_and v 0x7f) s e)
    | inr big ↦ rw (put_loop-more fuel v s (ground arith)) (
        put_loop_served serves fuel (v / 128) _
          (dbuf_putc_served realloc serves (bit_or (bit_and v 0x7f) 0x80) s e))
  ]

  pub dbuf_put_leb128_served :
      Serves realloc
      → (v : ℕ) (s : DynBuf S) → s.error ≡ false
      → (dbuf_put_leb128 realloc s v).error ≡ false
  unfolding dbuf_put_leb128
  dbuf_put_leb128_served serves v s e = put_loop_served serves 5 v s e

  pub dbuf_put_sleb128_served :
      Serves realloc
      → (v : ℕ) (s : DynBuf S) → s.error ≡ false
      → (dbuf_put_sleb128 realloc s v).error ≡ false
  unfolding dbuf_put_sleb128
  dbuf_put_sleb128_served serves v s e = dbuf_put_leb128_served serves (zigzag v) s e

  -- With an allocator that serves, `dbuf_put_leb128` adds bytes from which `get_leb128` reads any
  -- `uint32_t` back, whatever follows them, and `dbuf_put_sleb128` with `get_sleb128` does so for
  -- any `int32_t` (as its bit pattern); both count the bytes, and the error flag stays clear.
  pub get_leb128-dbuf_put_leb128 :
      (s : DynBuf S) (v : ℕ) (rest : List ℕ)
      → Reallocates realloc
      → Serves realloc
      → IsValid s
      → s.error ≡ false
      → s.size + 5 < 2 ^ 64
      → v < 2 ^ 32
      → ((bytes : List ℕ) × (contents (dbuf_put_leb128 realloc s v) ≡ contents s ++ bytes)
          × ((dbuf_put_leb128 realloc s v).error ≡ false)
          × (get_leb128 (bytes ++ rest) ≡ (some (length bytes), v)))
        × ((bytes : List ℕ) × (contents (dbuf_put_sleb128 realloc s v) ≡ contents s ++ bytes)
            × ((dbuf_put_sleb128 realloc s v).error ≡ false)
            × (get_sleb128 (bytes ++ rest) ≡ (some (length bytes), v)))
  get_leb128-dbuf_put_leb128 s v rest law serves valid e fits h =
      let u = dbuf_put_leb128_served serves v s e in
      let i = dbuf_put_sleb128_served serves v s e in
      (
        (
          groups 5 v,
          held _ _ u
              ((dbuf_put_leb128-Writes law v h).extends s valid (omega (arith, length-groups 5 v))),
          u,
          get_leb128-groups v rest h,
        ),
        (
          groups 5 (zigzag v),
          held _ _ i (
              (dbuf_put_sleb128-Writes law v h).extends s valid
                (omega (arith, length-groups 5 (zigzag v)))),
          i,
          get_sleb128-groups v rest h,
        ),
      )
    where
      held :
          (bytes : List ℕ) (s' : DynBuf S)
          → s'.error ≡ false
          → Extends s bytes s'
          → contents s' ≡ contents s ++ bytes
      held bytes s' ok (inl bad) = cc
      held bytes s' ok (inr (_, c, _)) = c
