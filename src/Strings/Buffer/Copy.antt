-- ===== src/Strings/Buffer/Copy.antt =====
-- Writers of several units: codes, arrays of units, parts of strings, and runs of one unit.
use quick_js_swift.Base.{
  ℕ, zero, suc, ◌+◌, ◌-◌, ◌/◌, ◌%◌, ◌^◌, ◌≤◌, ◌<◌, ◌≡◌, ◌⊎◌, refl, sym, ap, inl, inr, List, [], ◌∷◌,
  ◌++◌, Bool, true, false, ◌&&◌, not, ltb, leb, leb→le, if◌then◌else◌, Bool-cases, length,
  length-append, arith, take, drop, bit_and, bit_or,
}
use mathlib.Core.List.{append_assoc, append-nil}
use quick_js_swift.Base.Bits.{and_ones, le-bit_or}
use quick_js_swift.Strings.Buffer.{
  JsString, Memory, StringBuffer, ◌>>=◌, all_bits, string_buffer_widen, string_buffer_realloc,
  string_buffer_putc16, string_buffer_putc, string_buffer_write8, string_buffer_write16,
  string_buffer_concat, fill_loop, string_buffer_fill,
}
use quick_js_swift.Strings.Buffer.Writes.{
  IsValid, AreUnits, narrow_units, Leaves, MakesRoom, narrow_or_wide, string_buffer_widen-MakesRoom,
  string_buffer_realloc-MakesRoom,
}
use quick_js_swift.Strings.Buffer.Append.{
  stored-Leaves, if-Leaves, >>=-Leaves, >>=-Leaves_then, along_units, room, putc16-Leaves,
}

-- The units of a code: itself, or a surrogate pair.
unfoldable pub utf16 : ℕ → List ℕ
utf16 c =
    if leb 0x10000 c
    then ((c - 0x10000) / 2 ^ 10 + 0xd800) ∷ ((c - 0x10000) % 2 ^ 10 + 0xdc00) ∷ []
    else c ∷ []

-- Each unit is below a power of two that bounds them together.
le-all_bits : (c : ℕ) (src : List ℕ) → c ≤ all_bits c src
unfolding all_bits
le-all_bits c [] = omega arith
le-all_bits c (x ∷ src) = omega (arith, le-bit_or c x, le-all_bits (bit_or c x) src)

narrow-all_bits : (c : ℕ) (src : List ℕ) → all_bits c src < 0x100 → AreUnits false src
unfolding all_bits
narrow-all_bits c [] h = tt
narrow-all_bits c (x ∷ src) h =
    (omega (arith, le-bit_or c x, le-all_bits (bit_or c x) src), narrow-all_bits (bit_or c x) src h)

AreUnits-either :
    (wide : Bool) (src : List ℕ)
    → AreUnits true src
    → (wide ≡ true) ⊎ (all_bits 0 src < 0x100)
    → AreUnits wide src
AreUnits-either true src u b = u
AreUnits-either false src u (inl bad) = cc
AreUnits-either false src u (inr small) = narrow-all_bits 0 src small

AreUnits-narrow : (wide : Bool) (src : List ℕ) → AreUnits false src → AreUnits wide src
AreUnits-narrow true src u = narrow_units src u
AreUnits-narrow false src u = u

-- A part of a string has units of its width.
part-AreUnits :
    (wide : Bool) (from n : ℕ) (src : List ℕ)
    → AreUnits wide src
    → AreUnits wide (take n (drop from src))
part-AreUnits wide zero zero src u = tt
part-AreUnits wide zero (suc n) [] u = tt
part-AreUnits wide zero (suc n) (x ∷ src) u = (u.0, part-AreUnits wide zero n src u.1)
part-AreUnits wide (suc from) zero [] u = tt
part-AreUnits wide (suc from) (suc n) [] u = tt
part-AreUnits wide (suc from) n (x ∷ src) u = part-AreUnits wide from n src u.1

-- The units of a string fit its width.
abbrev pub IsString : JsString → Type 0
IsString p = AreUnits p.is_wide_char p.chars

abbrev pub replicate : ℕ → ℕ → List ℕ
replicate zero c = []
replicate (suc n) c = c ∷ replicate n c

length-replicate : (n c : ℕ) → length (replicate n c) ≡ n
length-replicate zero c = refl
length-replicate (suc n) c = ap suc (length-replicate n c)

module _ {W : Type 0} (mem : Memory W) where
  pub putc-Leaves :
      (s : StringBuffer W) (c : ℕ)
      → IsValid s
      → c < 0x110000
      → Leaves mem (s.chars ++ utf16 c) (string_buffer_putc mem s c)
  unfolding string_buffer_putc utf16
  putc-Leaves s c v l = elim (Bool-cases (leb 0x10000 c)) [
    | inl pair ↦
        let d = c - 0x10000 in
        let low : bit_and d 0x3ff ≡ d % 2 ^ 10 = and_ones 10 d in
        rw (pair, low)
          (along_units mem
            ((s.chars ++ ((d / 2 ^ 10 + 0xd800) ∷ [])) ++ ((d % 2 ^ 10 + 0xdc00) ∷ [])) _ _
            (append_assoc s.chars _ _)
            (>>=-Leaves_then mem _ _ (string_buffer_putc16 mem s (d / 2 ^ 10 + 0xd800)) _
              (putc16-Leaves mem s (d / 2 ^ 10 + 0xd800) v (omega (arith, leb→le _ _ pair)))
              (omega (
                arith,
                length-append (s.chars ++ ((d / 2 ^ 10 + 0xd800) ∷ []))
                    ((d % 2 ^ 10 + 0xdc00) ∷ []),
              ))
              λ s' v' e.
                along_units mem _ _ _ (ap (λ (t : List ℕ). t ++ ((d % 2 ^ 10 + 0xdc00) ∷ [])) e)
                  (putc16-Leaves mem s' (d % 2 ^ 10 + 0xdc00) v' (omega arith))))
    | inr one ↦ rw one (putc16-Leaves mem s c v (ground arith))
  ]

  pub write8-Leaves :
      (s : StringBuffer W) (p : List ℕ)
      → IsValid s
      → AreUnits false p
      → Leaves mem (s.chars ++ p) (string_buffer_write8 mem s p)
  unfolding string_buffer_write8
  write8-Leaves s p v u =
      >>=-Leaves mem s.chars _ (length s.chars + length p) 0 _ _
        (room mem s (length s.chars + length p) 0 (ltb s.size (length s.chars + length p)) v
          (omega arith) λ enough. (ground arith, inr (omega arith)))
        (omega (arith, length-append s.chars p))
        λ s' v' e h b. stored-Leaves mem s' s.chars p v' e h (AreUnits-narrow s'.is_wide_char p u)

  pub write16-Leaves :
      (s : StringBuffer W) (p : List ℕ)
      → IsValid s
      → AreUnits true p
      → Leaves mem (s.chars ++ p) (string_buffer_write16 mem s p)
  unfolding string_buffer_write16
  write16-Leaves s p v u =
      >>=-Leaves mem s.chars _ (length s.chars + length p) (all_bits 0 p) _ _
        (ready (Bool-cases (ltb s.size (length s.chars + length p)))
          (Bool-cases (not s.is_wide_char && leb 0x100 (all_bits 0 p))))
        (omega (arith, length-append s.chars p))
        λ s' v' e h b. stored-Leaves mem s' s.chars p v' e h (AreUnits-either s'.is_wide_char p u b)
    where
      ready :
          (ltb s.size (length s.chars + length p) ≡ true)
            ⊎ (ltb s.size (length s.chars + length p) ≡ false)
          → ((not s.is_wide_char && leb 0x100 (all_bits 0 p)) ≡ true)
            ⊎ ((not s.is_wide_char && leb 0x100 (all_bits 0 p)) ≡ false)
          → MakesRoom mem s.chars (length s.chars + length p) (all_bits 0 p) (
              if ltb s.size (length s.chars + length p)
              then string_buffer_realloc mem s (length s.chars + length p) (all_bits 0 p)
              else if not s.is_wide_char && leb 0x100 (all_bits 0 p)
              then string_buffer_widen mem s s.size
              else (s, true))
      ready (inl short) w = rw short (string_buffer_realloc-MakesRoom mem s _ _ v (omega arith))
      ready (inr enough) (inl wider) =
          rw (enough, wider)
            (string_buffer_widen-MakesRoom mem s s.size _ _ v v.within (ground arith))
      ready (inr enough) (inr same) =
          rw (enough, same)
            (inl (refl, v, refl, ground arith, narrow_or_wide s.is_wide_char _ same))

  -- The part of `p` from `from` up to `to`; nothing where `to` is not past `from`.
  pub concat-Leaves :
      (s : StringBuffer W) (p : JsString) (from to : ℕ)
      → IsValid s
      → IsString p
      → Leaves mem
          (s.chars ++ take (to - from) (drop from p.chars))
          (string_buffer_concat mem s p from to)
  unfolding string_buffer_concat
  concat-Leaves s p from to v u =
      let src = take (to - from) (drop from p.chars) in
      let us = part-AreUnits p.is_wide_char from (to - from) p.chars u in
      if-Leaves mem _ (leb to from) _ _
        (λ empty.
          let none_left : to - from ≡ 0 = ground arith in
          along_units mem s.chars _ _ (rw none_left (sym (append-nil s.chars)))
            (inl (refl, v, refl)))
        λ more.
          if-Leaves mem _ p.is_wide_char _ _ (λ wide. write16-Leaves s src v (rw wide at us))
            λ narrow. write8-Leaves s src v (rw narrow at us)

  fill_loop-Leaves :
      (count : ℕ) (s : StringBuffer W) (c : ℕ)
      → IsValid s
      → c < 2 ^ 16
      → Leaves mem (s.chars ++ replicate count c) (fill_loop mem count s c)
  unfolding fill_loop
  fill_loop-Leaves zero s c v l = inl (refl, v, sym (append-nil s.chars))
  fill_loop-Leaves (suc count) s c v l =
      along_units mem ((s.chars ++ (c ∷ [])) ++ replicate count c) _ _
        (append_assoc s.chars (c ∷ []) (replicate count c))
        (>>=-Leaves_then mem (s.chars ++ (c ∷ [])) _ (string_buffer_putc16 mem s c) _
          (putc16-Leaves mem s c v l)
          (omega (arith, length-append (s.chars ++ (c ∷ [])) (replicate count c)))
          λ s' v' e.
            along_units mem _ _ _ (ap (λ (t : List ℕ). t ++ replicate count c) e)
              (fill_loop-Leaves count s' c v' l))

  pub fill-Leaves :
      (s : StringBuffer W) (c count : ℕ)
      → IsValid s
      → c < 2 ^ 16
      → Leaves mem (s.chars ++ replicate count c) (string_buffer_fill mem s c count)
  unfolding string_buffer_fill
  fill-Leaves s c count v l = filled (Bool-cases (ltb s.size (length s.chars + count)))
    where
      filled :
          (ltb s.size (length s.chars + count) ≡ true)
            ⊎ (ltb s.size (length s.chars + count) ≡ false)
          → Leaves mem (s.chars ++ replicate count c) (
              (if ltb s.size (length s.chars + count)
                then string_buffer_realloc mem s (length s.chars + count) c
                else (s, true))
              >>= λ s'. fill_loop mem count s' c)
      filled (inl short) = rw short (
          >>=-Leaves mem s.chars _ (length s.chars + count) c _ _
            (string_buffer_realloc-MakesRoom mem s (length s.chars + count) c v (omega arith))
            (omega (arith, length-append s.chars (replicate count c), length-replicate count c))
            λ s' v' e h b.
              along_units mem _ _ _ (ap (λ (t : List ℕ). t ++ replicate count c) e)
                (fill_loop-Leaves count s' c v' l))
      filled (inr enough) = rw enough (fill_loop-Leaves count s c v l)
