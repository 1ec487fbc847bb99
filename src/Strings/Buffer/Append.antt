-- ===== src/Strings/Buffer/Append.antt =====
-- Each writer of a string buffer adds its units, or leaves the buffer failed.
use quick_js_swift.Base.{
  ℕ, ◌+◌, ◌%◌, ◌^◌, ◌≤◌, ◌<◌, ◌≡◌, ◌⊎◌, refl, ap, ◌∙◌, inl, inr, List, [], ◌∷◌, ◌++◌, Bool, true,
  false, ltb, leb, ltb→lt, if◌then◌else◌, Bool-cases, length, length-append, All, arith, map,
}
use quick_js_swift.Strings.Buffer.{
  Memory, StringBuffer, Outcome, ◌>>=◌, unit, stored, string_buffer_widen, string_buffer_realloc,
  store_slow, string_buffer_putc_slow, string_buffer_putc8, string_buffer_putc16,
}
use quick_js_swift.Strings.Buffer.Writes.{
  IsValid, Leaves, Fails-le, AreUnits, MakesRoom, string_buffer_widen-MakesRoom,
  string_buffer_realloc-MakesRoom,
}

map-unit : (wide : Bool) (src : List ℕ) → AreUnits wide src → map (unit wide) src ≡ src
map-unit wide [] h = refl
map-unit true (x ∷ src) h =
    let e : x % 2 ^ 16 ≡ x = omega (arith, h.0) in rw (e, map-unit true src h.1)
map-unit false (x ∷ src) h =
    let e : x % 2 ^ 8 ≡ x = omega (arith, h.0) in rw (e, map-unit false src h.1)

pub All-append {ℓ κ} :
    {A : Type ℓ} (P : A → Type κ) (xs ys : List A) → All P xs → All P ys → All P (xs ++ ys)
All-append P [] ys hx hy = hy
All-append P (x ∷ xs) ys hx hy = (hx.0, All-append P xs ys hx.1 hy)

one_unit : (wide : Bool) (c : ℕ) → c < 2 ^ 16 → (wide ≡ true) ⊎ (c < 0x100) → AreUnits wide (c ∷ [])
one_unit true c h b = (h, tt)
one_unit false c h (inl bad) = cc
one_unit false c h (inr small) = (small, tt)

module _ {W : Type 0} (mem : Memory W) where
  pub along_units :
      (cs cs' : List ℕ) (r : Outcome W) → cs ≡ cs' → Leaves mem cs r → Leaves mem cs' r
  along_units cs cs' r e (inl (ok, v, h)) = inl (ok, v, h ∙ e)
  along_units cs cs' r e (inr failed) =
      inr (Fails-le mem (length cs) (length cs') r (omega (arith, ap length e)) failed)

  pub stored-Leaves :
      (s : StringBuffer W) (cs src : List ℕ)
      → IsValid s
      → s.chars ≡ cs
      → length cs + length src ≤ s.size
      → AreUnits s.is_wide_char src
      → Leaves mem (cs ++ src) (stored s src, true)
  unfolding stored
  stored-Leaves s cs src v e h u =
      let same = map-unit s.is_wide_char src u in
      inl (
        refl,
        record {
          has_block = v.has_block;
          no_error = v.no_error;
          within = rw same (omega (arith, length-append s.chars src, ap length e));
          fits = rw same (
              All-append (λ (x : ℕ). x < (if s.is_wide_char then 2 ^ 16 else 0x100)) s.chars src
                v.fits u);
        },
        rw same (ap (λ (l : List ℕ). l ++ src) e),
      )

  pub if-Leaves :
      (cs : List ℕ) (b : Bool) (r r' : Outcome W)
      → (b ≡ true → Leaves mem cs r)
      → (b ≡ false → Leaves mem cs r')
      → Leaves mem cs (if b then r else r')
  if-Leaves cs true r r' h k = h refl
  if-Leaves cs false r r' h k = k refl

  pub >>=-Leaves :
      (cs new : List ℕ) (n c : ℕ) (r : Outcome W) (f : StringBuffer W → Outcome W)
      → MakesRoom mem cs n c r
      → n ≤ length new
      → ((s : StringBuffer W)
          → IsValid s
          → s.chars ≡ cs
          → n ≤ s.size
          → (s.is_wide_char ≡ true) ⊎ (c < 0x100)
          → Leaves mem new (f s))
      → Leaves mem new (r >>= f)
  >>=-Leaves cs new n c (s, true) f (inl (_, v, e, h, b)) le k = k s v e h b
  >>=-Leaves cs new n c (s, true) f (inr (bad, _, _)) le k = cc
  >>=-Leaves cs new n c (s, false) f (inl (bad, _, _, _, _)) le k = cc
  >>=-Leaves cs new n c (s, false) f (inr failed) le k =
      inr (Fails-le mem n (length new) (s, false) le failed)

  -- Writers one after another.
  pub >>=-Leaves_then :
      (cs new : List ℕ) (r : Outcome W) (f : StringBuffer W → Outcome W)
      → Leaves mem cs r
      → length cs ≤ length new
      → ((s : StringBuffer W) → IsValid s → s.chars ≡ cs → Leaves mem new (f s))
      → Leaves mem new (r >>= f)
  >>=-Leaves_then cs new (s, true) f (inl (_, v, e)) le k = k s v e
  >>=-Leaves_then cs new (s, true) f (inr (bad, _, _)) le k = cc
  >>=-Leaves_then cs new (s, false) f (inl (bad, _, _)) le k = cc
  >>=-Leaves_then cs new (s, false) f (inr failed) le k =
      inr (Fails-le mem (length cs) (length new) (s, false) le failed)

  -- The reallocation that a writer makes when its block is short.
  pub room :
      (s : StringBuffer W) (n c : ℕ) (short : Bool)
      → IsValid s
      → length s.chars ≤ n
      → (short ≡ false → (n ≤ s.size) × ((s.is_wide_char ≡ true) ⊎ (c < 0x100)))
      → MakesRoom mem s.chars n c (if short then string_buffer_realloc mem s n c else (s, true))
  room s n c true v h k = string_buffer_realloc-MakesRoom mem s n c v h
  room s n c false v h k = inl (refl, v, refl, (k refl).0, (k refl).1)

  store_slow-Leaves :
      (s : StringBuffer W) (cs : List ℕ) (c : ℕ)
      → IsValid s
      → s.chars ≡ cs
      → length cs + 1 ≤ s.size
      → c < 2 ^ 16
      → Leaves mem (cs ++ (c ∷ [])) (store_slow mem c s)
  unfolding store_slow
  store_slow-Leaves s cs c v e h l =
      if-Leaves _ s.is_wide_char _ _ (λ wide. direct (inl wide))
        λ narrow.
          if-Leaves _ (ltb c 0x100) _ _ (λ small. direct (inr (ltb→lt _ _ small)))
            λ big.
              along_units (s.chars ++ (c ∷ [])) (cs ++ (c ∷ [])) _
                (ap (λ (t : List ℕ). t ++ (c ∷ [])) e)
                (>>=-Leaves s.chars (s.chars ++ (c ∷ [])) (length s.chars + 1) c
                  (string_buffer_widen mem s s.size) _
                  (string_buffer_widen-MakesRoom mem s s.size (length s.chars + 1) c v v.within
                    (omega (arith, ap length e)))
                  (omega (arith, length-append s.chars (c ∷ [])))
                  λ s' v' e' h' b.
                    stored-Leaves s' s.chars (c ∷ []) v' e' (omega (arith, ap length e))
                      (one_unit s'.is_wide_char c l b))
    where
      direct :
          (s.is_wide_char ≡ true) ⊎ (c < 0x100)
          → Leaves mem (cs ++ (c ∷ [])) (stored s (c ∷ []), true)
      direct b = stored-Leaves s cs (c ∷ []) v e h (one_unit s.is_wide_char c l b)

  putc_slow-Leaves :
      (s : StringBuffer W) (c : ℕ)
      → IsValid s
      → c < 2 ^ 16
      → Leaves mem (s.chars ++ (c ∷ [])) (string_buffer_putc_slow mem s c)
  unfolding string_buffer_putc_slow
  putc_slow-Leaves s c v l = slow (Bool-cases (leb s.size (length s.chars)))
    where
      slow :
          ((leb s.size (length s.chars)) ≡ true) ⊎ ((leb s.size (length s.chars)) ≡ false)
          → Leaves mem (s.chars ++ (c ∷ [])) (
              (if leb s.size (length s.chars)
                then string_buffer_realloc mem s (length s.chars + 1) c
                else (s, true))
              >>= store_slow mem c)
      slow (inl short) = rw short (
          >>=-Leaves s.chars _ (length s.chars + 1) c _ _
            (string_buffer_realloc-MakesRoom mem s (length s.chars + 1) c v (omega arith))
            (omega (arith, length-append s.chars (c ∷ [])))
            λ s' v' e h b. store_slow-Leaves s' s.chars c v' e h l)
      slow (inr enough) = rw enough (store_slow-Leaves s s.chars c v refl (ground arith) l)

  -- A unit of 16 bits.
  pub putc16-Leaves :
      (s : StringBuffer W) (c : ℕ)
      → IsValid s
      → c < 2 ^ 16
      → Leaves mem (s.chars ++ (c ∷ [])) (string_buffer_putc16 mem s c)
  unfolding string_buffer_putc16
  putc16-Leaves s c v l =
      if-Leaves _ (ltb (length s.chars) s.size) _ _
        (λ fits.
          let fits' = ltb→lt _ _ fits in
          if-Leaves _ s.is_wide_char _ _
            (λ wide.
              stored-Leaves s s.chars (c ∷ []) v refl (omega arith)
                (one_unit s.is_wide_char c l (inl wide)))
            λ narrow.
              if-Leaves _ (ltb c 0x100) _ _
                (λ small.
                  stored-Leaves s s.chars (c ∷ []) v refl (omega arith)
                    (one_unit s.is_wide_char c l (inr (ltb→lt _ _ small))))
                λ big. putc_slow-Leaves s c v l)
        λ full. putc_slow-Leaves s c v l

  -- A unit of 8 bits.
  pub putc8-Leaves :
      (s : StringBuffer W) (c : ℕ)
      → IsValid s
      → c < 0x100
      → Leaves mem (s.chars ++ (c ∷ [])) (string_buffer_putc8 mem s c)
  unfolding string_buffer_putc8
  putc8-Leaves s c v l =
      >>=-Leaves s.chars _ (length s.chars + 1) c _ _
        (room s (length s.chars + 1) c (leb s.size (length s.chars)) v (omega arith)
          λ enough. (ground arith, inr l))
        (omega (arith, length-append s.chars (c ∷ [])))
        λ s' v' e h b.
          stored-Leaves s' s.chars (c ∷ []) v' e h (one_unit s'.is_wide_char c (omega arith) b)
