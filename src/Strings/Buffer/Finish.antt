-- ===== src/Strings/Buffer/Finish.antt =====
-- A string buffer from `string_buffer_init2` to `string_buffer_end`, by callers that do not look at
-- what the writers return.
use quick_js_swift.Base.{
  ℕ, zero, suc, ◌+◌, ◌-◌, ◌/◌, ◌^◌, ◌≤◌, ◌<◌, ◌≡◌, ◌⊎◌, refl, sym, ap, ◌∙◌, inl, inr, List, [], ◌∷◌,
  ◌++◌, Bool, true, false, ◌&&◌, not, Option, none, some, ltb, leb, ◌==◌, ==_iff, Bool-cases,
  length, length-append, All, arith, take, drop,
}
use mathlib.Core.List.{append_assoc, append-nil}
use quick_js_swift.Strings.Buffer.{
  JsString, Memory, StringBuffer, Outcome, js_string_len_max, stored, all_bits, string_buffer_init2,
  string_buffer_realloc, string_buffer_putc_slow, string_buffer_putc8, string_buffer_putc16,
  string_buffer_putc, string_buffer_write8, string_buffer_write16, string_buffer_concat, fill_loop,
  string_buffer_fill, string_buffer_end,
}
use quick_js_swift.Strings.Buffer.Writes.{IsValid, AreUnits, HasFailed, Leaves, Serves}
use quick_js_swift.Strings.Buffer.Append.{putc8-Leaves, putc16-Leaves}
use quick_js_swift.Strings.Buffer.Copy.{
  IsString, replicate, utf16, putc-Leaves, write8-Leaves, write16-Leaves, concat-Leaves,
  fill-Leaves,
}

-- A call of a writer.
pub data Write : Type 0 where
  putc8 putc16 putc : ℕ → Write
  write8 write16 : List ℕ → Write
  concat : JsString → ℕ → ℕ → Write
  fill : ℕ → ℕ → Write

-- What each call is to add, and the arguments that it is for.
abbrev pub units : Write → List ℕ
units (putc8 c) = c ∷ []
units (putc16 c) = c ∷ []
units (putc c) = utf16 c
units (write8 p) = p
units (write16 p) = p
units (concat p from to) = take (to - from) (drop from p.chars)
units (fill c count) = replicate count c

abbrev pub IsWrite : Write → Type 0
IsWrite (putc8 c) = c < 0x100
IsWrite (putc16 c) = c < 2 ^ 16
IsWrite (putc c) = c < 0x110000
IsWrite (write8 p) = AreUnits false p
IsWrite (write16 p) = AreUnits true p
IsWrite (concat p from to) = IsString p
IsWrite (fill c count) = c < 2 ^ 16

abbrev pub all_units : List Write → List ℕ
all_units [] = []
all_units (x ∷ writes) = units x ++ all_units writes

-- The string that `string_buffer_end` returns.
abbrev pub Gives : List ℕ → Option JsString → Type 0
Gives cs r = (str : JsString) × (r ≡ some str) × (str.chars ≡ cs) × IsString str

module _ {W : Type 0} (mem : Memory W) where
  unfoldable pub write : StringBuffer W → Write → Outcome W
  write s (putc8 c) = string_buffer_putc8 mem s c
  write s (putc16 c) = string_buffer_putc16 mem s c
  write s (putc c) = string_buffer_putc mem s c
  write s (write8 p) = string_buffer_write8 mem s p
  write s (write16 p) = string_buffer_write16 mem s p
  write s (concat p from to) = string_buffer_concat mem s p from to
  write s (fill c count) = string_buffer_fill mem s c count

  unfoldable pub run : StringBuffer W → List Write → StringBuffer W
  unfolding write
  run s [] = s
  run s (x ∷ writes) = run (write s x).0 writes

  write-Leaves :
      (s : StringBuffer W) (x : Write)
      → IsValid s
      → IsWrite x
      → Leaves mem (s.chars ++ units x) (write s x)
  unfolding write
  write-Leaves s (putc8 c) v w = putc8-Leaves mem s c v w
  write-Leaves s (putc16 c) v w = putc16-Leaves mem s c v w
  write-Leaves s (putc c) v w = putc-Leaves mem s c v w
  write-Leaves s (write8 p) v w = write8-Leaves mem s p v w
  write-Leaves s (write16 p) v w = write16-Leaves mem s p v w
  write-Leaves s (concat p from to) v w = concat-Leaves mem s p from to v w
  write-Leaves s (fill c count) v w = fill-Leaves mem s c count v w

  realloc_failed :
      (s : StringBuffer W) (n c : ℕ) → HasFailed s → string_buffer_realloc mem s n c ≡ (s, false)
  unfolding string_buffer_realloc
  realloc_failed s n c f = simp f.is_error

  -- A failed buffer has no room for a unit.
  is_short : (s : StringBuffer W) (n : ℕ) → HasFailed s → ltb s.size (length s.chars + suc n) ≡ true
  is_short s n f = ground (arith, f.no_room)

  is_full : (s : StringBuffer W) → HasFailed s → leb s.size (length s.chars) ≡ true
  is_full s f = ground (arith, f.no_room)

  has_no_room : (s : StringBuffer W) → HasFailed s → ltb (length s.chars) s.size ≡ false
  has_no_room s f = ground (arith, f.no_room)

  putc16_failed :
      (s : StringBuffer W) (c : ℕ) → HasFailed s → string_buffer_putc16 mem s c ≡ (s, false)
  unfolding string_buffer_putc16 string_buffer_putc_slow
  putc16_failed s c f = rw (has_no_room s f, is_full s f, realloc_failed s (length s.chars + 1) c f)

  is_enough : (s : StringBuffer W) → HasFailed s → ltb s.size (length s.chars + 0) ≡ false
  is_enough s f = ground (arith, ap length f.no_units)

  stored_failed : (s : StringBuffer W) → HasFailed s → HasFailed (stored s [])
  unfolding stored
  stored_failed s f = record {
    no_block = f.no_block;
    is_error = f.is_error;
    no_units = append-nil s.chars ∙ f.no_units;
    no_room = f.no_room;
  }

  write8_failed :
      (s : StringBuffer W) (p : List ℕ) → HasFailed s → HasFailed (string_buffer_write8 mem s p).0
  unfolding string_buffer_write8
  write8_failed s [] f = rw (is_enough s f) (stored_failed s f)
  write8_failed s (x ∷ p) f =
      rw (is_short s (length p) f, realloc_failed s (length s.chars + suc (length p)) 0 f) f

  and_false : (b : Bool) → (b && false) ≡ false
  and_false true = refl
  and_false false = refl

  write16_failed :
      (s : StringBuffer W) (p : List ℕ) → HasFailed s → HasFailed (string_buffer_write16 mem s p).0
  unfolding string_buffer_write16 all_bits
  write16_failed s [] f =
      let low : (not s.is_wide_char && leb 0x100 0) ≡ false = and_false (not s.is_wide_char) in
      rw (is_enough s f, low) (stored_failed s f)
  write16_failed s (x ∷ p) f =
      rw
        (
          is_short s (length p) f,
          realloc_failed s (length s.chars + suc (length p)) (all_bits 0 (x ∷ p)) f,
        )
        f

  fill_failed :
      (s : StringBuffer W) (c count : ℕ)
      → HasFailed s
      → HasFailed (string_buffer_fill mem s c count).0
  unfolding string_buffer_fill fill_loop
  fill_failed s c zero f = rw (is_enough s f) f
  fill_failed s c (suc count) f =
      rw (is_short s count f, realloc_failed s (length s.chars + suc count) c f) f

  concat_failed :
      (s : StringBuffer W) (p : JsString) (from to : ℕ)
      → HasFailed s
      → HasFailed (string_buffer_concat mem s p from to).0
  unfolding string_buffer_concat
  concat_failed s p from to f = elim (Bool-cases (leb to from)) [
    | inl empty ↦ rw empty f
    | inr more ↦ elim (Bool-cases p.is_wide_char) [
      | inl wide ↦ rw (more, wide) (write16_failed s (take (to - from) (drop from p.chars)) f)
      | inr narrow ↦ rw (more, narrow) (write8_failed s (take (to - from) (drop from p.chars)) f)
    ]
  ]

  putc_failed :
      (s : StringBuffer W) (c : ℕ) → HasFailed s → HasFailed (string_buffer_putc mem s c).0
  unfolding string_buffer_putc
  putc_failed s c f = elim (Bool-cases (leb 0x10000 c)) [
    | inl pair ↦ rw (pair, putc16_failed s ((c - 0x10000) / 2 ^ 10 + 0xd800) f) f
    | inr one ↦ rw (one, putc16_failed s c f) f
  ]

  write_failed : (s : StringBuffer W) (x : Write) → HasFailed s → HasFailed (write s x).0
  unfolding write
  write_failed s (putc8 c) f =
      unfold string_buffer_putc8 in rw (is_full s f, realloc_failed s (length s.chars + 1) c f) f
  write_failed s (putc16 c) f = rw (putc16_failed s c f) f
  write_failed s (putc c) f = putc_failed s c f
  write_failed s (write8 p) f = write8_failed s p f
  write_failed s (write16 p) f = write16_failed s p f
  write_failed s (concat p from to) f = concat_failed s p from to f
  write_failed s (fill c count) f = fill_failed s c count f

  -- The buffer holds `cs`, or it failed; where memory is never refused that is for their length.
  abbrev Built : List ℕ → StringBuffer W → Type 0
  Built cs s =
      (IsValid s × (s.chars ≡ cs)) ⊎ (HasFailed s × (Serves mem → js_string_len_max < length cs))

  write-Built :
      (cs : List ℕ) (s : StringBuffer W) (x : Write)
      → IsWrite x
      → Built cs s
      → Built (cs ++ units x) (write s x).0
  write-Built cs s x w (inl (v, e)) = built (write-Leaves s x v w)
    where
      built : Leaves mem (s.chars ++ units x) (write s x) → Built (cs ++ units x) (write s x).0
      built (inl (_, v', e')) = inl (v', e' ∙ ap (λ (l : List ℕ). l ++ units x) e)
      built (inr (_, f, why)) = inr (f, λ serves. rw (← e) (why serves))
  write-Built cs s x w (inr (f, why)) =
      inr (write_failed s x f, λ serves. omega (arith, why serves, length-append cs (units x)))

  run-Built :
      (cs : List ℕ) (s : StringBuffer W) (writes : List Write)
      → All IsWrite writes
      → Built cs s
      → Built (cs ++ all_units writes) (run s writes)
  unfolding run
  run-Built cs s [] w b = rw (append-nil cs) b
  run-Built cs s (x ∷ writes) w b =
      rw (← append_assoc cs (units x) (all_units writes))
        (run-Built (cs ++ units x) (write s x).0 writes w.1 (write-Built cs s x w.0 b))

  not_true : true ≡ false → ⊥
  not_true e = cc

  init-Built :
      (ctx : W) (size : ℕ) (wide : Bool) → Built [] (string_buffer_init2 mem ctx size wide).0
  unfolding string_buffer_init2
  init-Built ctx size wide = elim (Bool-cases (mem.alloc_string ctx size wide).1) [
    | inl granted ↦
        rw granted (
          inl (record { has_block = refl; no_error = refl; within = omega arith; fits = tt }, refl))
    | inr refused ↦ rw refused (
        inr (
          record { no_block = refl; is_error = refl; no_units = refl; no_room = refl },
          λ serves. absurd (not_true (sym (serves.alloc_served ctx size wide) ∙ refused)),
        ))
  ]

  end-Gives : (s : StringBuffer W) → IsValid s → Gives s.chars (string_buffer_end mem s).1
  unfolding string_buffer_end
  end-Gives s v = elim (Bool-cases (length s.chars == 0)) [
    | inl empty ↦
        simp (v.no_error, empty)
          (
            record { is_wide_char = false; chars = [] },
            refl,
            no_units s.chars ((==_iff _ _).0 empty),
            tt,
          )
    | inr more ↦
        simp (v.no_error, more)
          (record { is_wide_char = s.is_wide_char; chars = s.chars }, refl, refl, v.fits)
  ]
    where
      no_units : (l : List ℕ) → length l ≡ 0 → [] ≡ l
      no_units [] e = refl
      no_units (x ∷ l) e = absurd (omega arith)

  end_failed : (s : StringBuffer W) → HasFailed s → (string_buffer_end mem s).1 ≡ none
  unfolding string_buffer_end
  end_failed s f = simp f.is_error

  -- The string that is made by writers, whose results are not looked at.
  unfoldable pub build : W → ℕ → Bool → List Write → Option JsString
  unfolding run
  build ctx size wide writes =
      (string_buffer_end mem (run (string_buffer_init2 mem ctx size wide).0 writes)).1

  built :
      (ctx : W) (size : ℕ) (wide : Bool) (writes : List Write)
      → All IsWrite writes
      → Built (all_units writes) (run (string_buffer_init2 mem ctx size wide).0 writes)
  built ctx size wide writes w =
      run-Built [] (string_buffer_init2 mem ctx size wide).0 writes w (init-Built ctx size wide)

  -- Whatever memory is refused on the way, `string_buffer_end` returns the units of all calls, in
  -- their order and in a string of a width that they fit, or an exception.
  pub build_lem :
      (ctx : W) (size : ℕ) (wide : Bool) (writes : List Write)
      → All IsWrite writes
      → Gives (all_units writes) (build ctx size wide writes) ⊎ (build ctx size wide writes ≡ none)
  unfolding build
  build_lem ctx size wide writes w = ends (built ctx size wide writes w)
    where
      ends :
          {s : StringBuffer W}
          → Built (all_units writes) s
          → Gives (all_units writes) (string_buffer_end mem s).1
            ⊎ ((string_buffer_end mem s).1 ≡ none)
      ends {s} (inl (v, e)) = inl (rw (← e) (end-Gives s v))
      ends {s} (inr (f, why)) = inr (end_failed s f)

  -- Where memory is never refused, up to JS_STRING_LEN_MAX units are returned, from any
  -- initial size and width.
  pub build_served :
      (ctx : W) (size : ℕ) (wide : Bool) (writes : List Write)
      → Serves mem
      → All IsWrite writes
      → length (all_units writes) ≤ js_string_len_max
      → Gives (all_units writes) (build ctx size wide writes)
  unfolding build
  build_served ctx size wide writes serves w fits = ends (built ctx size wide writes w)
    where
      ends :
          {s : StringBuffer W}
          → Built (all_units writes) s
          → Gives (all_units writes) (string_buffer_end mem s).1
      ends {s} (inl (v, e)) = rw (← e) (end-Gives s v)
      ends {s} (inr (f, why)) = absurd (omega (arith, why serves))
