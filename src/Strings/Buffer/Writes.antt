-- ===== src/Strings/Buffer/Writes.antt =====
-- What the steps of the writers leave: room, and the units stored so far.
use quick_js_swift.Base.{
  ℕ, ◌+◌, ◌*◌, ◌/◌, ◌^◌, ◌≤◌, ◌<◌, min, max, ◌≡◌, ◌⊎◌, refl, inl, inr, List, [], ◌∷◌, Bool, true,
  false, ◌&&◌, not, Option, none, some, ltb, leb, ltb→lt, if◌then◌else◌, Bool-cases, length, All,
  arith,
}
use quick_js_swift.Strings.Buffer.{
  Memory, StringBuffer, Outcome, js_string_len_max, string_buffer_set_error, widened,
  string_buffer_widen, resized, string_buffer_realloc,
}

pub narrow_or_wide : (b : Bool) (c : ℕ) → (not b && leb 0x100 c) ≡ false → (b ≡ true) ⊎ (c < 0x100)
narrow_or_wide true c h = inl refl
narrow_or_wide false c h = inr (ground arith)

-- The units of a string that is wide or not.
abbrev pub AreUnits : Bool → List ℕ → Type 0
AreUnits wide src = All (λ (x : ℕ). x < (if wide then 2 ^ 16 else 0x100)) src

pub narrow_units : (src : List ℕ) → AreUnits false src → AreUnits true src
narrow_units [] h = tt
narrow_units (x ∷ src) h = (omega (arith, h.0), narrow_units src h.1)

pub wide_units : (wide : Bool) (src : List ℕ) → AreUnits wide src → AreUnits true src
wide_units true src u = u
wide_units false src u = narrow_units src u

module _ {W : Type 0} where
  -- A buffer in use: its units are within the block, and of its width.
  pub record IsValid (s : StringBuffer W) : Type 0 where
    pub has_block : s.has_str ≡ true
    pub no_error : s.error_status ≡ false
    pub within : length s.chars ≤ s.size
    pub fits : AreUnits s.is_wide_char s.chars

  -- The error is kept until `string_buffer_end`.
  pub record HasFailed (s : StringBuffer W) : Type 0 where
    pub no_block : s.has_str ≡ false
    pub is_error : s.error_status ≡ true
    pub no_units : s.chars ≡ []
    pub no_room : s.size ≡ 0

-- Memory is never refused.
pub record Serves {W : Type 0} (mem : Memory W) : Type 0 where
  pub alloc_served : (w : W) (n : ℕ) (wide : Bool) → (mem.alloc_string w n wide).1 ≡ true
  pub realloc_served : (w : W) (n : ℕ) → (slack : ℕ) × ((mem.realloc2 w n).1 ≡ some slack)

module _ {W : Type 0} (mem : Memory W) where
  -- -1 was returned and the buffer failed; where memory is never refused that is for its length.
  abbrev pub Fails : ℕ → Outcome W → Type 0
  Fails n r = (r.1 ≡ false) × HasFailed r.0 × (Serves mem → js_string_len_max < n)

  -- `cs` stand in the buffer and 0 was returned, or the buffer failed.
  abbrev pub Leaves : List ℕ → Outcome W → Type 0
  Leaves cs r = ((r.1 ≡ true) × IsValid r.0 × (r.0.chars ≡ cs)) ⊎ Fails (length cs) r

  -- As above, with room for `n` units that are below 0x100 or wide.
  abbrev pub MakesRoom : List ℕ → ℕ → ℕ → Outcome W → Type 0
  MakesRoom cs n c r =
      ((r.1 ≡ true)
        × IsValid r.0
        × (r.0.chars ≡ cs)
        × (n ≤ r.0.size)
        × ((r.0.is_wide_char ≡ true) ⊎ (c < 0x100)))
      ⊎ Fails n r

  pub Fails-le : (n m : ℕ) (r : Outcome W) → n ≤ m → Fails n r → Fails m r
  Fails-le n m r h (no_result, failed, why) =
      (no_result, failed, λ serves. omega (arith, why serves))

  set_error-Fails :
      (s : StringBuffer W) (n : ℕ)
      → (Serves mem → js_string_len_max < n)
      → Fails n (string_buffer_set_error mem s)
  unfolding string_buffer_set_error
  set_error-Fails s n why =
      (refl, record { no_block = refl; is_error = refl; no_units = refl; no_room = refl }, why)

  not_served : {n slack : ℕ} → none ≡ some slack → js_string_len_max < n
  not_served e = cc

  widened-MakesRoom :
      (s : StringBuffer W) (size n c : ℕ) (a : W × Option ℕ)
      → IsValid s
      → length s.chars ≤ size
      → n ≤ size
      → (Serves mem → (slack : ℕ) × (a.1 ≡ some slack))
      → MakesRoom s.chars n c (widened mem s size a)
  unfolding widened
  widened-MakesRoom s size n c (w, none) v h k served =
      inr (set_error-Fails (record s { ctx = w }) n λ serves. not_served (served serves).1)
  widened-MakesRoom s size n c (w, some slack) v h k served = inl (
    refl,
    record {
      has_block = v.has_block;
      no_error = v.no_error;
      within = omega arith;
      fits = wide_units s.is_wide_char s.chars v.fits;
    },
    refl,
    omega arith,
    inl refl,
  )

  pub string_buffer_widen-MakesRoom :
      (s : StringBuffer W) (size n c : ℕ)
      → IsValid s
      → length s.chars ≤ size
      → n ≤ size
      → MakesRoom s.chars n c (string_buffer_widen mem s size)
  unfolding string_buffer_widen
  string_buffer_widen-MakesRoom s size n c v h k = simp v.no_error (
      widened-MakesRoom s size n c _ v h k
        λ serves. serves.realloc_served s.ctx (mem.header + size * 2))

  resized-MakesRoom :
      (s : StringBuffer W) (new_len new_size c : ℕ) (a : W × Option ℕ)
      → IsValid s
      → new_len ≤ new_size
      → new_len ≤ js_string_len_max
      → length s.chars ≤ new_len
      → (s.is_wide_char ≡ true) ⊎ (c < 0x100)
      → (Serves mem → (slack : ℕ) × (a.1 ≡ some slack))
      → MakesRoom s.chars new_len c (resized mem s new_size a)
  unfolding resized
  resized-MakesRoom s new_len new_size c (w, none) v h k l b served =
      inr (set_error-Fails (record s { ctx = w }) new_len λ serves. not_served (served serves).1)
  resized-MakesRoom s new_len new_size c (w, some slack) v h k l b served = inl (
    refl,
    record { has_block = v.has_block; no_error = v.no_error; within = omega arith; fits = v.fits },
    refl,
    omega arith,
    b,
  )

  -- `string_buffer_realloc` to at least the present length.
  pub string_buffer_realloc-MakesRoom :
      (s : StringBuffer W) (new_len c : ℕ)
      → IsValid s
      → length s.chars ≤ new_len
      → MakesRoom s.chars new_len c (string_buffer_realloc mem s new_len c)
  unfolding string_buffer_realloc
  string_buffer_realloc-MakesRoom s new_len c v h =
      elim (Bool-cases (ltb js_string_len_max new_len)) [
        | inl long ↦
            simp (v.no_error, long)
              (inr (
                set_error-Fails (record s { ctx = mem.throw_internal_error s.ctx }) new_len
                  λ serves. ltb→lt _ _ long))
        | inr short ↦
            let new_size = min (max new_len (s.size * 3 / 2)) js_string_len_max in
            let fits : new_len ≤ js_string_len_max = ground arith in
            elim (Bool-cases (not s.is_wide_char && leb 0x100 c)) [
              | inl wider ↦
                  simp (v.no_error, short, wider)
                    (widened-MakesRoom s new_size new_len c _ v (omega arith) (omega arith)
                      λ serves. serves.realloc_served s.ctx _)
              | inr same ↦
                  simp (v.no_error, short, same)
                    (resized-MakesRoom s new_len new_size c _ v (omega arith) fits h
                      (narrow_or_wide s.is_wide_char c same)
                      λ serves. serves.realloc_served s.ctx _)
            ]
      ]
