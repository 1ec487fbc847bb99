-- ===== src/Bytes/DynBuf/Extend.antt =====
-- Writers that ignore what `dbuf_putc` returns: the error flag tells whether all bytes are there.
use quick_js_swift.Base.{
  ℕ, ◌+◌, ◌%◌, ◌^◌, ◌<◌, ◌≡◌, refl, ap, ◌∙◌, ◌⊎◌, inl, inr, List, [], ◌∷◌, ◌++◌, true, false,
  Option, none, some, ltb, length, arith, length-append, Bool-cases,
}
use mathlib.Core.List.{append_assoc}
use quick_js_swift.Bytes.DynBuf.{
  DynBuf, Outcome, ◌>>=◌, size_t, copy_to, contents, dbuf_realloc, answered, grown, make_room,
  dbuf_put, dbuf_putc,
}
use quick_js_swift.Bytes.DynBuf.Append.{Reallocates, IsValid, Stored, dbuf_put_lem, length-contents}

module _ {S : Type 0} where
  -- `s'` has the error flag, or it holds what `s` held and then `bytes`.
  abbrev pub Extends : DynBuf S → List ℕ → DynBuf S → Type 0
  Extends s bytes s' =
      (s'.error ≡ true) ⊎ (IsValid s' × (contents s' ≡ contents s ++ bytes) × (s'.error ≡ s.error))

  -- A writer of `bytes`; it leaves the error flag set once it is.
  pub record Writes (bytes : List ℕ) (f : DynBuf S → DynBuf S) : Type 0 where
    pub sticky : (s : DynBuf S) → s.error ≡ true → (f s).error ≡ true
    pub extends :
        (s : DynBuf S) → IsValid s → s.size + length bytes < 2 ^ 64 → Extends s bytes (f s)

  pub Writes-then :
      (xs ys : List ℕ) (f g : DynBuf S → DynBuf S)
      → Writes xs f
      → Writes ys g
      → Writes (xs ++ ys) (λ s. g (f s))
  Writes-then xs ys f g wf wg = record {
    sticky = λ s e. wg.sticky (f s) (wf.sticky s e);
    extends = λ s v h. go s v h (wf.extends s v (omega (arith, h, length-append xs ys)));
  }
    where
      go :
          (s : DynBuf S)
          → IsValid s
          → s.size + length (xs ++ ys) < 2 ^ 64
          → Extends s xs (f s)
          → Extends s (xs ++ ys) (g (f s))
      go s v h (inl e) = inl (wg.sticky (f s) e)
      go s v h (inr (v', c, e)) =
          let fits : (f s).size + length ys < 2 ^ 64 = omega (
            arith,
            length-contents (f s) v',
            length-contents s v,
            ap length c,
            length-append (contents s) xs,
            length-append xs ys,
          ) in
          go' (wg.extends (f s) v' fits)
        where
          go' : Extends (f s) ys (g (f s)) → Extends s (xs ++ ys) (g (f s))
          go' (inl b) = inl b
          go' (inr (w, d, b)) =
              inr (w, d ∙ ap (λ (l : List ℕ). l ++ ys) c ∙ append_assoc (contents s) xs ys, b ∙ e)

-- The allocator meets every request.
abbrev pub Serves : {S : Type 0} → (S → List ℕ → ℕ → S × Option (List ℕ)) → Type 0
Serves {S} realloc =
    (s : S) (buf : List ℕ) (n : ℕ) → (out : List ℕ) × ((realloc s buf n).1 ≡ some out)

module _ {S : Type 0} (realloc : S → List ℕ → ℕ → S × Option (List ℕ)) where
  error_sticky :
      (s : DynBuf S) (src : List ℕ) → s.error ≡ true → (dbuf_put realloc s src).0.error ≡ true
  unfolding dbuf_put make_room dbuf_realloc
  error_sticky s src e = elim (Bool-cases (ltb s.allocated_size (size_t (s.size + length src)))) [
    | inl short ↦ simp (short, e)
    | inr enough ↦ simp enough e
  ]

  -- With an allocator that meets every request the flag stays clear.
  answered_served :
      (s : DynBuf S) (n : ℕ) (out : List ℕ) (a : S × Option (List ℕ))
      → a.1 ≡ some out
      → ((answered s n a).1 ≡ true) × ((answered s n a).0.error ≡ s.error)
  unfolding answered
  answered_served s n out (o, none) e = cc
  answered_served s n out (o, some buf) e = (refl, refl)

  put_of : (src : List ℕ) → DynBuf S → Outcome S
  put_of src s' =
      (record s' { buf = copy_to s'.buf s'.size src; size = size_t (s'.size + length src) }, true)

  put_served :
      (s : DynBuf S) (src : List ℕ) (m : Outcome S)
      → (m.1 ≡ true) × (m.0.error ≡ false)
      → (m >>= put_of src).0.error ≡ false
  unfolding put_of
  put_served s src (s', true) h = h.1
  put_served s src (s', false) h = cc

  dbuf_put_served :
      Serves realloc
      → (s : DynBuf S) (src : List ℕ) → s.error ≡ false
      → (dbuf_put realloc s src).0.error ≡ false
  unfolding dbuf_put put_of
  dbuf_put_served serves s src e =
      put_served s src (make_room realloc s (length src)) (roomy (length src))
    where
      roomy :
          (n : ℕ) → ((make_room realloc s n).1 ≡ true) × ((make_room realloc s n).0.error ≡ false)
      roomy n =
          let want = grown s (size_t (s.size + n)) in
          let got = serves s.opaque s.buf want in
          let done = answered_served s want got.0 (realloc s.opaque s.buf want) got.1 in
          elim (Bool-cases (ltb s.allocated_size (size_t (s.size + n)))) [
            | inl short ↦ unfold make_room dbuf_realloc in simp (short, e) (done.0, done.1 ∙ e)
            | inr enough ↦ unfold make_room in simp enough (refl, e)
          ]

  pub dbuf_putc_served :
      Serves realloc
      → (c : ℕ) (s : DynBuf S) → s.error ≡ false
      → (dbuf_putc realloc s c).0.error ≡ false
  unfolding dbuf_putc
  dbuf_putc_served serves c s e = dbuf_put_served serves s ((c % 2 ^ 8) ∷ []) e

  pub dbuf_putc-Writes :
      Reallocates realloc → (c : ℕ) → Writes ((c % 2 ^ 8) ∷ []) (λ s. (dbuf_putc realloc s c).0)
  unfolding dbuf_putc
  dbuf_putc-Writes law c = record {
    sticky = λ s e. error_sticky s ((c % 2 ^ 8) ∷ []) e;
    extends = λ s v h. go s (dbuf_put_lem realloc law s ((c % 2 ^ 8) ∷ []) v h);
  }
    where
      go :
          (s : DynBuf S)
          → Stored s (contents s ++ ((c % 2 ^ 8) ∷ [])) (dbuf_put realloc s ((c % 2 ^ 8) ∷ []))
          → Extends s ((c % 2 ^ 8) ∷ []) (dbuf_put realloc s ((c % 2 ^ 8) ∷ [])).0
      go s (inl (_, v', held, e)) = inr (v', held, e)
      go s (inr (_, _, e)) = inl e
