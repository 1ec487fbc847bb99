-- ===== src/Unicode/CharRange/Array.antt =====
-- `cr_compress` works in place: what it leaves is a function of the points that it was given.
use quick_js_swift.Base.{
  ℕ, zero, suc, ◌+◌, ◌≤◌, ◌<◌, ◌≡◌, refl, ap, ◌∙◌, List, [], ◌∷◌, ◌++◌, Bool, true, false, ◌&&◌,
  Option, none, some, arith, ltb, ltb→lt, sym, ◌==◌, if◌then◌else◌, length, get_or, set, take, drop,
  length-set, drop-set_lt, take-set_self, drop-get_or, drop_all, Bool-cases, inl, inr,
}
use mathlib.Core.List.{append_assoc, append-nil}
use quick_js_swift.Unicode.CharRange.{at, run_end, compress_loop, compress}

-- The same pass over a list; the option is the end of an interval that may still grow.
unfoldable pub compacted : Option ℕ → List ℕ → List ℕ
compacted none [] = []
compacted none (x ∷ []) = []
compacted none (x ∷ y ∷ r) =
    let skip = compacted none r in
    let keep = x ∷ compacted (some y) r in if x == y then skip else keep
compacted (some e) [] = e ∷ []
compacted (some e) (x ∷ []) = e ∷ []
compacted (some e) (x ∷ y ∷ r) =
    let skip = compacted none r in
    let keep = compacted (some y) r in
    if e == x then keep else (e ∷ (if x == y then skip else (x ∷ keep)))

pub compacted_skip :
    (x y : ℕ) (r : List ℕ) → (x == y) ≡ true → compacted none (x ∷ y ∷ r) ≡ compacted none r
unfolding compacted
compacted_skip x y r h = rw h

pub compacted_keep :
    (x y : ℕ) (r : List ℕ)
    → (x == y) ≡ false
    → compacted none (x ∷ y ∷ r) ≡ x ∷ compacted (some y) r
unfolding compacted
compacted_keep x y r h = rw h

pub compacted_stop :
    (e x y : ℕ) (r : List ℕ)
    → (e == x) ≡ false
    → compacted (some e) (x ∷ y ∷ r) ≡ e ∷ compacted none (x ∷ y ∷ r)
unfolding compacted
compacted_stop e x y r h = rw h

pub compacted_on :
    (e x y : ℕ) (r : List ℕ)
    → (e == x) ≡ true
    → compacted (some e) (x ∷ y ∷ r) ≡ compacted (some y) r
unfolding compacted
compacted_on e x y r h = rw h

-- Two points at a time from position `i`.
pair_at :
    (pt : List ℕ) (i : ℕ)
    → i + 1 < length pt
    → drop i pt ≡ at pt i ∷ at pt (i + 1) ∷ drop (i + 2) pt
unfolding at
pair_at pt i h =
    drop-get_or i pt 0 (omega arith)
    ∙ ap (◌∷◌ (get_or pt i 0)) (
        ap (λ (n : ℕ). drop n pt) (add_one i)
        ∙ drop-get_or (i + 1) pt 0 h
        ∙ ap (λ (n : ℕ). get_or pt (i + 1) 0 ∷ drop n pt) (add_two i))
  where
    add_one : (n : ℕ) → suc n ≡ n + 1
    add_one n = omega arith

    add_two : (n : ℕ) → suc (n + 1) ≡ n + 2
    add_two n = omega arith

short_none : (pt : List ℕ) (i : ℕ) → length pt ≤ i + 1 → compacted none (drop i pt) ≡ []
unfolding compacted
short_none [] i h = ap (compacted none) (drop_all i [] (omega arith))
short_none (x ∷ []) zero h = refl
short_none (x ∷ y ∷ r) zero h = absurd (omega arith)
short_none (x ∷ r) (suc i) h = short_none r i (omega arith)

short_some :
    (e : ℕ) (pt : List ℕ) (i : ℕ) → length pt ≤ i + 1 → compacted (some e) (drop i pt) ≡ e ∷ []
unfolding compacted
short_some e [] i h = ap (compacted (some e)) (drop_all i [] (omega arith))
short_some e (x ∷ []) zero h = refl
short_some e (x ∷ y ∷ r) zero h = absurd (omega arith)
short_some e (x ∷ r) (suc i) h = short_some e r i (omega arith)

grows : ℕ → List ℕ → ℕ → Bool
grows j pt len = ltb (j + 3) len && (at pt (j + 1) == at pt (j + 2))

run_end-suc :
    (fuel : ℕ) (pt : List ℕ) (len j : ℕ)
    → run_end (suc fuel) pt len j ≡ (if grows j pt len then run_end fuel pt len (j + 2) else j)
unfolding run_end grows
run_end-suc fuel pt len j = refl

pair_after :
    (pt : List ℕ) (j : ℕ)
    → j + 3 < length pt
    → drop (j + 2) pt ≡ at pt (j + 2) ∷ at pt (j + 3) ∷ drop (j + 4) pt
pair_after pt j h =
    let three : j + 2 + 1 ≡ j + 3 = omega arith in
    let four : j + 2 + 2 ≡ j + 4 = omega arith in
    rw (three, four) at (pair_at pt (j + 2) (omega arith))

-- `e` ends the run from `j`, and the list pass has the same rest there.
record Ends (pt : List ℕ) (j e : ℕ) : Type 0 where
  forward : j ≤ e
  inside : e + 1 < length pt
  rest :
      compacted (some (at pt (j + 1))) (drop (j + 2) pt)
      ≡ at pt (e + 1) ∷ compacted none (drop (e + 2) pt)

Ends-here : (pt : List ℕ) (j : ℕ) → j + 1 < length pt → grows j pt (length pt) ≡ false → Ends pt j j
unfolding grows
Ends-here pt j h stop = record {
  forward = omega arith;
  inside = h;
  rest = elim (Bool-cases (ltb (j + 3) (length pt))) [
    | inl room ↦ rw (pair_after pt j (ltb→lt _ _ room)) (compacted_stop _ _ _ _ (rw room at stop))
    | inr full ↦
        short_some (at pt (j + 1)) pt (j + 2) (ground arith)
        ∙ ap (◌∷◌ (at pt (j + 1))) (sym (short_none pt (j + 2) (ground arith)))
  ];
}

Ends-on : (pt : List ℕ) (j e : ℕ) → grows j pt (length pt) ≡ true → Ends pt (j + 2) e → Ends pt j e
unfolding grows
Ends-on pt j e more r =
    let room : j + 3 < length pt = ground arith in
    let three : j + 2 + 1 ≡ j + 3 = omega arith in
    let four : j + 2 + 2 ≡ j + 4 = omega arith in
    record {
      forward = omega arith;
      inside = r.inside;
      rest =
          rw (pair_after pt j room)
            (compacted_on _ _ _ _ (ground arith) ∙ rw (three, four) at r.rest);
    }

-- The inner loop stops at the end of the interval.
run_end-Ends :
    (fuel : ℕ) (pt : List ℕ) (j : ℕ)
    → length pt ≤ j + fuel + 1
    → j + 1 < length pt
    → Ends pt j (run_end fuel pt (length pt) j)
run_end-Ends zero pt j h g = absurd (omega arith)
run_end-Ends (suc fuel) pt j h g = rw run_end-suc (elim (Bool-cases (grows j pt (length pt))) [
  | inl more ↦
      rw more
        (Ends-on pt j _ more (run_end-Ends fuel pt (j + 2) (omega arith) (grows_room pt j more)))
  | inr stop ↦ rw stop (Ends-here pt j g stop)
])
  where
    grows_room : (pt : List ℕ) (j : ℕ) → grows j pt (length pt) ≡ true → j + 2 + 1 < length pt
    grows_room pt j e = unfold grows in ground arith

module _ (pt : List ℕ) (k a b : ℕ) where
  written : List ℕ
  written = set (set pt k a) (k + 1) b

  length-written : length written ≡ length pt
  unfolding written
  length-written = length-set (set pt k a) (k + 1) b ∙ length-set pt k a

  take-written : k + 1 < length pt → take (k + 2) written ≡ take k pt ++ (a ∷ b ∷ [])
  unfolding written
  take-written h =
      let one : k + 1 ≡ suc k = omega arith in
      let two : k + 2 ≡ suc (suc k) = omega arith in
      rw (one, two)
        (take-set_self (suc k) (set pt k a) b (omega (arith, length-set pt k a))
          ∙ ap (λ (l : List ℕ). l ++ (b ∷ [])) (take-set_self k pt a (omega arith))
          ∙ append_assoc (take k pt) (a ∷ []) (b ∷ []))

  drop-written : (n : ℕ) → k + 1 < n → drop n written ≡ drop n pt
  unfolding written
  drop-written n h = drop-set_lt (k + 1) n (set pt k a) b h ∙ drop-set_lt k n pt a (omega arith)

copied :
    (pt : List ℕ) (i e : ℕ)
    → i + 1 < length pt
    → (at pt i == at pt (i + 1)) ≡ false
    → Ends pt i e
    → compacted none (drop i pt) ≡ at pt i ∷ at pt (e + 1) ∷ compacted none (drop (e + 2) pt)
copied pt i e h ne ends =
    rw (pair_at pt i h) (compacted_keep _ _ _ ne ∙ ap (◌∷◌ (at pt i)) ends.rest)

skipped :
    (pt : List ℕ) (i : ℕ)
    → i + 1 < length pt
    → (at pt i == at pt (i + 1)) ≡ true
    → compacted none (drop i pt) ≡ compacted none (drop (i + 2) pt)
skipped pt i h eq = rw (pair_at pt i h) (compacted_skip _ _ _ eq)

-- What the outer loop leaves below its final `k`.
kept : List ℕ × ℕ → List ℕ
kept r = take r.1 r.0

compress_loop-stop :
    (fuel : ℕ) (pt : List ℕ) (len i k : ℕ)
    → ltb (i + 1) len ≡ false
    → compress_loop (suc fuel) pt len i k ≡ (pt, k)
unfolding compress_loop
compress_loop-stop fuel pt len i k h = rw h

compress_loop-skip :
    (fuel : ℕ) (pt : List ℕ) (len i k : ℕ)
    → ltb (i + 1) len ≡ true
    → (at pt i == at pt (i + 1)) ≡ true
    → compress_loop (suc fuel) pt len i k ≡ compress_loop fuel pt len (i + 2) k
unfolding compress_loop
compress_loop-skip fuel pt len i k h g = rw (h, g)

compress_loop-copy :
    (fuel : ℕ) (pt : List ℕ) (len i k : ℕ)
    → ltb (i + 1) len ≡ true
    → (at pt i == at pt (i + 1)) ≡ false
    → let e = run_end len pt len i in
      compress_loop (suc fuel) pt len i k
      ≡ compress_loop fuel (written pt k (at pt i) (at pt (e + 1))) len (e + 2) (k + 2)
unfolding compress_loop written
compress_loop-copy fuel pt len i k h g = rw (h, g)

compress_loop_lem :
    (fuel : ℕ) (pt : List ℕ) (len i k : ℕ)
    → length pt ≡ len
    → len ≤ i + fuel
    → k ≤ i
    → kept (compress_loop fuel pt len i k) ≡ take k pt ++ compacted none (drop i pt)
unfolding kept
compress_loop_lem zero pt len i k el h hk =
    rw (short_none pt i (omega arith), append-nil) (unfold compress_loop in refl)
compress_loop_lem (suc fuel) pt len i k el h hk = elim (Bool-cases (ltb (i + 1) len)) [
  | inr stop ↦
      rw (compress_loop-stop fuel pt len i k stop, short_none pt i (ground arith), append-nil)
  | inl go ↦
      let inside : i + 1 < length pt = ground arith in
      elim (Bool-cases (at pt i == at pt (i + 1))) [
        | inl eq ↦
            rw (compress_loop-skip fuel pt len i k go eq, skipped pt i inside eq)
              (compress_loop_lem fuel pt len (i + 2) k el (omega arith) (omega arith))
        | inr ne ↦
            let e = run_end len pt len i in
            let ends : Ends pt i e =
              rw el at (run_end-Ends (length pt) pt i (omega arith) inside) in
            let w = written pt k (at pt i) (at pt (e + 1)) in
            rw (compress_loop-copy fuel pt len i k go ne, copied pt i e inside ne ends)
              (compress_loop_lem fuel w len (e + 2) (k + 2) (length-written pt k _ _ ∙ el)
                  (omega (arith, ends.forward)) (omega (arith, ends.forward))
                ∙ rw (
                  take-written pt k (at pt i) (at pt (e + 1))
                      (omega (arith, ends.forward, ends.inside)),
                  drop-written pt k (at pt i) (at pt (e + 1)) (e + 2) (omega (arith, ends.forward)),
                  append_assoc,
                ))
      ]
]

-- `cr_compress`, which overwrites the array that it reads, leaves the list pass of the old points.
pub compress-compacted : (points : List ℕ) → compress points ≡ compacted none points
unfolding compress kept
compress-compacted points =
    compress_loop_lem (length points) points (length points) 0 0 refl (omega arith) (omega arith)
