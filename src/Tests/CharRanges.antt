-- ===== src/Tests/CharRanges.antt =====
-- Character ranges and UTF-8 at concrete inputs.
use quick_js_swift.Base.{
  ℕ, ◌+◌, ◌≤◌, ◌<◌, ◌≡◌, refl, List, [], ◌∷◌, ◌++◌, Bool, true, ◌↔◌, ◌≢◌, arith, length, ◌||◌, ◌&&◌,
  leb, none,
}
use quick_js_swift.Unicode.CharRange.{CharRange, inter, cr_op, cr_union_interval, cr_invert, ◌>>=◌}
use quick_js_swift.Unicode.CharRange.Member.{inside}
use quick_js_swift.Unicode.CharRange.{compress}
use quick_js_swift.Unicode.CharRange.Array.{compacted, compress-compacted}
use quick_js_swift.Unicode.CharRange.Loop.{Grants}
use quick_js_swift.Unicode.CharRange.Ops.{
  Represents, complement, AreWords, cr_op_lem, cr_union_interval_lem, cr_invert_lem,
  cr_invert_twice,
}
use quick_js_swift.Unicode.Utf8.{unicode_to_utf8, unicode_from_utf8, code, overrun}
use quick_js_swift.Unicode.Utf8.RoundTrip.{unicode_from_utf8_iff}
use quick_js_swift.Unicode.Utf8.Overrun.{unicode_from_utf8-ne-overrun}

-- An allocator that counts its calls and meets every request.
abbrev counting : ℕ → ℕ → ℕ × Bool
counting s n = (s + 1, true)

counting-Grants : Grants counting
counting-Grants s n = refl

abbrev fresh : List ℕ → CharRange ℕ
fresh ps = record { points = ps; size = length ps; mem_opaque = 0 }

abbrev upper : List ℕ
upper = 0x41 ∷ 0x5b ∷ []

abbrev split_upper : List ℕ
split_upper = 0x41 ∷ 0x50 ∷ 0x50 ∷ 0x5b ∷ []

abbrev vowels : List ℕ
vowels = 0x41 ∷ 0x42 ∷ 0x45 ∷ 0x46 ∷ []

cr_op_lem_example :
    let r = cr_op counting (fresh []) upper vowels inter in
    (r.1 ≡ true) × Represents r.0.points (λ v. inside v upper && inside v vowels)
cr_op_lem_example =
    cr_op_lem counting (fresh []) upper vowels inter counting-Grants refl (omega arith)
      (omega arith)

same_upper : (v : ℕ) → inside v upper ≡ inside v split_upper
same_upper v = ground arith

cr_union_interval_lem_example :
    let r = cr_union_interval counting (fresh upper) 0x61 0x7a in
    (r.1 ≡ true) × Represents r.0.points (λ v. inside v upper || (leb 0x61 v && leb v 0x7a))
cr_union_interval_lem_example =
    cr_union_interval_lem counting (fresh upper) 0x61 0x7a counting-Grants (omega arith)
      (omega arith) (omega arith)

cr_invert_lem_example :
    let r = cr_invert counting (fresh upper) in
    (r.1 ≡ true) × Represents r.0.points (complement (λ v. inside v upper)) × AreWords r.0.points
cr_invert_lem_example =
    cr_invert_lem counting (fresh upper) counting-Grants (omega arith) (omega arith)

cr_invert_twice_example :
    let r = cr_invert counting (fresh upper) >>= cr_invert counting in
    (r.1 ≡ true) × (r.0.points ≡ upper)
cr_invert_twice_example =
    cr_invert_twice counting (fresh upper) counting-Grants (omega arith) (omega arith)

-- The euro sign.
unicode_from_utf8_iff_example :
    (unicode_from_utf8 (0xe2 ∷ 0x82 ∷ 0xac ∷ 0x21 ∷ []) 4 ≡ code 0x20ac (0x21 ∷ [])) ↔ (
      (0x20ac < 2147483648)
      × (◌≡◌ {A = List ℕ} (0xe2 ∷ 0x82 ∷ 0xac ∷ 0x21 ∷ []) (unicode_to_utf8 0x20ac ++ (0x21 ∷ [])))
      × (length (unicode_to_utf8 0x20ac) ≤ 4))
unicode_from_utf8_iff_example =
    unicode_from_utf8_iff (0xe2 ∷ 0x82 ∷ 0xac ∷ 0x21 ∷ []) 4 0x20ac (0x21 ∷ []) (omega arith)

unicode_from_utf8-ne-overrun_example : unicode_from_utf8 (0xe2 ∷ 0x82 ∷ []) 2 ≢ overrun
unicode_from_utf8-ne-overrun_example =
    unicode_from_utf8-ne-overrun (0xe2 ∷ 0x82 ∷ []) 2 (omega arith) (omega arith)

compress-compacted_example :
    compress (1 ∷ 5 ∷ 5 ∷ 9 ∷ 12 ∷ 12 ∷ []) ≡ compacted none (1 ∷ 5 ∷ 5 ∷ 9 ∷ 12 ∷ 12 ∷ [])
compress-compacted_example = compress-compacted (1 ∷ 5 ∷ 5 ∷ 9 ∷ 12 ∷ 12 ∷ [])
