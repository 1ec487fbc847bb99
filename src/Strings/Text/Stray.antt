-- ===== src/Strings/Text/Stray.antt =====
-- What `JS_NewStringLen` makes of a continuation byte that stands alone.
use quick_js_swift.Base.{
  ℕ, suc, ◌≤◌, ◌<◌, ◌≡◌, refl, ◌∙◌, inl, List, [], ◌∷◌, true, false, ◌&&◌, ltb, leb, length, arith,
}
use quick_js_swift.Unicode.Utf8.{error, unicode_from_utf8}
use quick_js_swift.Unicode.Utf8.RoundTrip.{no_lead}
use quick_js_swift.Strings.Buffer.Finish.{putc16}
use quick_js_swift.Strings.Text.{is_continuation, skip_continuations, skip_next, wide_round, round}
use quick_js_swift.Strings.Text.Decode.{utf8_loop-round}
use quick_js_swift.Strings.Text.Encode.{decoded}

round_stray :
    (b a : ℕ) (p : List ℕ)
    → 0x80 ≤ b
    → b < 0xc0
    → a < 0x80
    → round b (a ∷ p) ≡ (putc16 0xfffd ∷ [], skip_continuations p)
unfolding round wide_round skip_next skip_continuations is_continuation
round_stray b a p lo hi ascii =
    let bad : unicode_from_utf8 (b ∷ a ∷ p) (suc (suc (length p))) ≡ error =
      no_lead 0 (suc (suc (length p))) [] b (a ∷ p) lo (inl hi) in
    let high : ltb b 128 ≡ false = ground arith in
    let follows : (leb 0x80 b && ltb b 0xc0) ≡ true = ground arith in
    let stops : (leb 0x80 a && ltb a 0xc0) ≡ false = ground arith in
    rw (high, bad, follows, stops) refl

-- The ASCII character behind a continuation byte that stands alone is lost with it: one U+FFFD
-- is written for both, and for all continuation bytes behind them.
pub decoded_stray :
    (b a : ℕ) (p : List ℕ)
    → 0x80 ≤ b
    → b < 0xc0
    → a < 0x80
    → decoded (b ∷ a ∷ p) ≡ 0xfffd ∷ decoded (skip_continuations p)
decoded_stray b a p lo hi ascii =
    let r = round_stray b a p lo hi ascii in
    utf8_loop-round (suc (suc (length p))) b (a ∷ p) (omega arith) ∙ rw r refl
