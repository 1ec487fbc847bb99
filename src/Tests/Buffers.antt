-- ===== src/Tests/Buffers.antt =====
-- Buffers and LEB128 numbers at concrete inputs.
use quick_js_swift.Base.{
  ℕ, zero, suc, ◌≤◌, ◌≡◌, refl, ap, sym, ◌∙◌, List, [], ◌∷◌, ◌++◌, false, Option, none, some, arith,
  length, take,
}
use quick_js_swift.Bytes.DynBuf.{DynBuf, contents, dbuf_put, dbuf_write}
use quick_js_swift.Bytes.DynBuf.Append.{Reallocates, IsValid, Stored, dbuf_put_lem, dbuf_write_lem}
use quick_js_swift.Bytes.DynBuf.Extend.{Serves}
use quick_js_swift.Bytes.Leb128.{dbuf_put_leb128, dbuf_put_sleb128, get_leb128, get_sleb128}
use quick_js_swift.Bytes.LineTable.Kept.{Shrinks}
use quick_js_swift.Bytes.Leb128.Write.{get_leb128-dbuf_put_leb128}

-- A block of `n` bytes: the old one, then zeros.
abbrev fit : List ℕ → ℕ → List ℕ
fit buf zero = []
fit [] (suc n) = 0 ∷ fit [] n
fit (b ∷ buf) (suc n) = b ∷ fit buf n

length-fit : (buf : List ℕ) (n : ℕ) → length (fit buf n) ≡ n
length-fit buf zero = refl
length-fit [] (suc n) = ap suc (length-fit [] n)
length-fit (b ∷ buf) (suc n) = ap suc (length-fit buf n)

take-fit : (buf : List ℕ) (n : ℕ) → length buf ≤ n → take (length buf) (fit buf n) ≡ buf
take-fit [] n h = refl
take-fit (b ∷ buf) zero h = absurd (omega arith)
take-fit (b ∷ buf) (suc n) h = ap (◌∷◌ b) (take-fit buf n (omega arith))

abbrev pub zeroing : ℕ → List ℕ → ℕ → ℕ × Option (List ℕ)
zeroing s buf n = (s, some (fit buf n))

abbrev from_some : Option (List ℕ) → List ℕ
from_some none = []
from_some (some a) = a

pub zeroing-Reallocates : Reallocates zeroing
zeroing-Reallocates = record {
  sized = λ s buf n out e. sym (ap (λ o. length (from_some o)) e) ∙ length-fit buf n;
  kept = λ s buf n out e h. sym (ap (λ o. take (length buf) (from_some o)) e) ∙ take-fit buf n h;
}

fit-take : (buf : List ℕ) (n : ℕ) → n ≤ length buf → fit buf n ≡ take n buf
fit-take buf zero h = refl
fit-take [] (suc n) h = absurd (omega arith)
fit-take (b ∷ buf) (suc n) h = ap (◌∷◌ b) (fit-take buf n (omega arith))

pub zeroing-Shrinks : Shrinks zeroing
zeroing-Shrinks s buf n out e h = sym (ap from_some e) ∙ fit-take buf n h

pub zeroing-Serves : Serves zeroing
zeroing-Serves s buf n = (fit buf n, refl)

-- Three bytes held in a block of four.
abbrev abc : DynBuf ℕ
abc = record {
  buf = 97 ∷ 98 ∷ 99 ∷ 0 ∷ [];
  size = 3;
  allocated_size = 4;
  error = false;
  opaque = 0;
}

abc-IsValid : IsValid abc
abc-IsValid = omega arith

dbuf_put_lem_example :
    Stored abc (97 ∷ 98 ∷ 99 ∷ 100 ∷ 101 ∷ []) (dbuf_put zeroing abc (100 ∷ 101 ∷ []))
dbuf_put_lem_example =
    dbuf_put_lem zeroing zeroing-Reallocates abc (100 ∷ 101 ∷ []) abc-IsValid (omega arith)

dbuf_write_lem_example :
    Stored abc (97 ∷ 120 ∷ 121 ∷ 122 ∷ []) (dbuf_write zeroing abc 1 (120 ∷ 121 ∷ 122 ∷ []))
dbuf_write_lem_example =
    dbuf_write_lem zeroing zeroing-Reallocates abc 1 (120 ∷ 121 ∷ 122 ∷ []) abc-IsValid
      (omega arith) (omega arith)

get_leb128-dbuf_put_leb128_example :
    ((bytes : List ℕ) × (contents (dbuf_put_leb128 zeroing abc 300) ≡ 97 ∷ 98 ∷ 99 ∷ bytes)
      × ((dbuf_put_leb128 zeroing abc 300).error ≡ false)
      × (get_leb128 (bytes ++ (7 ∷ [])) ≡ (some (length bytes), 300)))
    × ((bytes : List ℕ) × (contents (dbuf_put_sleb128 zeroing abc 300) ≡ 97 ∷ 98 ∷ 99 ∷ bytes)
        × ((dbuf_put_sleb128 zeroing abc 300).error ≡ false)
        × (get_sleb128 (bytes ++ (7 ∷ [])) ≡ (some (length bytes), 300)))
get_leb128-dbuf_put_leb128_example =
    get_leb128-dbuf_put_leb128 zeroing abc 300 (7 ∷ []) zeroing-Reallocates zeroing-Serves
      abc-IsValid refl (omega arith) (omega arith)
