-- ===== src/ByteBuffer/Values/Wire.antt =====
-- What a number looks like on the wire, whatever the hosts at the two ends.
use native.Mathlib.Nat.{pow-suc, mod-eq_of_lt, mod-lt}
use mathlib.Core.List.{reverse-reverse, reverse-cons}
use nets.Prelude.{
  ℕ, zero, suc, ◌+◌, ◌-◌, ◌*◌, ◌/◌, ◌%◌, ◌^◌, ◌≤◌, ◌<◌, ◌≡◌, refl, ap, sym, ◌∙◌, inl, inr, List, [],
  ◌∷◌, ◌++◌, arith, ltb, lt→ltb, ltb-false, true, false, reverse, length, All, length-append,
  length-reverse,
}
use nets.Prelude.Int.{ℤ, pos, negsuc, ◌≤ℤ◌}
use nets.Memory.{ok}
use nets.ByteBuffer.{ByteBuffer}
use nets.ByteBuffer.Content.{IsValid, contents}
use nets.ByteBuffer.Writes.{Appended, write_bytes-Appended}
use nets.ByteBuffer.Reads.{read_bytes-Taken}
use nets.ByteBuffer.Values.{
  Endian, little, big, bytes_le, value_le, store, load, htobe, pattern_of, signed, write_raw,
  read_raw, read_word, write_word,
}

-- Network byte order.
abbrev pub wire : ℕ → ℕ → List ℕ
wire n w = reverse (bytes_le n w)

abbrev AreBytes : List ℕ → Type 0
AreBytes = All (λ x. x < 256)

value_le-bytes_le : (n w : ℕ) → w < 256 ^ n → value_le (bytes_le n w) ≡ w
unfolding value_le bytes_le
value_le-bytes_le zero w h = omega arith
value_le-bytes_le (suc n) w h =
    omega (arith, value_le-bytes_le n (w / 256) (omega (arith, pow-suc 256 n)))

length-bytes_le : (n w : ℕ) → length (bytes_le n w) ≡ n
unfolding bytes_le
length-bytes_le zero w = refl
length-bytes_le (suc n) w = ap suc (length-bytes_le n (w / 256))

bytes_le-AreBytes : (n w : ℕ) → AreBytes (bytes_le n w)
unfolding bytes_le
bytes_le-AreBytes zero w = tt
bytes_le-AreBytes (suc n) w = (omega arith, bytes_le-AreBytes n (w / 256))

AreBytes-append : (xs ys : List ℕ) → AreBytes xs → AreBytes ys → AreBytes (xs ++ ys)
AreBytes-append [] ys p q = q
AreBytes-append (x ∷ xs) ys p q = (p.0, AreBytes-append xs ys p.1 q)

AreBytes-reverse : (xs : List ℕ) → AreBytes xs → AreBytes (reverse xs)
AreBytes-reverse [] p = tt
AreBytes-reverse (x ∷ xs) p =
    rw reverse-cons (AreBytes-append (reverse xs) (x ∷ []) (AreBytes-reverse xs p.1) (p.0, tt))

bytes_le-value_le :
    (n : ℕ) (xs : List ℕ) → length xs ≡ n → AreBytes xs → bytes_le n (value_le xs) ≡ xs
unfolding value_le bytes_le
bytes_le-value_le zero [] e p = refl
bytes_le-value_le (suc n) [] e p = absurd (omega arith)
bytes_le-value_le zero (x ∷ xs) e p = absurd (omega arith)
bytes_le-value_le (suc n) (x ∷ xs) e p =
    let low : (x + 256 * value_le xs) % 256 ≡ x = omega arith in
    let high : (x + 256 * value_le xs) / 256 ≡ value_le xs = omega arith in
    rw (low, high) (ap (◌∷◌ x) (bytes_le-value_le n xs (omega arith) p.1))

wire-back : (n w : ℕ) → bytes_le n (value_le (wire n w)) ≡ wire n w
wire-back n w =
    bytes_le-value_le n (wire n w) (length-reverse (bytes_le n w) ∙ length-bytes_le n w)
      (AreBytes-reverse (bytes_le n w) (bytes_le-AreBytes n w))

pub length-wire : (n w : ℕ) → length (wire n w) ≡ n
length-wire n w = length-reverse (bytes_le n w) ∙ length-bytes_le n w

-- A host of either byte order puts the bytes of a word out highest first.
pub store-htobe : (host : Endian) (n w : ℕ) → store host n (htobe host n w) ≡ wire n w
unfolding store htobe
store-htobe little n w = wire-back n w
store-htobe big n w = refl

-- A host of either byte order reads them back.
pub htobe-load-wire :
    (host : Endian) (n w : ℕ) → w < 256 ^ n → htobe host n (load host (wire n w)) ≡ w
unfolding load htobe
htobe-load-wire little n w h =
    ap (λ l. value_le (reverse l)) (wire-back n w)
    ∙ ap value_le (reverse-reverse (bytes_le n w))
    ∙ value_le-bytes_le n w h
htobe-load-wire big n w h = ap value_le (reverse-reverse (bytes_le n w)) ∙ value_le-bytes_le n w h

append_cancel :
    (xs ys us vs : List ℕ) → length xs ≡ length ys → xs ++ us ≡ ys ++ vs → (xs ≡ ys) × (us ≡ vs)
append_cancel [] [] us vs l e = (refl, e)
append_cancel [] (y ∷ ys) us vs l e = absurd (omega arith)
append_cancel (x ∷ xs) [] us vs l e = absurd (omega arith)
append_cancel (x ∷ xs) (y ∷ ys) us vs l e =
    let (p, q) = append_cancel xs ys us vs (omega arith) (cc) in (cc, q)

-- The word at the front of the buffer is read, and the rest is left.
pub read_word-wire :
    (host : Endian) (n w : ℕ) (rest : List ℕ) (b : ByteBuffer)
    → IsValid b
    → w < 256 ^ n
    → contents b ≡ wire n w ++ rest
    → (b' : ByteBuffer) × (read_word host n b ≡ ok (w, b')) × IsValid b' × (contents b' ≡ rest)
unfolding read_word read_raw
read_word-wire host n w rest b v small e = elim (read_bytes-Taken b n v) [
  | inl (_, out, b', got, t) ↦
      let (p, q) =
        append_cancel out (wire n w) (contents b') rest (t.count ∙ sym (length-wire n w))
          (sym t.split ∙ e) in
      (b', rw (got, p, htobe-load-wire host n w small) refl, t.valid, q)
  | inr (lacks, _) ↦
      absurd (omega (arith, ap length e, length-append (wire n w) rest, length-wire n w))
]

pow_pos : (n : ℕ) → 1 ≤ 256 ^ n
pow_pos zero = omega arith
pow_pos (suc n) = omega (arith, pow-suc 256 n, pow_pos n)

-- Two's complement loses no value that fits.
pub signed-pattern_of :
    (n : ℕ) (v : ℤ) (half : ℕ)
    → 256 ^ n ≡ 2 * half
    → negsuc (half - 1) ≤ℤ v
    → v ≤ℤ pos (half - 1)
    → 1 ≤ half
    → signed n (pattern_of n v) ≡ v
signed-pattern_of n (pos x) half e lo hi some_bits =
    let small : x % 256 ^ n ≡ x = mod-eq_of_lt (omega arith) in
    let low : ltb (2 * x) (256 ^ n) ≡ true = lt→ltb _ _ (omega arith) in rw small (rw low)
signed-pattern_of n (negsuc x) half e lo hi some_bits =
    let small : x % 256 ^ n ≡ x = mod-eq_of_lt (omega arith) in
    let high : ltb (2 * (256 ^ n - 1 - x)) (256 ^ n) ≡ false = ltb-false _ _ (omega arith) in
    rw small (rw high (ap negsuc (omega arith)))

-- The pattern of a value of `n` bytes fits in them.
pub pattern_of-lt : (n : ℕ) (v : ℤ) → pattern_of n v < 256 ^ n
pattern_of-lt n (pos x) = mod-lt x (pow_pos n)
pattern_of-lt n (negsuc x) = omega (arith, pow_pos n)

-- A host of either byte order appends a word highest byte first to a valid buffer, if that ends
-- within 2 ^ 63, or the write throws, since the capacity that it needs is over the limit.
pub write_word-Appended :
    (host : Endian) (n w : ℕ) (b : ByteBuffer)
    → IsValid b
    → b.writer_index + n ≤ 2 ^ 63
    → Appended b (wire n w) (write_word host n b w)
unfolding write_word write_raw
write_word-Appended host n w b v fit =
    rw store-htobe (write_bytes-Appended b (wire n w) v (omega (arith, length-wire n w)))
