-- ===== src/ByteBuffer/Values/Message.antt =====
-- Typed values that one host writes and another reads.
use nets.Prelude.{
  ℕ, ◌-◌, ◌*◌, ◌^◌, ◌≤◌, ◌<◌, ◌≡◌, refl, ap, sym, ◌∙◌, List, [], ◌∷◌, ◌++◌, arith, append-nil,
  append_assoc, map, subst,
}
use nets.Prelude.Int.{ℤ, pos, negsuc, ◌≤ℤ◌}
use nets.Memory.{Result, ok, ◌>>=◌, >>=-ok}
use nets.ByteBuffer.{ByteBuffer}
use nets.ByteBuffer.Content.{IsValid, contents}
use nets.ByteBuffer.Writes.{Appended}
use nets.ByteBuffer.Values.{
  Endian, pattern_of, read_signed, read_word, write_word, read_int32, read_int64, write_int32,
  write_int64,
}
use nets.ByteBuffer.Values.Wire.{
  wire, length-wire, read_word-wire, signed-pattern_of, pattern_of-lt, write_word-Appended,
}

-- A word of `width` bytes in a message.
pub record Word : Type 0 where
  pub width : ℕ
  pub value : ℕ

unfoldable pub write_all : Endian → ByteBuffer → List Word → Result ByteBuffer
write_all host b [] = ok b
write_all host b (x ∷ xs) = write_word host x.width b x.value >>= λ b'. write_all host b' xs

unfoldable pub read_all : Endian → ByteBuffer → List ℕ → Result (List ℕ × ByteBuffer)
read_all host b [] = ok ([], b)
read_all host b (n ∷ ns) =
    read_word host n b >>= λ (w, b'). read_all host b' ns >>= λ (ws, b''). ok (w ∷ ws, b'')

abbrev pub encoded : List Word → List ℕ
encoded [] = []
encoded (x ∷ xs) = wire x.width x.value ++ encoded xs

abbrev pub AllFit : List Word → Type 0
AllFit [] = Unit
AllFit (x ∷ xs) = (x.width ≤ 8) × (x.value < 256 ^ x.width) × AllFit xs

-- An encoded message at the front of the buffer is read word by word.
read_all-encoded :
    (host : Endian) (xs : List Word) (rest : List ℕ) (b : ByteBuffer)
    → IsValid b
    → AllFit xs
    → contents b ≡ encoded xs ++ rest
    → (b' : ByteBuffer) × (read_all host b (map (λ x. x.width) xs) ≡ ok (map (λ x. x.value) xs, b'))
      × IsValid b'
      × (contents b' ≡ rest)
unfolding read_all
read_all-encoded host [] rest b v fit e = (b, refl, v, e)
read_all-encoded host (x ∷ xs) rest b v fit e =
    let (b', one, v', left) =
      read_word-wire host x.width x.value (encoded xs ++ rest) b v fit.1
        (e ∙ append_assoc (wire x.width x.value) (encoded xs) rest) in
    let (b'', more, v'', left') = read_all-encoded host xs rest b' v' fit.2 left in
    (b'', rw (one, more) refl, v'', left')

-- A buffer whose indices stay far from the end of the address space.
abbrev pub IsModest : ByteBuffer → Type 0
IsModest b = b.capacity ≤ 2 ^ 31

write_word-contents :
    (host : Endian) (n w : ℕ) (b b' : ByteBuffer)
    → n ≤ 8
    → IsValid b
    → IsModest b
    → write_word host n b w ≡ ok b'
    → IsValid b' × IsModest b' × (contents b' ≡ contents b ++ wire n w)
write_word-contents host n w b b' small v modest e =
    let (v', same, cap) =
      subst (Appended b (wire n w)) e
        (write_word-Appended host n w b v (omega (arith, v.within))) in
    (v', omega (arith, length-wire n w), same)

write_all-encoded :
    (host : Endian) (xs : List Word) (b b' : ByteBuffer)
    → IsValid b
    → IsModest b
    → AllFit xs
    → write_all host b xs ≡ ok b'
    → IsValid b' × (contents b' ≡ contents b ++ encoded xs)
unfolding write_all
write_all-encoded host [] b b' v modest fit e =
    let same : b ≡ b' = cc in
    (subst IsValid same v, ap contents (sym same) ∙ sym (append-nil (contents b)))
write_all-encoded host (x ∷ xs) b b' v modest fit e =
    let (c, first, rest) = >>=-ok (write_word host x.width b x.value) _ e in
    let (v', modest', same) = write_word-contents host x.width x.value b c fit.0 v modest first in
    let (v'', more) = write_all-encoded host xs c b' v' modest' fit.2 rest in
    (
      v'',
      more
          ∙ ap (λ l. l ++ encoded xs) same
          ∙ append_assoc (contents b) (wire x.width x.value) (encoded xs),
    )

-- Words of at most 8 bytes, of values that fit, that one host writes to an empty, valid buffer of at
-- most 2 ^ 31 bytes are, where the writes succeed, what a host of any byte order reads.
pub message_round_trip :
    (writer reader : Endian) (xs : List Word) (b b' : ByteBuffer)
    → IsValid b
    → IsModest b
    → contents b ≡ []
    → AllFit xs
    → write_all writer b xs ≡ ok b'
    → (b'' : ByteBuffer) × (read_all reader b' (map (λ x. x.width) xs)
        ≡ ok (map (λ x. x.value) xs, b''))
      × IsValid b''
      × (contents b'' ≡ [])
message_round_trip writer reader xs b b' v modest fresh fit e =
    let (v', same) = write_all-encoded writer xs b b' v modest fit e in
    read_all-encoded reader xs [] b' v' fit
      (same ∙ ap (λ l. l ++ encoded xs) fresh ∙ sym (append-nil (encoded xs)))

signed_round_trip :
    (writer reader : Endian) (n half : ℕ) (x : ℤ) (b b' : ByteBuffer)
    → n ≤ 8
    → 256 ^ n ≡ 2 * half
    → 1 ≤ half
    → negsuc (half - 1) ≤ℤ x
    → x ≤ℤ pos (half - 1)
    → IsValid b
    → IsModest b
    → contents b ≡ []
    → write_word writer n b (pattern_of n x) ≡ ok b'
    → (b'' : ByteBuffer) × (read_signed reader n b' ≡ ok (x, b'')) × (contents b'' ≡ [])
unfolding read_signed
signed_round_trip writer reader n half x b b' small bits some_bits lo hi v modest fresh e =
    let (v', _, same) = write_word-contents writer n (pattern_of n x) b b' small v modest e in
    let (b'', got, _, left) =
      read_word-wire reader n (pattern_of n x) [] b' v' (pattern_of-lt n x)
        (same ∙ ap (λ l. l ++ wire n (pattern_of n x)) fresh ∙ sym (append-nil _)) in
    (b'', rw got (ap (λ y. ok (y, b'')) (signed-pattern_of n x half bits lo hi some_bits)), left)

-- An `int32_t` that is written to an empty, valid buffer of at most 2 ^ 31 bytes comes back as it
-- was, negative ones too, between hosts of any byte orders, where the write succeeds.
read_int32-write_int32 :
    (writer reader : Endian) (x : ℤ) (b b' : ByteBuffer)
    → negsuc (2 ^ 31 - 1) ≤ℤ x
    → x ≤ℤ pos (2 ^ 31 - 1)
    → IsValid b
    → IsModest b
    → contents b ≡ []
    → write_int32 writer b x ≡ ok b'
    → (b'' : ByteBuffer) × (read_int32 reader b' ≡ ok (x, b'')) × (contents b'' ≡ [])
unfolding read_int32 write_int32
read_int32-write_int32 writer reader x b b' lo hi v modest fresh e =
    signed_round_trip writer reader 4 (2 ^ 31) x b b' (omega arith) refl (omega arith) lo hi v
      modest fresh e

-- An `int64_t` that is written to an empty, valid buffer of at most 2 ^ 31 bytes comes back as it
-- was, negative ones too, between hosts of any byte orders, where the write succeeds.
read_int64-write_int64 :
    (writer reader : Endian) (x : ℤ) (b b' : ByteBuffer)
    → negsuc (2 ^ 63 - 1) ≤ℤ x
    → x ≤ℤ pos (2 ^ 63 - 1)
    → IsValid b
    → IsModest b
    → contents b ≡ []
    → write_int64 writer b x ≡ ok b'
    → (b'' : ByteBuffer) × (read_int64 reader b' ≡ ok (x, b'')) × (contents b'' ≡ [])
unfolding read_int64 write_int64
read_int64-write_int64 writer reader x b b' lo hi v modest fresh e =
    signed_round_trip writer reader 8 (2 ^ 63) x b b' (omega arith) refl (omega arith) lo hi v
      modest fresh e
