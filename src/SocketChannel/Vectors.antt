-- ===== src/SocketChannel/Vectors.antt =====
-- The loop of `writev`, over at most 512 blocks: two calls of the kernel. Its sum of the expected
-- bytes starts at the written blocks but ends at the number of blocks of the call, so it is 0 from the
-- second call on; a third call would follow a short second one.
use nets.Prelude.{
  ℕ, zero, suc, ◌+◌, ◌-◌, ◌≤◌, ◌<◌, ◌≡◌, refl, ap, sym, ◌∙◌, subst, ◌⊎◌, inl, inr, false, List, [],
  ◌∷◌, ◌++◌, arith, Bool-cases, length, ltb, leb, take, drop, length-append, append-nil,
  append_assoc, take_all, le→leb, take-append_past, take-append_of_le,
}
use nets.Memory.{Result, ok}
use nets.SocketChannel.{Written, wrote, write_failed, is_transient}
use nets.SocketChannel.Output.{
  concat, batch, blocks_once, expected_write_len, writev_from, writev, after_call, taken_bytes,
}

-- The result of a `writev` and the bytes that were taken: a prefix of the whole, whose length is the
-- result, or an error that is neither `EAGAIN` nor `EINTR`.
pub record WritesPrefix (whole : List ℕ) (answer : Written) (taken : List ℕ) : Type 0 where
  pub count : ℕ
  pub within : count ≤ length whole
  pub prefix : taken ≡ take count whole
  pub says :
      (answer ≡ wrote count)
      ⊎ ((errno : ℕ) × (answer ≡ write_failed errno) × (is_transient errno ≡ false))

abbrev pub Writes : List ℕ → Result (Written × List ℕ) → Type 0
Writes whole r =
    (answer : Written) × (taken : List ℕ) × (r ≡ ok (answer, taken))
    × WritesPrefix whole answer taken

-- No call takes more bytes than it was given.
abbrev pub IsKernel : (ℕ → Written) → List (List ℕ) → Type 0
IsKernel answers iovecs = (i : ℕ) → taken_bytes (answers i) ≤ length (batch iovecs i)

concat-split :
    (n : ℕ) (xss : List (List ℕ)) → concat xss ≡ concat (take n xss) ++ concat (drop n xss)
concat-split zero xss = refl
concat-split (suc n) [] = refl
concat-split (suc n) (xs ∷ xss) =
    ap (λ l. xs ++ l) (concat-split n xss)
    ∙ sym (append_assoc xs (concat (take n xss)) (concat (drop n xss)))

second-covers :
    (n : ℕ) → n ≤ 512 → blocks_once n < n → n ≤ blocks_once n + blocks_once (n - blocks_once n)
second-covers n few more = ground arith

module _ (answers : ℕ → Written) (iovecs : List (List ℕ)) (kernel : IsKernel answers iovecs) where
  -- The bytes of the first blocks.
  abbrev ahead : ℕ → List ℕ
  ahead blocks = concat (take blocks iovecs)

  whole-batch :
      (blocks : ℕ)
      → concat iovecs
        ≡ ahead blocks
          ++ (batch iovecs blocks
              ++ concat (drop (blocks_once (length iovecs - blocks)) (drop blocks iovecs)))
  whole-batch blocks =
      concat-split blocks iovecs
      ∙ ap (λ l. ahead blocks ++ l)
          (concat-split (blocks_once (length iovecs - blocks)) (drop blocks iovecs))

  taken-prefix :
      (blocks k : ℕ)
      → k ≤ length (batch iovecs blocks)
      → (length (ahead blocks) + k ≤ length (concat iovecs))
        × (ahead blocks ++ take k (batch iovecs blocks)
            ≡ take (length (ahead blocks) + k) (concat iovecs))
  taken-prefix blocks k h =
      let rest = concat (drop (blocks_once (length iovecs - blocks)) (drop blocks iovecs)) in
      let all = whole-batch blocks in
      (
        omega (
          arith,
          ap length all,
          length-append (ahead blocks) (batch iovecs blocks ++ rest),
          length-append (batch iovecs blocks) rest,
        ),
        sym (
            ap (take (length (ahead blocks) + k)) all
            ∙ take-append_past _ k (ahead blocks) (batch iovecs blocks ++ rest) refl
            ∙ ap (λ l. ahead blocks ++ l) (take-append_of_le k (batch iovecs blocks) rest h)),
      )

  prefix-wrote :
      (blocks k : ℕ)
      → k ≤ length (batch iovecs blocks)
      → WritesPrefix
          (concat iovecs)
          (wrote (length (ahead blocks) + k))
          (ahead blocks ++ take k (batch iovecs blocks))
  prefix-wrote blocks k h =
      let (within, prefix) = taken-prefix blocks k h in
      record {
        count = length (ahead blocks) + k;
        within = within;
        prefix = prefix;
        says = inl refl;
      }

  failed-Writes :
      (blocks errno expected : ℕ) (more : Result (Written × List ℕ))
      → Writes (concat iovecs) (
          after_call
            (write_failed errno)
            expected
            (length (ahead blocks))
            (ahead blocks ++ take 0 (batch iovecs blocks))
            more)
  failed-Writes blocks errno expected more =
      let (within, prefix) = taken-prefix blocks 0 (omega arith) in
      (
        _,
        _,
        refl,
        record {
          count = length (ahead blocks) + 0;
          within = within;
          prefix = prefix;
          says = elim (Bool-cases (is_transient errno)) [
            | inl again ↦ inl (rw again (ap wrote (omega arith)))
            | inr hard ↦ inr (errno, rw hard refl, hard)
          ];
        },
      )

  after_call-Writes :
      (answer : Written) (blocks expected : ℕ) (more : Result (Written × List ℕ))
      → taken_bytes answer ≤ length (batch iovecs blocks)
      → (expected ≤ taken_bytes answer → Writes (concat iovecs) more)
      → Writes (concat iovecs) (
          after_call answer expected
            (length (ahead blocks))
            (ahead blocks ++ take (taken_bytes answer) (batch iovecs blocks))
            more)
  after_call-Writes (write_failed errno) blocks expected more h next =
      failed-Writes blocks errno expected more
  after_call-Writes (wrote k) blocks expected more h next = elim (Bool-cases (ltb k expected)) [
    | inl short ↦ (_, _, rw short refl, prefix-wrote blocks k h)
    | inr full ↦ rw full (next (ground arith))
  ]

  -- The last call of the loop.
  last-Writes :
      (fuel blocks : ℕ)
      → 2 ≤ fuel
      → blocks < length iovecs
      → length iovecs ≤ blocks + blocks_once (length iovecs - blocks)
      → Writes
          (concat iovecs)
          (writev_from fuel answers iovecs blocks (length (ahead blocks)) (ahead blocks))
  unfolding writev_from
  last-Writes zero blocks enough some last = absurd (omega arith)
  last-Writes (suc zero) blocks enough some last = absurd (omega arith)
  last-Writes (suc (suc fuel)) blocks enough some last =
      let open_end : leb (length iovecs) blocks ≡ false = ground arith in
      let k = taken_bytes (answers blocks) in
      rw open_end (
        after_call-Writes (answers blocks) blocks (expected_write_len iovecs blocks) _
          (kernel blocks)
          (λ _. (
            _,
            _,
            rw (le→leb (length iovecs) (blocks + blocks_once (length iovecs - blocks)) last) refl,
            prefix-wrote blocks k (kernel blocks),
          )))

  prefix-ahead :
      (blocks : ℕ) → WritesPrefix (concat iovecs) (wrote (length (ahead blocks))) (ahead blocks)
  prefix-ahead blocks =
      let (within, prefix) = taken-prefix blocks 0 (omega arith) in
      record {
        count = length (ahead blocks) + 0;
        within = within;
        prefix = sym (append-nil (ahead blocks)) ∙ prefix;
        says = inl (ap wrote (omega arith));
      }

  -- What follows a first call that took all its bytes.
  second-Writes :
      (fuel : ℕ)
      → length iovecs ≤ fuel
      → 1 ≤ length iovecs
      → length iovecs ≤ 512
      → Writes (concat iovecs) (
          writev_from fuel answers iovecs
            (blocks_once (length iovecs))
            (length (ahead (blocks_once (length iovecs))))
            (ahead (blocks_once (length iovecs))))
  unfolding writev_from
  second-Writes zero enough some few = absurd (omega arith)
  second-Writes (suc fuel) enough some few =
      let n = blocks_once (length iovecs) in
      elim (Bool-cases (leb (length iovecs) n)) [
        | inl all ↦ rw all (_, _, refl, prefix-ahead n)
        | inr more ↦
            last-Writes (suc fuel) n (ground arith) (ground arith)
              (second-covers (length iovecs) few (ground arith))
      ]

  same : length iovecs - 0 ≡ length iovecs
  same = omega arith

  first_batch : batch iovecs 0 ≡ ahead (blocks_once (length iovecs))
  first_batch = ap (λ m. ahead (blocks_once m)) same

  first_expected : expected_write_len iovecs 0 ≡ length (batch iovecs 0)
  first_expected = ap (λ m. length (ahead m)) (omega arith)

  first_whole :
      (fuel k : ℕ)
      → k ≡ length (batch iovecs 0)
      → Writes (concat iovecs) (
          writev_from fuel answers iovecs
            (blocks_once (length iovecs))
            (length (ahead (blocks_once (length iovecs))))
            (ahead (blocks_once (length iovecs))))
      → Writes (concat iovecs) (
          writev_from fuel answers iovecs
            (0 + blocks_once (length iovecs - 0))
            (0 + k)
            ([] ++ take k (batch iovecs 0)))
  first_whole fuel k all next =
      let n : blocks_once (length iovecs) ≡ 0 + blocks_once (length iovecs - 0) =
        omega (arith, ap blocks_once same) in
      let count : length (ahead (blocks_once (length iovecs))) ≡ 0 + k =
        omega (arith, all, ap length first_batch) in
      let bytes : ahead (blocks_once (length iovecs)) ≡ take k (batch iovecs 0) =
        sym first_batch ∙ sym (take_all k (batch iovecs 0) (omega (arith, all))) in
      let once = blocks_once (length iovecs) in
      subst
        (λ m.
          Writes (concat iovecs)
            (writev_from fuel answers iovecs m (0 + k) (take k (batch iovecs 0))))
        n
        (subst
          (λ m.
            Writes (concat iovecs)
              (writev_from fuel answers iovecs once m (take k (batch iovecs 0))))
          count
          (subst
            (λ m.
              Writes (concat iovecs) (writev_from fuel answers iovecs once (length (ahead once)) m))
            bytes next))

  -- Over at most 512 blocks, with a kernel that takes no more than it is given, `writev` ends, the
  -- bytes taken are a prefix of the whole, and it returns their count or the error of a call that
  -- failed for good.
  pub writev-Writes : length iovecs ≤ 512 → Writes (concat iovecs) (writev answers iovecs)
  unfolding writev writev_from
  writev-Writes few = elim (Bool-cases (leb (length iovecs) 0)) [
    | inl none_left ↦ rw none_left (_, _, refl, prefix-ahead 0)
    | inr some_left ↦ rw some_left (
        after_call-Writes (answers 0) 0 (expected_write_len iovecs 0) _ (kernel 0) (λ full.
          first_whole (length iovecs) (taken_bytes (answers 0))
            (omega (arith, kernel 0, full, first_expected))
            (second-Writes (length iovecs) (omega arith) (ground arith) few)))
  ]
