-- ===== src/SocketChannel/Flush.antt =====
-- `handleWriteEvent`.
use nets.Prelude.{
  ℕ, suc, ◌≤◌, ◌≡◌, refl, ap, sym, ◌∙◌, subst, ◌⊎◌, inl, inr, false, Option, List, [], ◌∷◌, ◌++◌,
  arith, Bool-cases, length, ◌==◌, ==_iff, take, drop, map, append-nil, append_assoc, take_all,
  take-append-drop,
}
use nets.Memory.{ok}
use nets.SocketChannel.{
  SocketChannel, inactive, is_inactive, is_half_close, Written, wrote, write_failed, add_callback,
  channel_in_active, handle_error,
}
use nets.SocketChannel.Output.{
  add_callbacks, flushed, remove_sent_buffer, total_bytes, after_writev, handle_write_event,
}
use nets.ByteBuffer.Content.{contents}
use nets.SocketChannel.Blocks.{pending, total_bytes-length, remove_sent_buffer-Removed}
use nets.SocketChannel.Vectors.{WritesPrefix, IsKernel, writev-Writes}
use nets.SocketChannel.Stream.{stream, IsSending}
use nets.SocketChannel.Sends.{callback-same}

add_callbacks-same :
    (c : SocketChannel) (callbacks : List (Option ℕ))
    → ((add_callbacks c callbacks).sent ≡ c.sent)
      × ((add_callbacks c callbacks).write_buffer ≡ c.write_buffer)
unfolding add_callbacks
add_callbacks-same c [] = (refl, refl)
add_callbacks-same c (callback ∷ callbacks) =
    let (sent, buffer, _) = callback-same c callback in
    let (sent', buffer') = add_callbacks-same (add_callback c callback) callbacks in
    (sent' ∙ sent, buffer' ∙ buffer)

flushed-same : (c : SocketChannel) → ((flushed c).sent ≡ c.sent) × ((flushed c).write_buffer ≡ [])
unfolding flushed channel_in_active
flushed-same c =
    let (sent, buffer) =
      add_callbacks-same (record c { write_buffer = [] }) c.write_complete_callbacks in
    elim (Bool-cases (is_half_close c.state)) [
      | inl half ↦ (rw half sent, rw half buffer)
      | inr whole ↦ (rw whole sent, rw whole buffer)
    ]

-- The bytes that the kernel took are the next ones of those that waited, and the others wait on; or the
-- channel is inactive.
pub record Flushes (c c' : SocketChannel) : Type 0 where
  pub count : ℕ
  pub took : c'.sent ≡ c.sent ++ take count (pending c.write_buffer)
  pub kept : ((stream c' ≡ stream c) × IsSending c') ⊎ (c'.state ≡ inactive)

after_writev-wrote :
    (c c1 : SocketChannel) (n : ℕ)
    → IsSending c
    → n ≤ length (pending c.write_buffer)
    → c1 ≡ record c { sent = c.sent ++ take n (pending c.write_buffer) }
    → Flushes c (after_writev c1 (wrote n))
unfolding after_writev
after_writev-wrote c c1 n s within e =
    subst (λ d. Flushes c (after_writev d (wrote n))) (sym e)
      (elim (Bool-cases (total_bytes c.write_buffer == n)) [
        | inl all ↦
            let c2 : SocketChannel = record c {
              sent = c.sent ++ take n (pending c.write_buffer);
            } in
            let (sent, buffer) = flushed-same c2 in
            let whole : length (pending c.write_buffer) ≤ n =
              omega (arith, total_bytes-length c.write_buffer s.filled, (==_iff _ _).0 all) in
            rw all (record {
              count = n;
              took = sent;
              kept = inl (
                rw (sent, buffer)
                    (append-nil (c.sent ++ take n (pending c.write_buffer))
                      ∙ ap (λ l. c.sent ++ l) (take_all n (pending c.write_buffer) whole)),
                record { filled = rw buffer tt; armed = inl buffer },
              );
            })
        | inr part ↦
            let removed = remove_sent_buffer-Removed c.write_buffer n s.filled in
            rw part (record {
              count = n;
              took = refl;
              kept = inl (
                rw removed.rest (
                    append_assoc c.sent (take n (pending c.write_buffer))
                      (drop n (pending c.write_buffer))
                    ∙ ap (λ l. c.sent ++ l) (take-append-drop n (pending c.write_buffer))),
                record {
                  filled = removed.filled;
                  armed = elim s.armed [
                    | inl free ↦ inl (rw free (remove_none n))
                    | inr on ↦ inr on
                  ];
                },
              );
            })
      ])
  where
    remove_none : (k : ℕ) → remove_sent_buffer [] k ≡ []
    remove_none k = refl

after_writev-Flushes :
    (c c1 : SocketChannel) (answer : Written) (taken : List ℕ)
    → IsSending c
    → WritesPrefix (pending c.write_buffer) answer taken
    → c1 ≡ record c { sent = c.sent ++ taken }
    → Flushes c (after_writev c1 answer)
unfolding after_writev handle_error channel_in_active
after_writev-Flushes c c1 (wrote n) taken s w e = elim w.says [
  | inl done ↦
      let same : n ≡ w.count = cc done in
      after_writev-wrote c c1 n s (omega (arith, w.within, same)) (
        e
        ∙ ap (λ l. record c { sent = c.sent ++ l })
            (w.prefix ∙ ap (λ k. take k (pending c.write_buffer)) (sym same)))
  | inr (errno, failed, hard) ↦ cc failed
]
after_writev-Flushes c c1 (write_failed errno) taken s w e = elim w.says [
  | inl done ↦ cc done
  | inr (errno', failed, hard) ↦
      let same : errno ≡ errno' = cc failed in
      rw (same, hard)
        (record {
          count = w.count;
          took = ap (λ d. d.sent) e ∙ ap (λ l. c.sent ++ l) w.prefix;
          kept = inr refl;
        })
]

length-map : {A B : Type 0} (f : A → B) (xs : List A) → length (map f xs) ≡ length xs
length-map f [] = refl
length-map f (x ∷ xs) = ap suc (length-map f xs)

pub handle_write_event-Flushes :
    (c : SocketChannel) (answers : ℕ → Written)
    → is_inactive c.state ≡ false
    → IsSending c
    → length c.write_buffer ≤ 512
    → IsKernel answers (map contents c.write_buffer)
    → (c' : SocketChannel) × (handle_write_event c answers ≡ ok c') × Flushes c c'
unfolding handle_write_event
handle_write_event-Flushes c answers open_state s few kernel =
    let (answer, taken, e, w) =
      writev-Writes answers (map contents c.write_buffer) kernel
        (omega (arith, length-map contents c.write_buffer)) in
    let c1 : SocketChannel = record c { sent = c.sent ++ taken } in
    (
      after_writev c1 answer,
      rw (open_state, e) refl,
      after_writev-Flushes c c1 answer taken s w refl,
    )
