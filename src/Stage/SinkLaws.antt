-- ===== src/Stage/SinkLaws.antt =====
-- What a sink has hashed and what it still holds are the words written to it.
use mathlib.Core.List.{append-nil, append_assoc}
use dirtybird_c_miner.Base.{
  ℕ, zero, suc, ◌+◌, ◌-◌, ◌%◌, ◌≤◌, ◌<◌, ◌≡◌, refl, sym, ap, ◌∙◌, subst, ◌&&◌, inl, inr, List, [],
  ◌∷◌, ◌++◌, length, length-append, length-take, length-drop, take, drop, take_append_drop, leb,
  ◌==◌, ==_iff, Bool-cases, min, arith,
}
use dirtybird_c_miner.Stage.Groups.{positions_bytes}
use dirtybird_c_miner.Stage.GroupOrder.{positions_bytes-append}
use dirtybird_c_miner.Stage.HashSink.{
  buffer_words, FusedHashSink, fused_hash_sink_init, fused_hash_sink_flush, fused_hash_sink_filled,
  fused_hash_sink_write_pos, write_positions_loop, fused_hash_sink_write_positions, write_each,
}

-- What SHA-256 documents of updates: bytes may come in parts, and no bytes change nothing.
abbrev pub IsStreaming {ℓ} : {Ctx : Type ℓ} → (Ctx → List ℕ → Ctx) → Type ℓ
IsStreaming {Ctx} update =
    ((ctx : Ctx) (a b : List ℕ) → update (update ctx a) b ≡ update ctx (a ++ b))
    × ((ctx : Ctx) → update ctx [] ≡ ctx)

module _ {Ctx : Type 0} (update : Ctx → List ℕ → Ctx) (streaming : IsStreaming update)
    (start : Ctx) where
  -- The sink has taken the positions: the first of them are hashed, the others are in the buffer.
  abbrev pub Absorbed : FusedHashSink Ctx → List ℕ → Type 0
  Absorbed sink positions =
      (hashed : List ℕ) × (sink.ctx ≡ update start (positions_bytes hashed))
      × (hashed ++ sink.buffer ≡ positions)
      × (length sink.buffer < buffer_words)
      × (sink.positions ≡ length positions)

  pub init-Absorbed : Absorbed (fused_hash_sink_init start) []
  unfolding fused_hash_sink_init positions_bytes
  init-Absorbed = ([], sym (streaming.1 start), refl, omega arith, refl)

  more_hashed :
      (ctx : Ctx) (hashed more : List ℕ)
      → ctx ≡ update start (positions_bytes hashed)
      → update ctx (positions_bytes more) ≡ update start (positions_bytes (hashed ++ more))
  more_hashed ctx hashed more e =
      ap (λ c. update c (positions_bytes more)) e
      ∙ streaming.0 start (positions_bytes hashed) (positions_bytes more)
      ∙ ap (update start) (sym (positions_bytes-append hashed more))

  filled-Absorbed :
      (sink : FusedHashSink Ctx) (positions more : List ℕ) (n : ℕ)
      → length sink.buffer + length more ≤ buffer_words
      → n ≡ length positions + length more
      → Absorbed sink positions
      → Absorbed (fused_hash_sink_filled update sink (sink.buffer ++ more) n) (positions ++ more)
  unfolding fused_hash_sink_filled
  filled-Absorbed sink positions more n room count (hashed, ctx, parts, few, total) =
      let buffer = sink.buffer ++ more in
      let len = length-append sink.buffer more in
      let whole : hashed ++ buffer ≡ positions ++ more =
        sym (append_assoc hashed sink.buffer more) ∙ ap (λ l. l ++ more) parts in
      let len' = length-append positions more in
      elim (Bool-cases (length buffer == buffer_words)) [
        | inl e ↦ rw e (
          hashed ++ buffer,
          more_hashed sink.ctx hashed buffer ctx,
          append-nil (hashed ++ buffer) ∙ whole,
          omega arith,
          omega (arith, count, len'),
        )
        | inr e ↦
            let apart : length buffer < 2048 = ground (arith, e, len, room) in
            rw e (hashed, ctx, whole, apart, omega (arith, count, len'))
      ]

  pub write_pos-Absorbed :
      (sink : FusedHashSink Ctx) (positions : List ℕ) (pos : ℕ)
      → Absorbed sink positions
      → Absorbed (fused_hash_sink_write_pos update sink pos) (positions ++ pos ∷ [])
  unfolding fused_hash_sink_write_pos
  write_pos-Absorbed sink positions pos h =
      filled-Absorbed sink positions (pos ∷ []) (sink.positions + 1) (omega (arith, h.3))
        (omega (arith, h.4)) h

  pub write_each-Absorbed :
      (more : List ℕ) (sink : FusedHashSink Ctx) (positions : List ℕ)
      → Absorbed sink positions
      → Absorbed (write_each update sink more) (positions ++ more)
  unfolding write_each
  write_each-Absorbed [] sink positions h = subst (Absorbed sink) (sym (append-nil positions)) h
  write_each-Absorbed (pos ∷ more) sink positions h =
      subst (Absorbed (write_each update (fused_hash_sink_write_pos update sink pos) more))
        (append_assoc positions (pos ∷ []) more)
        (write_each-Absorbed more (fused_hash_sink_write_pos update sink pos)
          (positions ++ pos ∷ []) (write_pos-Absorbed sink positions pos h))

  nil_of_length : {A : Type 0} (xs : List A) → length xs ≡ 0 → xs ≡ []
  nil_of_length [] h = refl
  nil_of_length (x ∷ xs) h = absurd (omega arith)

  at_once-Absorbed :
      (sink : FusedHashSink Ctx) (positions more : List ℕ) (full : ℕ)
      → length sink.buffer ≡ 0
      → full ≤ length more
      → Absorbed sink positions
      → Absorbed
          (record sink {
            ctx = update sink.ctx (positions_bytes (take full more));
            positions = sink.positions + full;
          })
          (positions ++ take full more)
  at_once-Absorbed sink positions more full empty inside (hashed, ctx, parts, few, total) =
      let gone = nil_of_length sink.buffer empty in
      let same : hashed ≡ positions =
        sym (append-nil hashed) ∙ ap (λ l. hashed ++ l) (sym gone) ∙ parts in
      (
        hashed ++ take full more,
        more_hashed sink.ctx hashed (take full more) ctx,
        ap (λ l. hashed ++ take full more ++ l) gone
            ∙ append-nil (hashed ++ take full more)
            ∙ ap (λ l. l ++ take full more) same,
        few,
        omega
            (arith, total, length-append positions (take full more), length-take full more inside),
      )

  write_positions_loop-Absorbed :
      (fuel : ℕ) (sink : FusedHashSink Ctx) (positions more : List ℕ)
      → length more ≤ fuel
      → Absorbed sink positions
      → Absorbed (write_positions_loop update fuel sink more) (positions ++ more)
  unfolding write_positions_loop
  write_positions_loop-Absorbed zero sink positions [] few h =
      subst (Absorbed sink) (sym (append-nil positions)) h
  write_positions_loop-Absorbed zero sink positions (x ∷ more) few h = absurd (omega arith)
  write_positions_loop-Absorbed (suc fuel) sink positions more few h =
      let count = length more in
      let full = count - count % 2048 in
      let chunk = min count (2048 - length sink.buffer) in
      let room = h.3 in
      let rejoin = λ (n : ℕ).
        append_assoc positions (take n more) (drop n more)
        ∙ ap (λ l. positions ++ l) (take_append_drop n more) in
      elim (Bool-cases (count == 0)) [
        | inl e ↦
            let none_left = nil_of_length more ((==_iff count 0).0 e) in
            rw (e, write_positions_loop)
              (subst (Absorbed sink)
                (sym (append-nil positions) ∙ ap (λ l. positions ++ l) (sym none_left)) h)
        | inr e ↦
            let some_left : 0 < count = ground (arith, e) in
            elim (Bool-cases ((length sink.buffer == 0) && leb 2048 count)) [
              | inl big ↦
                  let empty : length sink.buffer ≡ 0 = ground (arith, big) in
                  let many : 2048 ≤ count = ground (arith, big) in
                  let rest = length-drop full more (omega arith) in
                  rw (e, big, write_positions_loop)
                    (subst (Absorbed _) (rejoin full) (
                      write_positions_loop-Absorbed fuel _ (positions ++ take full more)
                        (drop full more) (omega (arith, rest, many))
                        (at_once-Absorbed sink positions more full empty (omega arith) h)))
              | inr small ↦
                  let taken = length-take chunk more (omega arith) in
                  let rest = length-drop chunk more (omega arith) in
                  rw (e, small, write_positions_loop)
                    (subst (Absorbed _) (rejoin chunk) (
                      write_positions_loop-Absorbed fuel _ (positions ++ take chunk more)
                        (drop chunk more) (omega (arith, rest, room, some_left))
                        (filled-Absorbed sink positions (take chunk more) (sink.positions + chunk)
                          (omega (arith, taken, room)) (omega (arith, taken, h.4)) h)))
            ]
      ]

  pub write_positions-Absorbed :
      (sink : FusedHashSink Ctx) (positions more : List ℕ)
      → Absorbed sink positions
      → Absorbed (fused_hash_sink_write_positions update sink more) (positions ++ more)
  unfolding fused_hash_sink_write_positions
  write_positions-Absorbed sink positions more h =
      write_positions_loop-Absorbed (length more) sink positions more (omega arith) h

  -- After the flush all is hashed.
  pub flush-Absorbed :
      (sink : FusedHashSink Ctx) (positions : List ℕ)
      → Absorbed sink positions
      → (fused_hash_sink_flush update sink).ctx ≡ update start (positions_bytes positions)
  unfolding fused_hash_sink_flush
  flush-Absorbed sink positions (hashed, ctx, parts, few, total) =
      elim (Bool-cases (length sink.buffer == 0)) [
        | inl e ↦
            let gone = nil_of_length sink.buffer ((==_iff (length sink.buffer) 0).0 e) in
            rw e (
              ctx
              ∙ ap (λ l. update start (positions_bytes l))
                  (sym (append-nil hashed) ∙ ap (λ l. hashed ++ l) (sym gone) ∙ parts))
        | inr e ↦ rw e (
            more_hashed sink.ctx hashed sink.buffer ctx
            ∙ ap (λ l. update start (positions_bytes l)) parts)
      ]
