-- ===== src/MsgQueue/Partition/Reload.antt =====
-- The log file of a Partition: Partition.persist and Partition.loadFromFile,
-- services/msg_queue/main.go.
use mathlib.Core.List.{append_assoc, append-nil, map-append}
use mathlib.Core.Option
use telemetry_punitha.Prelude.{
  ℕ, ◌+◌, ◌≤◌, ◌<◌, ◌≡◌, refl, ap, ◌∙◌, sym, true, false, List, [], ◌∷◌, ◌++◌, map, Option, none,
  some, Text, arith, length, length-append, All, All-append, ltb, lt→ltb, inl, inr, Option-cases,
  ok, err,
}
use telemetry_punitha.MsgQueue.Message.{Message, Codec}
use telemetry_punitha.MsgQueue.Partition.Fifo.{enqueue_all}
use telemetry_punitha.MsgQueue.Partition.{
  Partition, new_partition, enqueue, load_line, load_lines, load_from_file, scan_buffer,
  full_persisted,
}

module _ (json : Codec) where
  open json use {marshal, unmarshal, IsPlain, unmarshal-marshal}

  -- A message whose line comes back whole.
  pub record IsLoadable (buffer : ℕ) (m : Message) : Type 0 where
    pub plain : IsPlain m
    pub short : length (marshal m) < buffer

  load_line_room :
      (m : Message) (p : Partition)
      → unmarshal (marshal m) ≡ some m
      → p.closed ≡ false
      → length p.queue + 1 ≤ p.cap
      → load_line json (marshal m) p ≡ some (record p { queue = p.queue ++ m ∷ [] })
  unfolding load_line
  load_line_room m p e alive h = ground arith

  load_lines-marshal :
      (buffer : ℕ) (ms : List Message) (p : Partition)
      → All (IsLoadable buffer) ms
      → p.closed ≡ false
      → length p.queue + length ms ≤ p.cap
      → load_lines json buffer (map marshal ms) p ≡ some (record p { queue = p.queue ++ ms })
  load_lines-marshal buffer [] p good alive h =
      unfold load_lines in ap (λ q. some (record p { queue = q })) (sym (append-nil p.queue))
  load_lines-marshal buffer (m ∷ ms) p good alive h =
      let queued : Partition = record p { queue = p.queue ++ m ∷ [] } in
      let first : load_line json (marshal m) p ≡ some queued =
        load_line_room m p (unmarshal-marshal m good.0.plain) alive (omega arith) in
      let fits : ltb (length (marshal m)) buffer ≡ true = lt→ltb _ _ good.0.short in
      let step : load_lines json buffer (map marshal (m ∷ ms)) p
          ≡ load_lines json buffer (map marshal ms) queued =
        unfold load_lines in ground arith in
      step
      ∙ load_lines-marshal buffer ms queued good.1 alive
          (omega (arith, length-append p.queue (m ∷ [])))
      ∙ ap (λ q. some (record p { queue = q })) (append_assoc p.queue (m ∷ []) ms)

  -- newPartition on the file that a partition leaves behind, and the load that it starts.
  unfoldable pub restart : ℕ → ℕ → Partition → Option Partition
  restart vis_to queue_size p = elim (new_partition (ok p.file) p.topic p.index vis_to queue_size) [
    | err e ↦ none
    | ok fresh ↦ load_from_file json fresh
  ]

  enqueue_full :
      (m : Message) (p : Partition)
      → p.closed ≡ false
      → p.cap ≤ length p.queue
      → enqueue json none m p
        ≡ (some (full_persisted (length p.queue)), record p { file = p.file ++ marshal m ∷ [] })
  unfolding enqueue
  enqueue_full m p alive over = ground arith

  queue-restart :
      (ms : List Message) (p : Partition) (vis_to queue_size : ℕ)
      → p.file ≡ map marshal ms
      → All (IsLoadable scan_buffer) ms
      → length ms ≤ queue_size
      → Option.map (λ (r : Partition). r.queue) (restart vis_to queue_size p) ≡ some ms
  unfolding restart new_partition load_from_file
  queue-restart ms p vis_to queue_size e good h =
      let fresh : Partition = record p {
        cap = queue_size;
        queue = [];
        pending = [];
        vis_to = vis_to;
        closed = false;
      } in
      let loaded = load_lines-marshal scan_buffer ms fresh good refl (omega arith) in
      ap
        (λ lines. Option.map (λ (r : Partition). r.queue) (load_lines json scan_buffer lines fresh))
        e
      ∙ ap (Option.map (λ (r : Partition). r.queue)) loaded

  -- On an open partition, a message that finds the queue full and whose write to the log
  -- succeeds is refused with the error "persisted as fallback", and it is not lost with the
  -- process: if the lines of the file are those of loadable messages, the new one is loadable
  -- too, and they fit the queue of the next partition on the same file, then its load puts the
  -- old messages and the new one into the queue, in the order of their writes.
  pub restart-enqueue_full :
      (ms : List Message) (m : Message) (p : Partition) (vis_to queue_size : ℕ)
      → p.closed ≡ false
      → p.cap ≤ length p.queue
      → p.file ≡ map marshal ms
      → All (IsLoadable scan_buffer) ms
      → IsLoadable scan_buffer m
      → length ms + 1 ≤ queue_size
      → ((enqueue json none m p).0 ≡ some (full_persisted (length p.queue)))
        × (Option.map
              (λ (r : Partition). r.queue)
              (restart vis_to queue_size (enqueue json none m p).1)
            ≡ some (ms ++ m ∷ []))
  restart-enqueue_full ms m p vis_to queue_size alive over e good last h =
      let refused = enqueue_full m p alive over in
      rw refused (
        refl,
        queue-restart (ms ++ m ∷ []) (record p { file = p.file ++ marshal m ∷ [] }) vis_to
            queue_size (ap (λ lines. lines ++ marshal m ∷ []) e ∙ sym (map-append _ _ _))
            (All-append _ ms (m ∷ []) good (last, tt)) (omega (arith, length-append ms (m ∷ []))),
      )

  -- In a load, a line that does not fit the scanner's buffer hides all lines behind it.
  load_lines_long :
      (buffer : ℕ) (xs : List Text) (long : Text) (ys : List Text) (p : Partition)
      → buffer ≤ length long
      → load_lines json buffer (xs ++ long ∷ ys) p ≡ load_lines json buffer xs p
  unfolding load_lines
  load_lines_long buffer [] long ys p h = ground arith
  load_lines_long buffer (x ∷ xs) long ys p h = elim (Option-cases (load_line json x p)) [
    | inl e ↦ ground arith
    | inr (q, e) ↦ ground (arith, load_lines_long buffer xs long ys q h)
  ]

  file-enqueue_all :
      (ms : List Message) (p : Partition)
      → p.closed ≡ false
      → p.cap ≤ length p.queue
      → (enqueue_all json ms p).file ≡ p.file ++ map marshal ms
  unfolding enqueue_all
  file-enqueue_all [] p alive over = sym (append-nil p.file)
  file-enqueue_all (m ∷ ms) p alive over =
      ap (λ r. (enqueue_all json ms r.1).file) (enqueue_full m p alive over)
      ∙ file-enqueue_all ms (record p { file = p.file ++ marshal m ∷ [] }) alive over
      ∙ append_assoc p.file (marshal m ∷ []) (map marshal ms)

  -- A message too long for the scanner hides what is persisted after it: on an open partition
  -- with a full queue, whose file has the lines of loadable messages, let any messages be
  -- enqueued, the first with a JSON text that does not fit the scanner's buffer, and every write
  -- to the file succeed. The next partition on the file then has the old messages in its queue
  -- and none of the new ones, if the old ones fit it.
  pub restart-enqueue_all_long :
      (ms : List Message) (big : Message) (ns : List Message) (p : Partition)
      (vis_to queue_size : ℕ)
      → p.closed ≡ false
      → p.cap ≤ length p.queue
      → p.file ≡ map marshal ms
      → All (IsLoadable scan_buffer) ms
      → length ms ≤ queue_size
      → scan_buffer ≤ length (marshal big)
      → Option.map
          (λ (r : Partition). r.queue)
          (restart vis_to queue_size (enqueue_all json (big ∷ ns) p))
        ≡ some ms
  unfolding restart new_partition load_from_file
  restart-enqueue_all_long ms big ns p vis_to queue_size alive over e good h long =
      let after = enqueue_all json (big ∷ ns) p in
      let fresh : Partition = record after {
        cap = queue_size;
        queue = [];
        pending = [];
        vis_to = vis_to;
        closed = false;
      } in
      let lines : after.file ≡ map marshal ms ++ marshal big ∷ map marshal ns =
        file-enqueue_all (big ∷ ns) p alive over
        ∙ ap (λ xs. xs ++ marshal big ∷ map marshal ns) e in
      ap (λ xs. Option.map (λ (r : Partition). r.queue) (load_lines json scan_buffer xs fresh))
        lines
      ∙ ap (Option.map (λ (r : Partition). r.queue)) (
          load_lines_long scan_buffer (map marshal ms) (marshal big) (map marshal ns) fresh long
          ∙ load_lines-marshal scan_buffer ms fresh good refl (omega arith))
