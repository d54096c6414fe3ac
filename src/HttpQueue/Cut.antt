-- ===== src/HttpQueue/Cut.antt =====
-- An event stream that ends anywhere, as a connection that breaks leaves it to the client of
-- internal/shared/http_message_queue.go.
use mathlib.Core.List.{append_assoc}
use telemetry_punitha.Prelude.{
  ℕ, ◌≡◌, refl, sym, ap, ◌∙◌, ◌⊎◌, inl, inr, Bool, true, false, List, [], ◌∷◌, ◌++◌, Text, codes,
  text_eq, ◌==◌, mentions, mentions-append, All, All-split, arith, subst,
}
use telemetry_punitha.Strconv.{itoa}
use telemetry_punitha.MsgQueue.Message.{Message, Codec}
use telemetry_punitha.MsgQueue.Http.{newline}
use telemetry_punitha.MsgQueue.Handlers.{event}
use telemetry_punitha.HttpQueue.{HttpMessageQueue, JsonMap, scan}
use telemetry_punitha.HttpQueue.Lines.{
  IsLine, IsLine-append, itoa-IsLine, scan_lines, scan_lines-nil, scan_lines_given, has_no_blank,
  has_no_blank_prefix, has_no_blank_line,
}
use telemetry_punitha.HttpQueue.Stream.{IsStreamable, stream}
use telemetry_punitha.HttpQueue.Delivery.{handle_all, scan-stream_part}

-- Two splits of one list: the first ends no later than the second, or earlier.
split_order :
    {A : Type 0} (a b c d : List A)
    → a ++ b ≡ c ++ d
    → ((e : List A) × (c ≡ a ++ e) × (b ≡ e ++ d)) ⊎ ((x : A) × (e : List A) × (a ≡ c ++ x ∷ e))
split_order [] b c d h = inl (c, refl, h)
split_order (x ∷ a) b [] d h = inr (x, a, refl)
split_order (x ∷ a) b (y ∷ c) d h = elim (split_order a b c d (ground (arith, h))) [
  | inl (e, p, q) ↦ inl (e, ground (arith, h, p), q)
  | inr (z, e, p) ↦ inr (z, e, ground (arith, h, p))
]

before_last :
    (s : Text) (c : ℕ) (part : Text) (x : ℕ) (lost : Text)
    → s ++ c ∷ [] ≡ part ++ x ∷ lost
    → (rest : Text) × (s ≡ part ++ rest)
before_last s c [] x lost e = (s, refl)
before_last [] c (y ∷ []) x lost e = absurd (ground (arith, e))
before_last [] c (y ∷ z ∷ part) x lost e = absurd (ground (arith, e))
before_last (a ∷ s) c (y ∷ part) x lost e =
    let (rest, same) = before_last s c part x lost (ground (arith, e)) in
    (rest, ground (arith, e, same))

module _ (codec : Codec) where
  -- The lines of an event, without the blank one that ends it.
  abbrev body_of : Message → Text
  body_of m =
      (codes "id: " ++ m.id)
      ++ newline
        ∷ ((codes "data: " ++ codec.marshal m)
            ++ newline ∷ ((codes "partition: " ++ itoa m.partition) ++ newline ∷ []))

  event_body : (m : Message) → event codec m ≡ body_of m ++ newline ∷ []
  event_body m = unfold event in simp append_assoc

  body_has_no_blank :
      (m : Message)
      → IsLine m.id
      → IsLine (codec.marshal m)
      → (mentions 13 (body_of m) ≡ false) × (has_no_blank true (body_of m) ≡ true)
  unfolding mentions
  body_has_no_blank m hi hj =
      let c = codes "partition: " ++ itoa m.partition in
      let b = (codes "data: " ++ codec.marshal m) in
      let a = codes "id: " ++ m.id in
      let la = IsLine-append (codes "id: ") m.id (refl, refl) hi in
      let lb = IsLine-append (codes "data: ") (codec.marshal m) (refl, refl) hj in
      let lc =
        IsLine-append (codes "partition: ") (itoa m.partition) (refl, refl)
          (itoa-IsLine m.partition) in
      (
        ground (
          arith,
          la,
          lb,
          lc,
          mentions-append 13 a (newline ∷ (b ++ newline ∷ (c ++ newline ∷ []))),
          mentions-append 13 b (newline ∷ (c ++ newline ∷ [])),
          mentions-append 13 c (newline ∷ []),
        ),
        has_no_blank_line b'i' (codes "d: " ++ m.id) (b ++ newline ∷ (c ++ newline ∷ [])) la.0
            ∙ has_no_blank_line b'd' (codes "ata: " ++ codec.marshal m) (c ++ newline ∷ []) lb.0
            ∙ has_no_blank_line b'p' (codes "artition: " ++ itoa m.partition) [] lc.0
            ∙ (unfold has_no_blank in refl),
      )

  -- A part of a text's beginning: what has come of the next event, but not all of it.
  pub record IsCut (part : Text) (m : Message) : Type 0 where
    pub next : ℕ
    pub lost : Text
    pub whole : event codec m ≡ part ++ next ∷ lost

  -- The scanner gives no empty line for the beginning of an event.
  pub scan_lines-IsCut :
      (part : Text) (m : Message)
      → IsLine m.id
      → IsLine (codec.marshal m)
      → IsCut part m
      → All (λ (line : Text). (line == []) ≡ false) (scan_lines part)
  scan_lines-IsCut part m hi hj cut =
      let (rest, e) =
        before_last (body_of m) newline part cut.next cut.lost (sym (event_body m) ∙ cut.whole) in
      let (plain, given) = body_has_no_blank m hi hj in
      scan_lines_given part (ground (arith, mentions-append 13 part rest, e, plain))
        (has_no_blank_prefix true part rest (ap (has_no_blank true) (sym e) ∙ given))

  -- What has arrived of the events of some messages: those of the messages that are done whole,
  -- and a part of the next one.
  pub record Arrived (ms : List Message) (arrived : Text) : Type 0 where
    pub complete : List Message
    pub open' : List Message
    pub part : Text
    pub all : ms ≡ complete ++ open'
    pub text : arrived ≡ stream codec complete ++ part
    pub next :
        ((open' ≡ []) × (part ≡ []))
        ⊎ ((m : Message) × (more : List Message) × (open' ≡ m ∷ more) × IsCut part m)

  pub stream_beginning :
      (ms : List Message) (arrived lost : Text)
      → stream codec ms ≡ arrived ++ lost
      → Arrived ms arrived
  unfolding stream
  stream_beginning [] [] lost e = record {
    complete = [];
    open' = [];
    part = [];
    all = refl;
    text = refl;
    next = inl (refl, refl);
  }
  stream_beginning [] (c ∷ arrived) lost e = absurd (ground (arith, e))
  stream_beginning (m ∷ ms) arrived lost e =
      elim (split_order (event codec m) (stream codec ms) arrived lost e) [
        | inr (c, gone, cut) ↦ record {
          complete = [];
          open' = m ∷ ms;
          part = arrived;
          all = refl;
          text = refl;
          next = inr (m, ms, refl, record { next = c; lost = gone; whole = cut });
        }
        | inl (more, here, rest) ↦
            let a = stream_beginning ms more lost rest in
            record {
              complete = m ∷ a.complete;
              open' = a.open';
              part = a.part;
              all = ap (λ l. m ∷ l) a.all;
              text =
                  here
                  ∙ ap (λ t. event codec m ++ t) a.text
                  ∙ sym (append_assoc (event codec m) (stream codec a.complete) a.part);
              next = a.next;
            }
      ]

  part_given :
      (buffer : ℕ) (ms : List Message) (arrived : Text)
      → All (IsStreamable codec buffer) ms
      → (a : Arrived ms arrived)
      → All (IsStreamable codec buffer) a.complete
        × All (λ (line : Text). (line == []) ≡ false) (scan_lines a.part)
  part_given buffer ms arrived good a =
      let (before, behind) =
        All-split (IsStreamable codec buffer) a.complete a.open'
          (subst (All (IsStreamable codec buffer)) a.all good) in
      (
        before,
        elim a.next [
          | inl (over, nothing) ↦
              subst (λ t. All (λ (line : Text). (line == []) ≡ false) (scan_lines t)) (sym nothing)
                (rw scan_lines-nil tt)
          | inr (m, more, follows, cut) ↦
              let good_m = (subst (All (IsStreamable codec buffer)) follows behind).0 in
              scan_lines-IsCut a.part m good_m.id_line good_m.json_line cut
        ],
      )

module _ {ℓ} {S : Type ℓ} (codec : Codec) (json : JsonMap) (h : HttpMessageQueue)
    (handler : S → Text → Text → Text → Bool × S) where
  pub scan-Arrived :
      (buffer : ℕ) (ms : List Message) (arrived : Text) (state : S)
      → All (IsStreamable codec buffer) ms
      → (a : Arrived codec ms arrived)
      → scan codec json h handler buffer (scan_lines arrived) [] [] state
        ≡ handle_all codec json h handler a.complete state
  scan-Arrived buffer ms arrived state good a =
      let (before, given) = part_given codec buffer ms arrived good a in
      ap (λ t. scan codec json h handler buffer (scan_lines t) [] [] state) a.text
      ∙ scan-stream_part codec json h handler buffer a.complete a.part state before given

  -- Wherever the event stream of some streamable messages breaks off, the client handles exactly
  -- the messages whose events have arrived whole, in their order, and nothing of the part behind
  -- them.
  pub scan-beginning :
      (buffer : ℕ) (ms : List Message) (arrived lost : Text) (state : S)
      → All (IsStreamable codec buffer) ms
      → stream codec ms ≡ arrived ++ lost
      → (a : Arrived codec ms arrived) × (scan codec json h handler buffer
            (scan_lines arrived)
            []
            []
            state
          ≡ handle_all codec json h handler a.complete state)
  scan-beginning buffer ms arrived lost state good e =
      let a = stream_beginning codec ms arrived lost e in
      (a, scan-Arrived buffer ms arrived state good a)
