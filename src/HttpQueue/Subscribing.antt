-- ===== src/HttpQueue/Subscribing.antt =====
-- Subscribe, consumeFromPartition and GetTopics of internal/shared/http_message_queue.go.
use telemetry_punitha.Prelude.{
  ℕ, zero, suc, ◌+◌, ◌≡◌, refl, ap, ◌∙◌, Bool, true, false, List, [], ◌∷◌, ◌++◌, Option, none, some,
  Text, eqb, All, if◌then◌else◌, Result, ok, err, arith,
}
use telemetry_punitha.Prelude.Int.{ℤ, pos, negsuc}
use telemetry_punitha.MsgQueue.Http.{Response}
use telemetry_punitha.MsgQueue.Message.{Message, Codec}
use telemetry_punitha.HttpQueue.{
  HttpMessageQueue, JsonMap, Sent, ClientError, not_sent, refused, scan,
}
use telemetry_punitha.HttpQueue.Lines.{scan_lines}
use telemetry_punitha.HttpQueue.Stream.{IsStreamable, stream}
use telemetry_punitha.HttpQueue.Delivery.{handle_all, scan-stream}
use telemetry_punitha.HttpQueue.Cut.{Arrived, scan-Arrived}

-- The loop over the partitions from `i`, with `n` of them left.
unfoldable pub consumers_from : ℕ → ℕ → List ℤ
consumers_from zero i = []
consumers_from (suc n) i = pos i ∷ consumers_from n (i + 1)

-- The partitions for which Subscribe starts a goroutine; `none` is the panic of `make`.
unfoldable pub consumers : HttpMessageQueue → Option (List ℤ)
unfolding consumers_from
consumers h = elim h.max_partitions [ negsuc n ↦ none | pos n ↦ some (consumers_from n 0) ]

-- What one round of the loop of consumeFromPartition meets: a URL that is none, no response, or a
-- response, with the body up to the end of the connection.
pub data Attempt : Type 0 where
  bad_request no_response : Text → Attempt
  responded : Response → Attempt

module _ {ℓ} {S : Type ℓ} (codec : Codec) (json : JsonMap) (h : HttpMessageQueue)
    (handler : S → Text → Text → Text → Bool × S) where
  -- The rounds so far: the error that ends the loop, if there is one, the acknowledgements that
  -- were posted, and the handler's state.
  unfoldable pub consume_from_partition : ℕ → List Attempt → S → Option Text × (Sent × S)
  consume_from_partition buffer [] state = (none, ([], state))
  consume_from_partition buffer (bad_request e ∷ attempts) state = (some e, ([], state))
  consume_from_partition buffer (no_response e ∷ attempts) state =
      consume_from_partition buffer attempts state
  consume_from_partition buffer (responded resp ∷ attempts) state = elim (eqb resp.status 200) [
    | false ↦ consume_from_partition buffer attempts state
    | true ↦
        let (posted, after) = scan codec json h handler buffer (scan_lines resp.body) [] [] state in
        let (stopped, (more, last)) = consume_from_partition buffer attempts after in
        (stopped, (posted ++ more, last))
  ]

-- What GetTopics gives for what the network gives; `decode` is the decoder of encoding/json at
-- map[string][]int, whose error is `none`.
pub data TopicsResult (A : Type 0) : Type 0 where
  listed : A → TopicsResult A
  failed : ClientError → TopicsResult A
  undecodable : TopicsResult A

unfoldable pub get_topics : {A : Type 0} → (Text → Option A) → Result Text Response → TopicsResult A
get_topics decode (err e) = failed (not_sent e)
get_topics decode (ok resp) =
    if eqb resp.status 200
    then elim (decode resp.body) [ none ↦ undecodable | some topics ↦ listed topics ]
    else failed (refused resp.status resp.body)

-- The rounds of a connection that fails and comes back, and the messages that it carried.
pub data Session (codec : Codec) (buffer : ℕ) : List Attempt → List Message → Type 0 where
  ends : Session codec buffer [] []
  lost :
      {attempts : List Attempt} {ms : List Message} (e : Text)
      → Session codec buffer attempts ms
      → Session codec buffer (no_response e ∷ attempts) ms
  refuses :
      {attempts : List Attempt} {ms : List Message} (resp : Response)
      → eqb resp.status 200 ≡ false
      → Session codec buffer attempts ms
      → Session codec buffer (responded resp ∷ attempts) ms
  streams :
      {attempts : List Attempt} {ms : List Message} (resp : Response) (sent : List Message)
      → eqb resp.status 200 ≡ true
      → resp.body ≡ stream codec sent
      → All (IsStreamable codec buffer) sent
      → Session codec buffer attempts ms
      → Session codec buffer (responded resp ∷ attempts) (sent ++ ms)
  breaks :
      {attempts : List Attempt} {ms : List Message} (resp : Response) (sent : List Message)
      → eqb resp.status 200 ≡ true
      → All (IsStreamable codec buffer) sent
      → (a : Arrived codec sent resp.body) → Session codec buffer attempts ms
      → Session codec buffer (responded resp ∷ attempts) (a.complete ++ ms)

module _ {ℓ} {S : Type ℓ} (codec : Codec) (json : JsonMap) (h : HttpMessageQueue)
    (handler : S → Text → Text → Text → Bool × S) where
  pub handle_all-append :
      (ms ns : List Message) (state : S)
      → handle_all codec json h handler (ms ++ ns) state ≡ (
        (handle_all codec json h handler ms state).0
            ++ (handle_all codec json h handler ns (handle_all codec json h handler ms state).1).0,
        (handle_all codec json h handler ns (handle_all codec json h handler ms state).1).1,
      )
  unfolding handle_all
  handle_all-append [] ns state = refl
  handle_all-append (m ∷ ms) ns state =
      ground (arith, handle_all-append ms ns (handler state m.topic m.payload m.id).1)

  -- A consumer whose connection fails, is refused, ends, or breaks off anywhere in a stream,
  -- again and again, does not stop, and handles exactly the messages whose events have arrived
  -- whole, each one once and in their order, and acknowledges those that its handler takes. The
  -- messages of each stream are streamable.
  pub consume_from_partition_lem :
      (buffer : ℕ) {attempts : List Attempt} {ms : List Message} (state : S)
      → Session codec buffer attempts ms
      → consume_from_partition codec json h handler buffer attempts state
        ≡ (none, handle_all codec json h handler ms state)
  unfolding consume_from_partition
  consume_from_partition_lem buffer state ends = unfold handle_all in refl
  consume_from_partition_lem buffer state (lost e s) = consume_from_partition_lem buffer state s
  consume_from_partition_lem buffer state (refuses resp e s) =
      ground (arith, consume_from_partition_lem buffer state s)
  consume_from_partition_lem buffer state (streams {ms} resp sent e same good s) =
      let read : scan codec json h handler buffer (scan_lines resp.body) [] [] state
          ≡ handle_all codec json h handler sent state =
        ap (λ b. scan codec json h handler buffer (scan_lines b) [] [] state) same
        ∙ scan-stream codec json h handler buffer sent state good in
      ground (
        arith,
        read,
        consume_from_partition_lem buffer (handle_all codec json h handler sent state).1 s,
        handle_all-append sent ms state,
      )
  consume_from_partition_lem buffer state (breaks {ms} resp sent e good a s) =
      let read = scan-Arrived codec json h handler buffer sent resp.body state good a in
      ground (
        arith,
        read,
        consume_from_partition_lem buffer (handle_all codec json h handler a.complete state).1 s,
        handle_all-append a.complete ms state,
      )
